-- ===== src/Planner/GraphOpt/Parse/Decimal.antt =====
-- core/planner/graph_opt.c: a constant that was emitted is read back.
use functional_c.Prelude.{
  ℕ, zero, suc, ◌+◌, ◌-◌, ◌*◌, ◌/◌, ◌%◌, ◌≤◌, ◌≡◌, refl, ap, sym, ◌∙◌, true, false, [], ◌∷◌, ◌++◌,
  Bool-cases, inl, inr, ltb, ◌==◌, arith,
}
use functional_c.Prelude.Text.{Text, Every}
use functional_c.Prelude.Int.{ℤ, pos, negsuc}
use functional_c.Planner.GraphOpt.Parse.{
  is_digit, read_digits, digits, print_int, strtoll, starts_digit, max_long, clamp_to,
}

digits-append :
    (fuel n : ℕ) (out rest : Text) → digits fuel n (out ++ rest) ≡ digits fuel n out ++ rest
unfolding digits
digits-append zero n out rest = refl
digits-append (suc fuel) n out rest = elim (Bool-cases (ltb n 10)) [
  | inl small ↦ rw small refl
  | inr large ↦ rw large (digits-append fuel (n / 10) ((b'0' + n % 10) ∷ out) rest)
]

-- Reading a digit.
read_digit :
    (acc d m : ℕ) (s : Text)
    → d ≤ 9
    → acc * 10 + d ≡ m
    → read_digits acc ((b'0' + d) ∷ s) ≡ read_digits m s
unfolding read_digits is_digit
read_digit acc d m s h e =
    let here : is_digit (b'0' + d) ≡ true = ground arith in
    let same : acc * 10 + (b'0' + d - b'0') ≡ m = omega arith in rw (here, same) refl

read_digits-digits :
    (fuel n : ℕ) (out : Text) → n ≤ fuel → read_digits 0 (digits fuel n out) ≡ read_digits n out
unfolding digits
read_digits-digits zero n out h = read_digit 0 (n % 10) n out (omega arith) (omega arith)
read_digits-digits (suc fuel) n out h = elim (Bool-cases (ltb n 10)) [
  | inl small ↦ rw small (read_digit 0 n n out (ground arith) (omega arith))
  | inr large ↦
      let big : 10 ≤ n = ground arith in
      rw large (
        read_digits-digits fuel (n / 10) ((b'0' + n % 10) ∷ out) (omega arith)
        ∙ read_digit (n / 10) (n % 10) n out (omega arith) (omega arith))
]

pub digits-head :
    (fuel n : ℕ) (out : Text)
    → (c : ℕ) × (t : Text) × (digits fuel n out ≡ c ∷ t) × (is_digit c ≡ true)
unfolding digits is_digit
digits-head zero n out = (b'0' + n % 10, out, refl, ground arith)
digits-head (suc fuel) n out = elim (Bool-cases (ltb n 10)) [
  | inl small ↦ (b'0' + n, out, rw small refl, ground arith)
  | inr large ↦
      let (c, t, e, d) = digits-head fuel (n / 10) ((b'0' + n % 10) ∷ out) in (c, t, rw large e, d)
]

pub read_digits-stop :
    (acc : ℕ) (rest : Text) → starts_digit rest ≡ false → read_digits acc rest ≡ (acc, rest)
unfolding read_digits starts_digit
read_digits-stop acc [] h = refl
read_digits-stop acc (c ∷ s) h = rw h refl

read_digits-print :
    (fuel n : ℕ) (rest : Text)
    → n ≤ fuel
    → starts_digit rest ≡ false
    → read_digits 0 (digits fuel n [] ++ rest) ≡ (n, rest)
read_digits-print fuel n rest h stop =
    ap (read_digits 0) (sym (digits-append fuel n [] rest))
    ∙ read_digits-digits fuel n rest h
    ∙ read_digits-stop n rest stop

-- The constants that a `long long` holds.
abbrev pub InRange : ℤ → Type 0
InRange (pos n) = n ≤ max_long
InRange (negsuc n) = n ≤ max_long

-- With a character that is a digit in front there is no sign.
unsigned :
    (c : ℕ) (s rest : Text) (n : ℕ)
    → is_digit c ≡ true
    → n ≤ max_long
    → read_digits 0 (c ∷ s) ≡ (n, rest)
    → strtoll (c ∷ s) ≡ (pos n, rest)
unfolding strtoll is_digit clamp_to
unsigned c s rest n d h e =
    let minus : (c == b'-') ≡ false = ground arith in
    let plus : (c == b'+') ≡ false = ground arith in
    let fits : ltb max_long n ≡ false = ground arith in rw (minus, plus) (rw e (rw fits refl))

-- `strtoll` reads back a constant that was emitted, if it is in range and no digit follows.
pub strtoll-print_int :
    (c : ℤ) (rest : Text)
    → InRange c
    → starts_digit rest ≡ false
    → strtoll (print_int c ++ rest) ≡ (c, rest)
unfolding print_int
strtoll-print_int (pos n) rest h stop =
    let (c, t, e, d) = digits-head n n [] in
    let run = read_digits-print n n rest (omega arith) stop in
    rw e (unsigned c (t ++ rest) rest n d h (rw e at run))
strtoll-print_int (negsuc n) rest h stop =
    let run = read_digits-print (suc n) (suc n) rest (omega arith) stop in
    let fits : ltb (max_long + 1) (suc n) ≡ false = ground arith in
    unfold strtoll clamp_to in rw run (rw fits refl)

-- Nothing but digits.
pub digits-Every :
    (fuel n : ℕ) (out : Text) → Every is_digit out → Every is_digit (digits fuel n out)
unfolding digits is_digit
digits-Every zero n out h = (ground arith, h)
digits-Every (suc fuel) n out h = elim (Bool-cases (ltb n 10)) [
  | inl small ↦ rw small (ground arith, h)
  | inr large ↦ rw large (digits-Every fuel (n / 10) ((b'0' + n % 10) ∷ out) (ground arith, h))
]
