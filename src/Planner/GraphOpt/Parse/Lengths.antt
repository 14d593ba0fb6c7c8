-- ===== src/Planner/GraphOpt/Parse/Lengths.antt =====
-- core/planner/graph_opt.c: what each read of the parser leaves of the text.
use functional_c.Prelude.{
  ℕ, suc, ◌+◌, ◌*◌, ◌-◌, ◌≤◌, Bool, Option, none, some, [], ◌∷◌, Bool-cases, inl, inr, ◌==◌, ◌||◌,
  arith, length,
}
use functional_c.Prelude.Text.{Text}
use functional_c.Planner.GraphOpt.Parse.{
  is_ident_start, is_ident_char, is_digit, is_space, rx_skip_space, rx_consume, strip_prefix, span,
  ident_at, rx_parse_ident, read_digits, starts_number, strtoll, Names, Parsed, parsed, failed,
  out_of_fuel, Reader, named, rx_parse_atom,
}

-- The parser ended, with at most `n` characters left.
abbrev pub Within : ℕ → Parsed → Type 0
Within n (parsed e rest) = length rest ≤ n
Within n failed = Unit
Within n out_of_fuel = ⊥

-- A token was taken off a text of `n` characters, or not.
abbrev pub Taken : ℕ → Option Text → Type 0
Taken n none = Unit
Taken n (some rest) = suc (length rest) ≤ n

-- The reader ends on the texts of at most `n` characters, and leaves no more than it was given.
abbrev pub Ends : ℕ → Reader → Type 0
Ends n reader = (s : Text) → length s ≤ n → Within (length s) (reader s)

pub length-skip_space : (s : Text) → length (rx_skip_space s) ≤ length s
unfolding rx_skip_space
length-skip_space [] = omega arith
length-skip_space (c ∷ s) = elim (Bool-cases (is_space c)) [
  | inl h ↦ let rest = length-skip_space s in rw h (omega arith)
  | inr h ↦ rw h (omega arith)
]

pub Taken-mono : (m n : ℕ) (o : Option Text) → m ≤ n → Taken m o → Taken n o
Taken-mono m n none h t = tt
Taken-mono m n (some rest) h t = omega arith

strip_prefix-length : (token s : Text) → Taken (suc (length s)) (strip_prefix token s)
unfolding strip_prefix
strip_prefix-length [] s = omega arith
strip_prefix-length (t ∷ token) [] = tt
strip_prefix-length (t ∷ token) (c ∷ s) = elim (Bool-cases (c == t)) [
  | inl h ↦ rw h (
      Taken-mono (suc (length s)) (suc (suc (length s))) (strip_prefix token s) (omega arith)
        (strip_prefix-length token s))
  | inr h ↦ rw h tt
]

strip_prefix-Taken : (t : ℕ) (token s : Text) → Taken (length s) (strip_prefix (t ∷ token) s)
unfolding strip_prefix
strip_prefix-Taken t token [] = tt
strip_prefix-Taken t token (c ∷ s) = elim (Bool-cases (c == t)) [
  | inl h ↦ rw h (strip_prefix-length token s)
  | inr h ↦ rw h tt
]

pub rx_consume-Taken : (t : ℕ) (token s : Text) → Taken (length s) (rx_consume (t ∷ token) s)
unfolding rx_consume
rx_consume-Taken t token s =
    Taken-mono (length (rx_skip_space s)) (length s) (strip_prefix (t ∷ token) (rx_skip_space s))
      (length-skip_space s) (strip_prefix-Taken t token (rx_skip_space s))

length-span : (test : ℕ → Bool) (s : Text) → length ((span test s).1) ≤ length s
unfolding span
length-span test [] = omega arith
length-span test (c ∷ s) = elim (Bool-cases (test c)) [
  | inl h ↦ let rest = length-span test s in rw h (omega arith)
  | inr h ↦ rw h (omega arith)
]

length-read_digits : (acc : ℕ) (s : Text) → length ((read_digits acc s).1) ≤ length s
unfolding read_digits
length-read_digits acc [] = omega arith
length-read_digits acc (c ∷ s) = elim (Bool-cases (is_digit c)) [
  | inl h ↦ let rest = length-read_digits (acc * 10 + (c - b'0')) s in rw h (omega arith)
  | inr h ↦ rw h (omega arith)
]

pub length-strtoll : (s : Text) → length ((strtoll s).1) ≤ length s
unfolding strtoll
length-strtoll [] = omega arith
length-strtoll (c ∷ s) = elim (Bool-cases (c == b'-' || c == b'+')) [
  | inl h ↦
      let rest = length-read_digits 0 s in
      rw h
        (elim (Bool-cases (c == b'-')) [ inl m ↦ rw m (omega arith) | inr m ↦ rw m (omega arith) ])
  | inr h ↦
      let rest = length-read_digits 0 (c ∷ s) in
      rw h (elim (Bool-cases (c == b'-')) [ inl m ↦ rw m rest | inr m ↦ rw m rest ])
]

named-Within : (names : Names) (s : Text) → Within (length s) (named names (ident_at s))
unfolding named ident_at
named-Within names [] = tt
named-Within names (c ∷ s) = elim (Bool-cases (is_ident_start c)) [
  | inl h ↦ let rest = length-span is_ident_char s in rw h (omega arith)
  | inr h ↦ rw h tt
]

pub Within-mono : (m n : ℕ) (p : Parsed) → m ≤ n → Within m p → Within n p
Within-mono m n (parsed e rest) h w = omega arith
Within-mono m n failed h w = tt
Within-mono m n out_of_fuel h w = absurd w

pub rx_parse_atom-Within : (names : Names) (s : Text) → Within (length s) (rx_parse_atom names s)
unfolding rx_parse_atom rx_parse_ident
rx_parse_atom-Within names s = elim (Bool-cases (starts_number s)) [
  | inl h ↦ rw h (length-strtoll s)
  | inr h ↦ rw h (
      Within-mono (length (rx_skip_space s)) (length s) (named names (ident_at (rx_skip_space s)))
        (length-skip_space s) (named-Within names (rx_skip_space s)))
]
