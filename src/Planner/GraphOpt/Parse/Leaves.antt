-- ===== src/Planner/GraphOpt/Parse/Leaves.antt =====
-- core/planner/graph_opt.c: a constant and a variable that were emitted are parsed back.
use functional_c.Prelude.{
  ℕ, suc, ◌≡◌, refl, ap, sym, ◌∙◌, Bool, true, false, not, none, [], ◌∷◌, ◌++◌, ◌==◌, arith,
}
use functional_c.Prelude.Text.{Text, Every}
use functional_c.Prelude.Int.{ℤ, pos, negsuc}
use functional_c.Planner.GraphOpt.{const}
use functional_c.Planner.GraphOpt.Parse.{
  is_ident_start, is_ident_char, is_digit, is_space, rx_skip_space, rx_consume, strip_prefix, span,
  ident_at, rx_parse_ident, starts_digit, starts_number, Names, resolve, parsed, Reader, named,
  rx_parse_atom, rx_parse_primary, print_int,
}
use functional_c.Planner.GraphOpt.Parse.Decimal.{InRange, strtoll-print_int, digits-head}

-- An identifier of C.
abbrev pub IsName : Text → Type 0
IsName [] = ⊥
IsName (c ∷ s) = (is_ident_start c ≡ true) × Every is_ident_char s

-- No identifier and no number goes on here.
abbrev pub ends : Text → Bool
ends [] = true
ends (c ∷ s) = not (is_ident_char c)

ends-starts_digit : (s : Text) → ends s ≡ true → starts_digit s ≡ false
unfolding starts_digit is_ident_char
ends-starts_digit [] h = refl
ends-starts_digit (c ∷ s) h = ground arith

span-name :
    (s rest : Text)
    → Every is_ident_char s
    → ends rest ≡ true
    → span is_ident_char (s ++ rest) ≡ (s, rest)
unfolding span
span-name [] [] a h = refl
span-name [] (c ∷ rest) a h = let stop : is_ident_char c ≡ false = ground arith in rw stop refl
span-name (c ∷ s) rest a h = rw (a.0, span) (rw (span-name s rest a.1 h) refl)

rx_skip_space-plain : (c : ℕ) (s : Text) → is_space c ≡ false → rx_skip_space (c ∷ s) ≡ c ∷ s
unfolding rx_skip_space
rx_skip_space-plain c s h = rw h refl

no_bracket :
    (c : ℕ) (s : Text)
    → is_space c ≡ false
    → (c == b'(') ≡ false
    → rx_consume (b'(' ∷ []) (c ∷ s) ≡ none
unfolding rx_consume strip_prefix
no_bracket c s h k = rw (rx_skip_space-plain c s h) (rw k refl)

-- Where neither a space nor a bracket stands, an atom is read.
rx_parse_primary-atom :
    (names : Names) (inner : Reader) (c : ℕ) (s : Text)
    → is_space c ≡ false
    → (c == b'(') ≡ false
    → rx_parse_primary names inner (c ∷ s) ≡ rx_parse_atom names (c ∷ s)
unfolding rx_parse_primary
rx_parse_primary-atom names inner c s h k =
    rw (rx_skip_space-plain c s h) (rw (no_bracket c s h k) refl)

rx_parse_atom-name :
    (names : Names) (x rest : Text)
    → IsName x
    → ends rest ≡ true
    → rx_parse_atom names (x ++ rest) ≡ parsed (resolve names x) rest
unfolding rx_parse_atom starts_number rx_parse_ident ident_at named rx_skip_space
rx_parse_atom-name names [] rest h k = absurd h
rx_parse_atom-name names (c ∷ s) rest h k =
    let no_space : is_space c ≡ false = unfold is_space is_ident_start in ground arith in
    let number : starts_number (c ∷ s ++ rest) ≡ false =
      unfold starts_number is_digit is_ident_start in ground arith in
    rw number (rw no_space (rw h.0 (rw (span-name s rest h.1 k) refl)))

-- A printed constant begins with a digit, or with a sign and a digit.
print_int-head :
    (c : ℤ) (rest : Text)
    → (h : ℕ) × (t : Text) × (print_int c ++ rest ≡ h ∷ t)
      × (is_space h ≡ false)
      × ((h == b'(') ≡ false)
      × (starts_number (h ∷ t) ≡ true)
unfolding print_int starts_number is_space is_digit starts_digit
print_int-head (pos n) rest =
    let (c, t, e, d) = digits-head n n [] in
    (c, t ++ rest, rw e refl, ground arith, ground arith, ground arith)
print_int-head (negsuc n) rest =
    let (c, t, e, d) = digits-head (suc n) (suc n) [] in
    (b'-', c ∷ t ++ rest, rw e refl, refl, refl, rw d refl)

rx_parse_atom-number :
    (names : Names) (c : ℤ) (rest : Text)
    → InRange c
    → ends rest ≡ true
    → starts_number (print_int c ++ rest) ≡ true
    → rx_parse_atom names (print_int c ++ rest) ≡ parsed (const c) rest
unfolding rx_parse_atom
rx_parse_atom-number names c rest h k n =
    rw n (rw (strtoll-print_int c rest h (ends-starts_digit rest k)) refl)

-- The leaves.
pub primary-const :
    (names : Names) (inner : Reader) (c : ℤ) (rest : Text)
    → InRange c
    → ends rest ≡ true
    → rx_parse_primary names inner (print_int c ++ rest) ≡ parsed (const c) rest
primary-const names inner c rest p k =
    let (d, t, e, space, bracket, number) = print_int-head c rest in
    ap (rx_parse_primary names inner) e
    ∙ rx_parse_primary-atom names inner d t space bracket
    ∙ ap (rx_parse_atom names) (sym e)
    ∙ rx_parse_atom-number names c rest p k (ap starts_number e ∙ number)

pub primary-var :
    (names : Names) (inner : Reader) (x rest : Text)
    → IsName x
    → ends rest ≡ true
    → rx_parse_primary names inner (x ++ rest) ≡ parsed (resolve names x) rest
primary-var names inner [] rest p k = absurd p
primary-var names inner (c ∷ s) rest p k =
    let space : is_space c ≡ false = unfold is_space is_ident_start in ground arith in
    let bracket : (c == b'(') ≡ false = unfold is_ident_start in ground arith in
    rx_parse_primary-atom names inner c (s ++ rest) space bracket
    ∙ rx_parse_atom-name names (c ∷ s) rest p k
