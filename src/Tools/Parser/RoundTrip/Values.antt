-- ===== src/Tools/Parser/RoundTrip/Values.antt =====
-- core/tools/dsl_parser.c: the values of sources and operators, as tokens.
use functional_c.Prelude.{◌<◌, ◌≡◌, refl, false, [], ◌∷◌, arith, length, Bool-cases, inl, inr}
use functional_c.Prelude.Text.{Text}
use functional_c.Tools.Lexer.{rparen, isdigit}
use functional_c.Tools.Reader.{same_kind}
use functional_c.Tools.Reader.Reads.{IsValueKind}
use functional_c.Tools.Parser.Printer.{value_kind, IsValue}

pub value_kind-IsValueKind : (v : Text) → IsValueKind (value_kind v)
unfolding same_kind
value_kind-IsValueKind [] = refl
value_kind-IsValueKind (c ∷ s) = elim (Bool-cases (isdigit c)) [
  | inl h ↦ rw h refl
  | inr h ↦ rw h refl
]

pub value_kind-ne : (v : Text) → same_kind (value_kind v) rparen ≡ false
unfolding same_kind
value_kind-ne [] = refl
value_kind-ne (c ∷ s) = elim (Bool-cases (isdigit c)) [ inl h ↦ rw h refl | inr h ↦ rw h refl ]

pub IsValue-length : (v : Text) → IsValue v → length v < 64
IsValue-length [] h = absurd h
IsValue-length (c ∷ s) h = elim (Bool-cases (isdigit c)) [
  | inl d ↦ let h' = rw d at h in omega (arith, h'.2)
  | inr d ↦ let h' = rw d at h in omega (arith, h'.2)
]
