-- ===== src/Tools/Lexer/Progress.antt =====
-- core/tools/dsl_lexer.c: what a call of the lexer leaves of the text.
use functional_c.Prelude.{
  ℕ, suc, ◌+◌, ◌-◌, ◌≤◌, Bool, true, false, not, ◌&&◌, ◌||◌, Option, none, some, [], ◌∷◌, ◌==◌, ltb,
  Bool-cases, inl, inr, arith, length,
}
use functional_c.Prelude.Text.{Text}
use functional_c.Planner.GraphOpt.Parse.{span}
use functional_c.Tools.Lexer.{
  TokenKind, ident, number, eof, Lexer, isspace, isdigit, starts_word, is_word, heads, skip_ws,
  symbol, Scanned, copy_text, tail, scan_token, moved, lexer_next,
}

-- The characters that are left, and one more for a token that was read and not yet used.
abbrev pub present : TokenKind → ℕ
present eof = 0
present _ = 1

unfoldable pub left_over : Lexer → ℕ
left_over lexer = present lexer.current.kind + length lexer.left

pub length-skip_ws : (inside : Bool) (s : Text) → length (skip_ws inside s) ≤ length s
unfolding skip_ws
length-skip_ws true [] = omega arith
length-skip_ws false [] = omega arith
length-skip_ws true (c ∷ s) = omega (arith, length-skip_ws (not (c == 10)) s)
length-skip_ws false (c ∷ s) =
    let opens = c == b'/' && heads b'/' s in
    let rest = length-skip_ws opens s in
    elim (Bool-cases (isspace c || opens)) [
      | inl h ↦ rw h (omega arith)
      | inr h ↦ rw h (omega arith)
    ]

pub length-span : (test : ℕ → Bool) (s : Text) → length ((span test s).1) ≤ length s
unfolding span
length-span test [] = omega arith
length-span test (c ∷ s) = elim (Bool-cases (test c)) [
  | inl h ↦ let rest = length-span test s in rw h (omega arith)
  | inr h ↦ rw h (omega arith)
]

-- At most `n` characters and tokens are left behind a token.
abbrev Scans : ℕ → Option Scanned → Type 0
Scans n none = Unit
Scans n (some (kind, text, rest)) = present kind + length rest ≤ n

copy_text-Scans :
    (kind : TokenKind) (text rest : Text) (n : ℕ)
    → present kind + length rest ≤ n
    → Scans n (copy_text kind text rest)
unfolding copy_text
copy_text-Scans kind text rest n h = elim (Bool-cases (ltb (length text) 64)) [
  | inl fits ↦ rw fits h
  | inr long ↦ rw long tt
]

length-tail : (s : Text) → length (tail s) ≤ length s
unfolding tail
length-tail [] = omega arith
length-tail (c ∷ s) = omega arith

present-le : (kind : TokenKind) → present kind ≤ 1
present-le eof = omega arith
present-le _ = omega arith

scan_token-Scans : (s : Text) → Scans (length s) (scan_token s)
unfolding scan_token
scan_token-Scans [] = omega arith
scan_token-Scans (c ∷ s) = elim (Bool-cases (starts_word c)) [
  | inl h ↦ rw h (
      copy_text-Scans ident (c ∷ (span is_word s).0) ((span is_word s).1) (suc (length s))
        (omega (arith, length-span is_word s)))
  | inr h ↦ rw h (elim (Bool-cases (isdigit c)) [
    | inl d ↦ rw d (
        copy_text-Scans number (c ∷ (span isdigit s).0) ((span isdigit s).1) (suc (length s))
          (omega (arith, length-span isdigit s)))
    | inr d ↦ rw d (elim (Bool-cases (c == b'=' && heads b'>' s)) [
      | inl a ↦ rw a (omega (arith, length-tail s))
      | inr a ↦ rw a (omega (arith, present-le (symbol c)))
    ])
  ])
]

abbrev pub Leaves : ℕ → Option Lexer → Type 0
Leaves n none = Unit
Leaves n (some lexer) = left_over lexer ≤ n

moved-Leaves :
    (start n : ℕ) (s : Text) (o : Option Scanned) → Scans n o → Leaves n (moved start s o)
unfolding moved left_over
moved-Leaves start n s none h = tt
moved-Leaves start n s (some (kind, text, rest)) h = h

Leaves-mono : (m n : ℕ) (o : Option Lexer) → m ≤ n → Leaves m o → Leaves n o
Leaves-mono m n none h k = tt
Leaves-mono m n (some lexer) h k = omega arith

-- A call of the lexer uses up the current token, and leaves no more than the text behind it.
pub lexer_next-Leaves : (lexer : Lexer) → Leaves (length lexer.left) (lexer_next lexer)
unfolding lexer_next
lexer_next-Leaves lexer =
    let s = skip_ws false lexer.left in
    let start = lexer.pos + (length lexer.left - length s) in
    Leaves-mono (length s) (length lexer.left) (moved start s (scan_token s))
      (length-skip_ws false lexer.left)
      (moved-Leaves start (length s) s (scan_token s) (scan_token-Scans s))
