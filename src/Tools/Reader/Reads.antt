-- ===== src/Tools/Reader/Reads.antt =====
-- core/tools/dsl_parser.c: the reads of one token, where the lexer gives known tokens.
use functional_c.Prelude.{
  ℕ, zero, suc, ◌-◌, ◌≤◌, ◌<◌, ◌≡◌, ◌≢◌, refl, ap, ◌∙◌, Bool, true, false, ◌||◌, List, [], ◌∷◌,
  lt→ltb, arith, length, take,
}
use functional_c.Prelude.Text.{Text, same_text}
use functional_c.Tools.Lexer.{TokenKind, ident, number, eof, Lexer}
use functional_c.Tools.Lexer.Feeds.{Tok, Feeds}
use functional_c.Tools.Reader.{
  ParseError, Outcome, ok, out_of_fuel, bind, same_kind, stepped, advance, accept, expect, copied,
  expect_ident, expect_value, keyword,
}

-- The parser returns `a` and leaves a lexer that gives `rest`, or it runs out of fuel.
pub data Reads {A : Type 0} (a : A) (rest : List Tok) : Outcome (A × Lexer) → Type 0 where
  dry : Reads a rest out_of_fuel
  gives : {l : Lexer} → Feeds l rest → Reads a rest (ok (a, l))

pub Reads-bind :
    {A B : Type 0} {a : A} {b : B} {rest end : List Tok} {r : Outcome (A × Lexer)}
    (f : A × Lexer → Outcome (B × Lexer))
    → Reads a rest r
    → ((l : Lexer) → Feeds l rest → Reads b end (f (a, l)))
    → Reads b end (bind r f)
Reads-bind f dry k = dry
Reads-bind f (gives {l} h) k = k l h

-- With fuel enough the value is read.
pub Reads-ok :
    {A : Type 0} {a : A} {rest : List Tok} {r : Outcome (A × Lexer)}
    → Reads a rest r
    → r ≢ out_of_fuel
    → (l : Lexer) × (r ≡ ok (a, l)) × Feeds l rest
Reads-ok dry h = absurd (h refl)
Reads-ok (gives {l} h) ne = (l, refl, h)

module _ (kind : TokenKind) (text : Text) (toks : List Tok) (lexer : Lexer)
    (h : Feeds lexer ((kind, text) ∷ toks)) where
  pub advance-Reads : Reads tt toks (advance lexer)
  unfolding advance stepped
  advance-Reads = let (next, e, later) = h.2 in rw e (gives later)

same_kind_self : (kind : TokenKind) → same_kind kind kind ≡ true
unfolding same_kind
same_kind_self ident = refl
same_kind_self _ = refl

pub same_text_self : (s : Text) → same_text s s ≡ true
same_text_self [] = refl
same_text_self (c ∷ s) = ground (arith, same_text_self s)

pub take-all : {A : Type 0} (n : ℕ) (s : List A) → length s ≤ n → take n s ≡ s
take-all zero [] h = refl
take-all zero (c ∷ s) h = absurd (omega arith)
take-all (suc n) [] h = refl
take-all (suc n) (c ∷ s) h = ap (◌∷◌ c) (take-all n s (omega arith))

module _ (kind : TokenKind) (text : Text) (toks : List Tok) (lexer : Lexer)
    (h : Feeds lexer ((kind, text) ∷ toks)) where
  pub accept-hit : Reads true toks (accept kind lexer)
  unfolding accept
  accept-hit =
      rw (ap (λ k. same_kind k kind) h.0 ∙ same_kind_self kind)
        (Reads-bind _ (advance-Reads kind text toks lexer h) λ l k. gives k)

  pub accept-miss :
      (other : TokenKind) → same_kind kind other ≡ false → accept other lexer ≡ ok (false, lexer)
  unfolding accept
  accept-miss other differ = rw (ap (λ k. same_kind k other) h.0 ∙ differ) refl

  pub expect-Reads : (label : Text) → Reads tt toks (expect kind label lexer)
  unfolding expect
  expect-Reads label = Reads-bind _ accept-hit λ l k. gives k

-- The text fits into the buffer, with an end.
abbrev pub Fits : Bool → ℕ → Text → Type 0
Fits true size text = length text ≤ size - 1
Fits false size text = length text < size - 1

copied-short :
    (cleared : Bool) (size : ℕ) (text : Text) (lexer : Lexer)
    → Fits cleared size text
    → copied cleared size text lexer ≡ ok (text, lexer)
unfolding copied
copied-short true size text lexer h = rw (take-all (size - 1) text h) refl
copied-short false size text lexer h =
    rw (lt→ltb (length text) (size - 1) h, take-all (size - 1) text (omega arith)) refl

-- The copy of the current token's text, and the call of the lexer behind it.
copy-Reads :
    (kind : TokenKind) (cleared : Bool) (size : ℕ) (text : Text) (toks : List Tok) (lexer : Lexer)
    → Feeds lexer ((kind, text) ∷ toks)
    → Fits cleared size text
    → Reads text toks (
        bind
          (copied cleared size lexer.current.text lexer)
          λ (out, l). bind (advance l) λ (_, m). ok (out, m))
copy-Reads kind cleared size text toks lexer h short =
    rw (ap (λ t. copied cleared size t lexer) h.1 ∙ copied-short cleared size text lexer short)
      (Reads-bind _ (advance-Reads kind text toks lexer h) λ l k. gives k)

pub expect_ident-Reads :
    (cleared : Bool) (size : ℕ) (text : Text) (toks : List Tok) (lexer : Lexer)
    → Feeds lexer ((ident, text) ∷ toks)
    → Fits cleared size text
    → Reads text toks (expect_ident cleared size lexer)
unfolding expect_ident
expect_ident-Reads cleared size text toks lexer h short =
    rw (ap (λ k. same_kind k ident) h.0 ∙ same_kind_self ident)
      (copy-Reads ident cleared size text toks lexer h short)

-- The kind of a value: an identifier, or a number.
abbrev pub IsValueKind : TokenKind → Type 0
IsValueKind kind = (same_kind kind ident || same_kind kind number) ≡ true

pub expect_value-Reads :
    (size : ℕ) (kind : TokenKind) (text : Text) (toks : List Tok) (lexer : Lexer)
    → Feeds lexer ((kind, text) ∷ toks)
    → IsValueKind kind
    → length text ≤ size - 1
    → Reads text toks (expect_value size lexer)
unfolding expect_value
expect_value-Reads size kind text toks lexer h value short =
    rw (ap (λ k. same_kind k ident || same_kind k number) h.0 ∙ value)
      (copy-Reads kind true size text toks lexer h short)

pub keyword-Reads :
    (kind : TokenKind) (word : Text) (e : Text → ParseError) (toks : List Tok) (lexer : Lexer)
    → Feeds lexer ((kind, word) ∷ toks)
    → Reads tt toks (keyword word e lexer)
unfolding keyword
keyword-Reads kind word e toks lexer h =
    rw (ap (λ t. same_text t word) h.1 ∙ same_text_self word) (advance-Reads kind word toks lexer h)

-- The kind of the next token.
abbrev pub head_kind : List Tok → TokenKind
head_kind [] = eof
head_kind ((kind, text) ∷ toks) = kind

pub accept-other :
    (kind : TokenKind) (toks : List Tok) (lexer : Lexer)
    → Feeds lexer toks
    → same_kind (head_kind toks) kind ≡ false
    → accept kind lexer ≡ ok (false, lexer)
unfolding accept
accept-other kind [] lexer h differ = rw (ap (λ k. same_kind k kind) h ∙ differ) refl
accept-other kind ((here, text) ∷ toks) lexer h differ =
    accept-miss here text toks lexer h kind differ
