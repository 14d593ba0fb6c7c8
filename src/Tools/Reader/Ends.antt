-- ===== src/Tools/Reader/Ends.antt =====
-- core/tools/dsl_parser.c: what a parser leaves of the input, for the reads of one token.
use mathlib.Core.Path.{subst}
use functional_c.Prelude.{
  ℕ, suc, ◌+◌, ◌≤◌, ◌<◌, ◌≡◌, ◌≢◌, refl, Bool, true, false, ◌||◌, Option, none, some, ltb, ◌-◌,
  if◌then◌else◌, Bool-cases, inl, inr, arith, length,
}
use functional_c.Prelude.Text.{Text, same_text}
use functional_c.Tools.Lexer.{TokenKind, ident, number, rparen, eof, Lexer, lexer_next}
use functional_c.Tools.Lexer.Progress.{present, left_over, Leaves, lexer_next-Leaves}
use functional_c.Tools.Reader.{
  ParseError, Outcome, ok, failed, undefined, out_of_fuel, bind, Parser, pure, fail, same_kind,
  stepped, advance, accept, expect, copied, expect_ident, expect_value, unless_closed, keyword,
}

-- The run kept within its fuel, and `P` holds of its value if it has one.
pub data Ensures {A : Type 0} (P : A → Type 0) : Outcome A → Type 0 where
  holds : {a : A} → P a → Ensures P (ok a)
  rejects : {e : ParseError} → Ensures P (failed e)
  faults : Ensures P undefined

module _ {A : Type 0} {P : A → Type 0} where
  pub Ensures-ok : {r : Outcome A} {a : A} → Ensures P r → r ≡ ok a → P a
  Ensures-ok (holds h) e = subst P (cc) h
  Ensures-ok rejects e = cc
  Ensures-ok faults e = cc

  pub Ensures-fuel : {r : Outcome A} → Ensures P r → r ≢ out_of_fuel
  Ensures-fuel (holds h) = cc
  Ensures-fuel rejects = cc
  Ensures-fuel faults = cc

  pub Ensures-bind :
      {B : Type 0} {Q : B → Type 0} {r : Outcome A} {f : A → Outcome B}
      → Ensures P r
      → ((a : A) → P a → Ensures Q (f a))
      → Ensures Q (bind r f)
  Ensures-bind (holds {a} h) k = k a h
  Ensures-bind rejects k = rejects
  Ensures-bind faults k = faults

  pub Ensures-if :
      (b : Bool) {x y : Outcome A} → Ensures P x → Ensures P y → Ensures P (if b then x else y)
  Ensures-if true hx hy = hx
  Ensures-if false hx hy = hy

  pub Ensures-weaken :
      {Q : A → Type 0} {r : Outcome A} → ((a : A) → P a → Q a) → Ensures P r → Ensures Q r
  Ensures-weaken g (holds h) = holds (g _ h)
  Ensures-weaken g rejects = rejects
  Ensures-weaken g faults = faults

-- At most `n` characters and tokens are left.
abbrev pub Left : {A : Type 0} → ℕ → A × Lexer → Type 0
Left n (a, lexer) = left_over lexer ≤ n

-- The parser ends on every input with fewer than `n` characters, and leaves no more than it was given.
abbrev pub Ends : {A : Type 0} → ℕ → Parser A → Type 0
Ends n parse =
    (lexer : Lexer) → left_over lexer < n → Ensures (Left (left_over lexer)) (parse lexer)

-- Behind a read that took nothing off.
pub Left-mono :
    {A : Type 0} (m n : ℕ) {r : Outcome (A × Lexer)}
    → m ≤ n
    → Ensures (Left m) r
    → Ensures (Left n) r
Left-mono m n h = Ensures-weaken (λ p k. omega arith)

stepped-Left : (n : ℕ) (o : Option Lexer) → Leaves n o → Ensures (Left n) (stepped o)
unfolding stepped
stepped-Left n none h = faults
stepped-Left n (some lexer) h = holds h

length-left_over : (lexer : Lexer) → length lexer.left ≤ left_over lexer
unfolding left_over
length-left_over lexer = omega arith

left_over-token :
    (lexer : Lexer) → lexer.current.kind ≢ eof → suc (length lexer.left) ≡ left_over lexer
unfolding left_over
left_over-token lexer h = token lexer.current.kind (length lexer.left) h
  where
    token : (kind : TokenKind) (n : ℕ) → kind ≢ eof → suc n ≡ present kind + n
    token eof n h = absurd (h refl)
    token _ n h = omega arith

pub advance-Left : (lexer : Lexer) → Ensures (Left (length lexer.left)) (advance lexer)
unfolding advance
advance-Left lexer = stepped-Left (length lexer.left) (lexer_next lexer) (lexer_next-Leaves lexer)

pub advance-Ends : (n : ℕ) → Ends n advance
advance-Ends n lexer h =
    Left-mono (length lexer.left) (left_over lexer) (length-left_over lexer) (advance-Left lexer)

-- At most `n` are left, one of them less where the answer is true.
abbrev pub Taken : ℕ → Bool × Lexer → Type 0
Taken n (taken, lexer) = (if taken then 1 else 0) + left_over lexer ≤ n

same_kind→eq : (kind : TokenKind) → same_kind eof kind ≡ true → kind ≡ eof
unfolding same_kind
same_kind→eq eof h = refl
same_kind→eq ident h = cc
same_kind→eq _ h = cc

same_kind-ne : (here kind : TokenKind) → kind ≢ eof → same_kind here kind ≡ true → here ≢ eof
same_kind-ne here kind k h e = k (same_kind→eq kind (rw e at h))

-- A token of a kind other than the end's is used up where it is found.
pub accept-Taken :
    (kind : TokenKind)
    → kind ≢ eof
    → (lexer : Lexer) → Ensures (Taken (left_over lexer)) (accept kind lexer)
unfolding accept
accept-Taken kind k lexer = elim (Bool-cases (same_kind lexer.current.kind kind)) [
  | inl h ↦ rw h (
      Ensures-bind (advance-Left lexer) λ _ p.
        holds (omega (arith, left_over-token lexer (same_kind-ne lexer.current.kind kind k h))))
  | inr h ↦ rw h (holds (omega arith))
]

-- The least that a read of one token leaves.
abbrev pub Shorter : {A : Type 0} → ℕ → A × Lexer → Type 0
Shorter n (a, lexer) = suc (left_over lexer) ≤ n

pub Shorter→Left :
    {A : Type 0} (n : ℕ) {r : Outcome (A × Lexer)} → Ensures (Shorter n) r → Ensures (Left n) r
Shorter→Left n = Ensures-weaken (λ p k. omega arith)

pub expect-Shorter :
    (kind : TokenKind) (label : Text)
    → kind ≢ eof
    → (lexer : Lexer) → Ensures (Shorter (left_over lexer)) (expect kind label lexer)
unfolding expect
expect-Shorter kind label k lexer =
    Ensures-bind (accept-Taken kind k lexer) λ (taken, l) p. answered taken l p
  where
    answered :
        (taken : Bool) (l : Lexer)
        → Taken (left_over lexer) (taken, l)
        → Ensures
            (Shorter (left_over lexer))
            ((if taken then pure tt else fail (ParseError.expected label l.current.text)) l)
    answered true l p = holds {a = (tt, l)} (omega arith)
    answered false l p = rejects

copied-Left :
    (cleared : Bool) (size : ℕ) (text : Text) (lexer : Lexer)
    → Ensures (λ (out, l). l ≡ lexer) (copied cleared size text lexer)
unfolding copied
copied-Left cleared size text lexer = elim (Bool-cases (cleared || ltb (length text) (size - 1))) [
  | inl h ↦ rw h (holds refl)
  | inr h ↦ rw h faults
]

copy-Ends :
    (cleared : Bool) (size : ℕ) (text : Text) (lexer : Lexer)
    → Ensures
        (Left (left_over lexer))
        (bind (copied cleared size text lexer) λ (out, l). bind (advance l) λ (_, m). ok (out, m))
copy-Ends cleared size text lexer = Ensures-bind (copied-Left cleared size text lexer) λ (out, l) e.
    rw e (
      Ensures-bind
        (Left-mono (length lexer.left) (left_over lexer) (length-left_over lexer)
          (advance-Left lexer))
        λ _ p. holds p)

pub expect_ident-Ends : (cleared : Bool) (size n : ℕ) → Ends n (expect_ident cleared size)
unfolding expect_ident
expect_ident-Ends cleared size n lexer h = elim (Bool-cases (same_kind lexer.current.kind ident)) [
  | inl k ↦ rw k (copy-Ends cleared size lexer.current.text lexer)
  | inr k ↦ rw k rejects
]

pub expect_value-Ends : (size n : ℕ) → Ends n (expect_value size)
unfolding expect_value
expect_value-Ends size n lexer h =
    elim (Bool-cases (same_kind lexer.current.kind ident || same_kind lexer.current.kind number)) [
      | inl k ↦ rw k (copy-Ends true size lexer.current.text lexer)
      | inr k ↦ rw k rejects
    ]

pub keyword-Ends : (word : Text) (e : Text → ParseError) (n : ℕ) → Ends n (keyword word e)
unfolding keyword
keyword-Ends word e n lexer h = elim (Bool-cases (same_text lexer.current.text word)) [
  | inl k ↦ rw k (advance-Ends n lexer h)
  | inr k ↦ rw k rejects
]

-- Where an answer of true leaves less, what comes then may start from a smaller bound.
pub accept-Ends :
    {A : Type 0} (kind : TokenKind) (n : ℕ) (f : Bool → Parser A)
    → kind ≢ eof
    → Ends n (f true)
    → Ends (suc n) (f false)
    → (lexer : Lexer) → left_over lexer < suc n
    → Ensures (Left (left_over lexer)) (bind (accept kind lexer) λ (taken, l). f taken l)
accept-Ends kind n f k yes_branch no_branch lexer h =
    Ensures-bind (accept-Taken kind k lexer) λ (taken, l) p. go taken l p
  where
    go :
        (taken : Bool) (l : Lexer)
        → Taken (left_over lexer) (taken, l)
        → Ensures (Left (left_over lexer)) (f taken l)
    go true l p =
        Left-mono (left_over l) (left_over lexer) (omega arith) (yes_branch l (omega arith))
    go false l p =
        Left-mono (left_over l) (left_over lexer) (omega arith) (no_branch l (omega arith))

pub Ends-mono : {A : Type 0} {parse : Parser A} (m n : ℕ) → m ≤ n → Ends n parse → Ends m parse
Ends-mono m n le e lexer h = e lexer (omega arith)

pub unless_closed-Ends :
    {A : Type 0} (n : ℕ) (a : A) (loop : Parser A) → Ends n loop → Ends n (unless_closed a loop)
unfolding unless_closed
unless_closed-Ends n a loop e lexer h =
    Ensures-bind (accept-Taken rparen (cc) lexer) λ (closed, l) p. go closed l p
  where
    go :
        (closed : Bool) (l : Lexer)
        → Taken (left_over lexer) (closed, l)
        → Ensures (Left (left_over lexer)) ((if closed then pure a else loop) l)
    go true l p = holds {a = (a, l)} (omega arith)
    go false l p = Left-mono (left_over l) (left_over lexer) (omega arith) (e l (omega arith))
