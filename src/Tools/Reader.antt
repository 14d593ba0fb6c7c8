-- ===== src/Tools/Reader.antt =====
-- core/tools/dsl_parser.c: the outcome of a parser, and the reads of one token. A parser takes the
-- lexer and returns what it read with the lexer behind it.
pub mod Ends
pub mod Reads
use functional_c.Prelude.{
  ℕ, ◌-◌, Bool, true, false, ◌||◌, Option, none, some, ltb, ◌==◌, if◌then◌else◌, length, take,
}
use functional_c.Prelude.Text.{Text, same_text}
use functional_c.Tools.Lexer.{
  TokenKind, ident, number, comment, lparen, rparen, lbrace, rbrace, comma, dot, semi, equal, arrow,
  eof, Lexer, lexer_next,
}

-- What is printed behind "parse error: ". The limits on the number of arguments, parameters and
-- values are reached in silence.
pub data ParseError : Type 0 where
  expected : Text → Text → ParseError
  expected_identifier expected_value unsupported_expression : Text → ParseError
  unsupported_source unsupported_operator : Text → ParseError
  expected_return expected_subscribe : Text → ParseError
  other_parameter too_many : ParseError

-- `undefined` is a write past the end of a buffer, or a read of bytes that were never written;
-- `out_of_fuel` has no counterpart in the program.
pub data Outcome (A : Type 0) : Type 0 where
  ok : A → Outcome A
  failed : ParseError → Outcome A
  undefined out_of_fuel : Outcome A

abbrev pub bind : {A B : Type 0} → Outcome A → (A → Outcome B) → Outcome B
bind (ok a) f = f a
bind (failed e) f = failed e
bind undefined f = undefined
bind out_of_fuel f = out_of_fuel

abbrev pub Parser : Type 0 → Type 0
Parser A = Lexer → Outcome (A × Lexer)

abbrev pub pure : {A : Type 0} → A → Parser A
pure a lexer = ok (a, lexer)

abbrev pub fail : {A : Type 0} → ParseError → Parser A
fail e lexer = failed e

infixl 1 ◌>>=◌ ◌>>◌
abbrev pub ◌>>=◌ : {A B : Type 0} → Parser A → (A → Parser B) → Parser B
p >>= f = λ lexer. bind (p lexer) λ (a, rest). f a rest

abbrev pub ◌>>◌ : {A B : Type 0} → Parser A → Parser B → Parser B
p >> q = p >>= λ _. q

-- The kind and the text of the current token.
abbrev pub current_kind : Parser TokenKind
current_kind lexer = ok (lexer.current.kind, lexer)

abbrev pub current_text : Parser Text
current_text lexer = ok (lexer.current.text, lexer)

-- The enumerator's value.
unfoldable pub kind_number : TokenKind → ℕ
kind_number ident = 0
kind_number number = 1
kind_number comment = 2
kind_number lparen = 3
kind_number rparen = 4
kind_number lbrace = 5
kind_number rbrace = 6
kind_number comma = 7
kind_number dot = 8
kind_number semi = 9
kind_number equal = 10
kind_number arrow = 11
kind_number eof = 12

unfoldable pub same_kind : TokenKind → TokenKind → Bool
unfolding kind_number
same_kind a b = kind_number a == kind_number b

stepped : Option Lexer → Outcome (Unit {0} × Lexer)
stepped none = undefined
stepped (some lexer) = ok (tt, lexer)

-- A call of `lexer_next`.
unfoldable pub advance : Parser (Unit {0})
unfolding stepped
advance lexer = stepped (lexer_next lexer)

unfoldable pub accept : TokenKind → Parser Bool
unfolding same_kind
accept kind = do
  here ← current_kind
  if same_kind here kind then advance >> pure true else pure false

unfoldable pub expect : TokenKind → Text → Parser (Unit {0})
expect kind label = do
  taken ← accept kind
  text ← current_text
  if taken then pure tt else fail (expected label text)

-- `strncpy` of a token's text into a buffer of the given size, all but the last byte. Where the
-- buffer was cleared before, its last byte ends the text. Where it was not, a text that fills it
-- has no end.
unfoldable pub copied : Bool → ℕ → Text → Parser Text
copied cleared size text =
    if cleared || ltb (length text) (size - 1) then pure (take (size - 1) text) else λ _. undefined

unfoldable pub expect_ident : Bool → ℕ → Parser Text
unfolding same_kind copied
expect_ident cleared size = do
  kind ← current_kind
  text ← current_text
  if same_kind kind ident
      then (do out ← copied cleared size text; advance; pure out)
      else fail (expected_identifier text)

-- Every buffer that a value goes to was cleared.
unfoldable pub expect_value : ℕ → Parser Text
unfolding same_kind copied
expect_value size = do
  kind ← current_kind
  text ← current_text
  if same_kind kind ident || same_kind kind number
      then (do out ← copied true size text; advance; pure out)
      else fail (expected_value text)

-- `accept(parser, TOK_RPAREN)`, or else the loop.
unfoldable pub unless_closed : {A : Type 0} → A → Parser A → Parser A
unless_closed none_read loop = do closed ← accept rparen; if closed then pure none_read else loop

-- A word that is compared with no look at the token's kind.
unfoldable pub keyword : Text → (Text → ParseError) → Parser (Unit {0})
keyword word e = do text ← current_text; if same_text text word then advance else fail (e text)
