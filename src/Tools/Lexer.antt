-- ===== src/Tools/Lexer.antt =====
-- core/tools/dsl_lexer.c: the tokens of a program's text. A lexer holds the text from its position
-- on; the text behind the last token is the place of the next.
pub mod Progress
pub mod Feeds
use functional_c.Prelude.{
  ℕ, ◌+◌, ◌-◌, Bool, true, false, not, ◌&&◌, ◌||◌, Option, none, some, [], ◌∷◌, ltb, leb, ◌==◌,
  if◌then◌else◌, length,
}
use functional_c.Prelude.Text.{Text, codes}
use functional_c.Planner.GraphOpt.Parse.{span}

pub data TokenKind : Type 0 where
  ident number comment lparen rparen lbrace rbrace comma dot semi equal arrow eof : TokenKind

pub record Token : Type 0 where
  pub kind : TokenKind
  pub text : Text
  pub start : ℕ
  pub end : ℕ

-- `left` is `source + pos`.
pub record Lexer : Type 0 where
  pub left : Text
  pub pos : ℕ
  pub current : Token

-- The character classes of the C locale.
unfoldable pub isspace : ℕ → Bool
isspace ch = ch == b' ' || (leb 9 ch && leb ch 13)

unfoldable pub isdigit : ℕ → Bool
isdigit ch = leb b'0' ch && leb ch b'9'

unfoldable pub isalpha : ℕ → Bool
isalpha ch = (leb b'A' ch && leb ch b'Z') || (leb b'a' ch && leb ch b'z')

-- The first character of an identifier, and the others.
unfoldable pub starts_word : ℕ → Bool
unfolding isalpha
starts_word ch = isalpha ch || ch == b'_'

unfoldable pub is_word : ℕ → Bool
unfolding starts_word isdigit
is_word ch = starts_word ch || isdigit ch

unfoldable pub heads : ℕ → Text → Bool
heads ch [] = false
heads ch (d ∷ s) = d == ch

-- The flag says that the place is inside a comment. The newline at its end is a space, and is
-- skipped with the spaces.
unfoldable pub skip_ws : Bool → Text → Text
unfolding isspace heads
skip_ws in_comment [] = []
skip_ws true (ch ∷ s) = skip_ws (not (ch == 10)) s
skip_ws false (ch ∷ s) =
    let opens = ch == b'/' && heads b'/' s in
    let rest = skip_ws opens s in if isspace ch || opens then rest else ch ∷ s

unfoldable pub symbol : ℕ → TokenKind
symbol ch =
    if ch == b'('
    then lparen
    else if ch == b')'
    then rparen
    else if ch == b'{'
    then lbrace
    else if ch == b'}'
    then rbrace
    else if ch == b','
    then comma
    else if ch == b'.'
    then dot
    else if ch == b';'
    then semi
    else if ch == b'='
    then equal
    else eof

-- The kind and the text of a token, and what follows it.
abbrev pub Scanned : Type 0
Scanned = TokenKind × Text × Text

-- `none` is a text that does not fit into `text[64]` with its zero byte: the copy writes past it.
unfoldable pub copy_text : TokenKind → Text → Text → Option Scanned
copy_text kind text rest = if ltb (length text) 64 then some (kind, text, rest) else none

tail : Text → Text
tail [] = []
tail (ch ∷ s) = s

-- The token at the front of a text that begins with no space.
unfoldable pub scan_token : Text → Option Scanned
unfolding starts_word is_word isdigit heads symbol copy_text tail
scan_token [] = some (eof, codes "<eof>", [])
scan_token (ch ∷ s) =
    let (word, behind_word) = span is_word s in
    let (digits, behind_digits) = span isdigit s in
    if starts_word ch
    then copy_text ident (ch ∷ word) behind_word
    else if isdigit ch
    then copy_text number (ch ∷ digits) behind_digits
    else if ch == b'=' && heads b'>' s
    then some (arrow, codes "=>", tail s)
    else some (symbol ch, ch ∷ [], s)

-- The lexer behind a token that was scanned from `s`, which stands at `start`.
unfoldable pub moved : ℕ → Text → Option Scanned → Option Lexer
moved start s none = none
moved start s (some (kind, text, rest)) =
    let end = start + (length s - length rest) in
    some (record {
      left = rest;
      pos = end;
      current = record { kind = kind; text = text; start = start; end = end };
    })

unfoldable pub lexer_next : Lexer → Option Lexer
unfolding moved
lexer_next lexer =
    let s = skip_ws false lexer.left in
    moved (lexer.pos + (length lexer.left - length s)) s (scan_token s)

-- `lexer_init`: the token that stands before the first one is never read.
unfoldable pub lexer_init : Text → Option Lexer
lexer_init source = lexer_next (record {
  left = source;
  pos = 0;
  current = record { kind = eof; text = []; start = 0; end = 0 };
})
