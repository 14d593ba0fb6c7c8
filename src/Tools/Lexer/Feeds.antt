-- ===== src/Tools/Lexer/Feeds.antt =====
-- core/tools/dsl_lexer.c: a text made of tokens is read as these tokens.
use functional_c.Prelude.{
  ℕ, ◌+◌, ◌-◌, ◌<◌, ◌≡◌, refl, ◌∙◌, Bool, true, false, some, List, [], ◌∷◌, ◌++◌, ◌==◌, lt→ltb,
  arith, length,
}
use functional_c.Prelude.Text.{Text, codes, Every}
use functional_c.Planner.GraphOpt.Parse.{span}
use functional_c.Tools.Lexer.{
  TokenKind, ident, number, comment, lparen, rparen, lbrace, rbrace, comma, dot, semi, equal, arrow,
  eof, Lexer, isspace, isdigit, starts_word, is_word, skip_ws, Scanned, copy_text, scan_token,
  moved, lexer_next,
}

-- A token by its kind and its text.
abbrev pub Tok : Type 0
Tok = TokenKind × Text

-- The lexer stands at the first of these tokens, and the calls to come give the others and the end.
abbrev pub Feeds : Lexer → List Tok → Type 0
Feeds lexer [] = lexer.current.kind ≡ eof
Feeds lexer ((kind, text) ∷ toks) =
    (lexer.current.kind ≡ kind)
    × (lexer.current.text ≡ text)
    × ((next : Lexer) × (lexer_next lexer ≡ some next) × Feeds next toks)

-- An identifier and a number that fit into a token.
abbrev pub IsWord : Text → Type 0
IsWord [] = ⊥
IsWord (c ∷ s) = (starts_word c ≡ true) × Every is_word s × (length s < 63)

abbrev pub IsNumber : Text → Type 0
IsNumber [] = ⊥
IsNumber (c ∷ s) = (isdigit c ≡ true) × Every isdigit s × (length s < 63)

-- The text is one that a token of this kind has.
abbrev pub IsTok : TokenKind → Text → Type 0
IsTok ident text = IsWord text
IsTok number text = IsNumber text
IsTok comment text = ⊥
IsTok lparen text = text ≡ codes "("
IsTok rparen text = text ≡ codes ")"
IsTok lbrace text = text ≡ codes "{"
IsTok rbrace text = text ≡ codes "}"
IsTok comma text = text ≡ codes ","
IsTok dot text = text ≡ codes "."
IsTok semi text = text ≡ codes ";"
IsTok equal text = text ≡ codes "="
IsTok arrow text = text ≡ codes "=>"
IsTok eof text = ⊥

abbrev pub AllToks : List Tok → Type 0
AllToks [] = Unit
AllToks ((kind, text) ∷ toks) = IsTok kind text × AllToks toks

-- The texts of the tokens with a space behind each, and what follows them.
abbrev pub render : List Tok → Text → Text
render [] rest = rest
render ((kind, text) ∷ toks) rest = text ++ b' ' ∷ render toks rest

span-run :
    (test : ℕ → Bool) (s rest : Text)
    → Every test s
    → test b' ' ≡ false
    → span test (s ++ b' ' ∷ rest) ≡ (s, b' ' ∷ rest)
unfolding span
span-run test [] rest h stop = rw stop refl
span-run test (c ∷ s) rest h stop = rw (h.0, span) (rw (span-run test s rest h.1 stop) refl)

copy_text-fits :
    (kind : TokenKind) (text rest : Text)
    → length text < 64
    → copy_text kind text rest ≡ some (kind, text, rest)
unfolding copy_text
copy_text-fits kind text rest h = rw (lt→ltb (length text) 64 h) refl

scan_token-tok :
    (kind : TokenKind) (text rest : Text)
    → IsTok kind text
    → scan_token (text ++ b' ' ∷ rest) ≡ some (kind, text, b' ' ∷ rest)
unfolding scan_token
scan_token-tok ident [] rest h = absurd h
scan_token-tok ident (c ∷ s) rest (starts, others, short) =
    rw (starts, span-run is_word s rest others refl)
      (copy_text-fits ident (c ∷ s) (b' ' ∷ rest) (omega arith))
scan_token-tok number [] rest h = absurd h
scan_token-tok number (c ∷ s) rest (starts, others, short) =
    let word : starts_word c ≡ false = unfold starts_word isdigit in ground arith in
    rw (word, starts, span-run isdigit s rest others refl)
      (copy_text-fits number (c ∷ s) (b' ' ∷ rest) (omega arith))
scan_token-tok comment text rest h = absurd h
scan_token-tok lparen text rest h = rw h refl
scan_token-tok rparen text rest h = rw h refl
scan_token-tok lbrace text rest h = rw h refl
scan_token-tok rbrace text rest h = rw h refl
scan_token-tok comma text rest h = rw h refl
scan_token-tok dot text rest h = rw h refl
scan_token-tok semi text rest h = rw h refl
scan_token-tok equal text rest h = rw h refl
scan_token-tok arrow text rest h = rw h refl
scan_token-tok eof text rest h = absurd h

-- No spaces and no comment begin here.
skip_ws-plain :
    (c : ℕ) (s : Text) → isspace c ≡ false → (c == b'/') ≡ false → skip_ws false (c ∷ s) ≡ c ∷ s
unfolding skip_ws
skip_ws-plain c s h k = rw (h, k) refl

skip_ws-tok :
    (kind : TokenKind) (text rest : Text)
    → IsTok kind text
    → skip_ws false (text ++ rest) ≡ text ++ rest
unfolding skip_ws
skip_ws-tok ident [] rest h = absurd h
skip_ws-tok ident (c ∷ s) rest h =
    skip_ws-plain c (s ++ rest) (unfold isspace starts_word in ground arith)
      (unfold starts_word in ground arith)
skip_ws-tok number [] rest h = absurd h
skip_ws-tok number (c ∷ s) rest h =
    skip_ws-plain c (s ++ rest) (unfold isspace isdigit in ground arith)
      (unfold isdigit in ground arith)
skip_ws-tok comment text rest h = absurd h
skip_ws-tok lparen text rest h = rw h refl
skip_ws-tok rparen text rest h = rw h refl
skip_ws-tok lbrace text rest h = rw h refl
skip_ws-tok rbrace text rest h = rw h refl
skip_ws-tok comma text rest h = rw h refl
skip_ws-tok dot text rest h = rw h refl
skip_ws-tok semi text rest h = rw h refl
skip_ws-tok equal text rest h = rw h refl
skip_ws-tok arrow text rest h = rw h refl
skip_ws-tok eof text rest h = absurd h

-- The lexer takes this text for the end of the program.
abbrev pub IsEnd : Text → Type 0
IsEnd s = (text : Text) × (rest : Text) × (scan_token (skip_ws false s) ≡ some (eof, text, rest))

-- The lexer behind a token that was read from `s`.
abbrev behind : Lexer → Text → Scanned → Lexer
behind lexer s (kind, text, rest) =
    let start = lexer.pos + (length lexer.left - length s) in
    let end = start + (length s - length rest) in
    record {
      left = rest;
      pos = end;
      current = record { kind = kind; text = text; start = start; end = end };
    }

lexer_next-scan :
    (lexer : Lexer) (s : Text) (scanned : Scanned)
    → skip_ws false lexer.left ≡ s
    → scan_token s ≡ some scanned
    → lexer_next lexer ≡ some (behind lexer s scanned)
unfolding lexer_next moved
lexer_next-scan lexer s (kind, text, rest) e scan = rw (e, scan) refl

-- Where the tokens stand behind spaces, the next calls of the lexer give them one by one.
pub Feeds-render :
    (toks : List Tok) (rest : Text) (lexer : Lexer)
    → AllToks toks
    → IsEnd rest
    → skip_ws false lexer.left ≡ skip_ws false (render toks rest)
    → (next : Lexer) × (lexer_next lexer ≡ some next) × Feeds next toks
unfolding skip_ws
Feeds-render [] rest lexer all (text, rest', end) e =
    let s = skip_ws false rest in
    (behind lexer s (eof, text, rest'), lexer_next-scan lexer s (eof, text, rest') e end, refl)
Feeds-render ((kind, text) ∷ toks) rest lexer (here, all) end e =
    let s = text ++ b' ' ∷ render toks rest in
    let front = skip_ws-tok kind text (b' ' ∷ render toks rest) here in
    let scan = scan_token-tok kind text (render toks rest) here in
    let next = behind lexer s (kind, text, b' ' ∷ render toks rest) in
    (
      next,
      lexer_next-scan lexer s (kind, text, b' ' ∷ render toks rest) (e ∙ front) scan,
      (refl, refl, Feeds-render toks rest next all end refl),
    )
