-- ===== src/Planner/GraphOpt/Extract.antt =====
-- core/planner/graph_opt.c: the text of a function is looked up in the source of the callers'
-- functions, and the expression that it returns is taken out of its body.
pub mod Trim
pub mod Returned
pub mod Call
mod Tests
use mathlib.Core.List.{reverse}
use functional_c.Prelude.{
  ℕ, zero, suc, ◌+◌, ◌-◌, Bool, true, false, not, ◌&&◌, ◌||◌, Option, none, some, List, [], ◌∷◌,
  ◌++◌, leb, ◌==◌, if◌then◌else◌, length, ◌>>=◌,
}
use functional_c.Prelude.Text.{Text, codes}
use functional_c.Planner.GraphOpt.{Expr}
use functional_c.Planner.GraphOpt.Parse.{
  is_ident_char, is_space, rx_skip_space, strip_prefix, span, Names, parse_expression,
}

-- `RxGraphFunction`; the name is the one that was looked up.
pub record GraphFunction : Type 0 where
  pub parameter_names : List Text
  pub body : Text

abbrev pub is_empty : Text → Bool
is_empty [] = true
is_empty (c ∷ s) = false

unfoldable pub trim_end : Text → Text
trim_end [] = []
trim_end (c ∷ s) = let rest = trim_end s in if is_space c && is_empty rest then [] else c ∷ rest

-- The range is given as a text.
unfoldable pub copy_trimmed_range : Text → Text
unfolding trim_end
copy_trimmed_range s = trim_end (rx_skip_space s)

-- `strchr`, and the text up to the character with the text from it on.
unfoldable pub strchr : ℕ → Text → Option (Text × Text)
strchr ch [] = none
strchr ch (c ∷ s) =
    let later = strchr ch s in
    if c == ch
    then some ([], c ∷ s)
    else elim later [ none ↦ none | some (before, at) ↦ some (c ∷ before, at) ]

-- `strstr`, with the text behind what was found.
unfoldable pub behind : Text → Text → Option Text
behind token [] = strip_prefix token []
behind token (c ∷ s) =
    let later = behind token s in
    elim (strip_prefix token (c ∷ s)) [ none ↦ later | some rest ↦ some rest ]

unfoldable pub begins_with : ℕ → Option Text → Bool
begins_with ch none = false
begins_with ch (some []) = false
begins_with ch (some (c ∷ s)) = c == ch

-- The loop, behind a character that is part of an identifier or not; no name is empty.
unfoldable pub find_from : Bool → Text → Text → Option Text
unfolding begins_with
find_from inside name [] = none
find_from inside name (c ∷ s) =
    let later = find_from (is_ident_char c) name s in
    if not inside && begins_with b'(' (strip_prefix name (c ∷ s)) then some (c ∷ s) else later

-- The text from the name on.
unfoldable pub find_function_name : Text → Text → Option Text
unfolding find_from
find_function_name source name = find_from false name source

nested : ℕ → ℕ → ℕ → ℕ → ℕ
nested opening closing depth c =
    if c == opening then depth + 1 else if c == closing then depth - 1 else depth

-- The text up to the bracket that closes `depth` open ones, and the text from it on.
unfoldable pub matching : (opening closing depth : ℕ) → Text → Option (Text × Text)
unfolding nested
matching opening closing depth [] = none
matching opening closing depth (c ∷ s) =
    let later = matching opening closing (nested opening closing depth c) s in
    if nested opening closing depth c == 0
    then some ([], c ∷ s)
    else elim later [ none ↦ none | some (inside, at) ↦ some (c ∷ inside, at) ]

-- The text split at every `ch`.
unfoldable pub pieces : ℕ → Text → List Text
pieces ch [] = [] ∷ []
pieces ch (c ∷ s) =
    let later = pieces ch s in
    if c == ch then [] ∷ later else elim later [ [] ↦ (c ∷ []) ∷ [] | p ∷ ps ↦ (c ∷ p) ∷ ps ]

skip_to_ident : Text → Text
skip_to_ident [] = []
skip_to_ident (c ∷ s) = if is_ident_char c then c ∷ s else skip_to_ident s

-- The last identifier of a declaration.
last_ident : Text → Text
unfolding skip_to_ident
last_ident decl =
    let (run, rest) = span is_ident_char (skip_to_ident (reverse decl)) in
    copy_trimmed_range (reverse run)

-- The declarations between the commas; one of nothing but spaces is skipped.
parameters : List Text → List Text
unfolding last_ident
parameters [] = []
parameters (decl ∷ decls) =
    let rest = parameters decls in
    if is_empty (rx_skip_space decl) then rest else last_ident (rx_skip_space decl) ∷ rest

-- More than four parameters are refused.
unfoldable pub parse_parameters : Text → Option (List Text)
unfolding parameters
parse_parameters s =
    let names = parameters (pieces b',' s) in if leb (length names) 4 then some names else none

abbrev tail : Text → Text
tail [] = []
tail (c ∷ s) = s

unfoldable pub try_extract_graph_function : Text → Text → Option GraphFunction
unfolding find_function_name parse_parameters
try_extract_graph_function source name = do
  at ← find_function_name source name
  params ← strchr b'(' at
  inside ← matching b'(' b')' 1 (tail params.1)
  names ← parse_parameters inside.0
  start ← strchr b'{' inside.1
  body ← matching b'{' b'}' 1 (tail start.1)
  some (record { parameter_names = names; body = copy_trimmed_range body.0 })

-- The spaces behind the cast.
skip_blanks : Text → Text
skip_blanks [] = []
skip_blanks (c ∷ s) = if c == b' ' || c == 9 then skip_blanks s else c ∷ s

-- `expr[strlen(expr) - 1] == ')'`, with the text before it.
unfoldable pub without_last : ℕ → Text → Option Text
without_last ch [] = none
without_last ch (c ∷ []) = if c == ch then some [] else none
without_last ch (c ∷ d ∷ s) = elim (without_last ch (d ∷ s)) [
  | none ↦ none
  | some rest ↦ some (c ∷ rest)
]

-- Behind the cast and its spaces: a bracket before it and one at the end are taken off.
unwrapped : Text → Text
unfolding without_last
unwrapped [] = copy_trimmed_range []
unwrapped (c ∷ s) =
    let whole = copy_trimmed_range (c ∷ s) in
    let inner = without_last b')' s in
    if c == b'(' then elim inner [ none ↦ whole | some e ↦ copy_trimmed_range e ] else whole

unfoldable pub strip_return_wrapper : Text → Text
unfolding unwrapped skip_blanks
strip_return_wrapper expr = elim (strip_prefix (codes "(void *)(intptr_t)") expr) [
  | none ↦ copy_trimmed_range expr
  | some rest ↦ unwrapped (skip_blanks rest)
]

-- The alias of a declaration `intptr_t NAME = (intptr_t)TARGET`; another declaration makes none.
alias_in : Text → Option (Text × Text)
alias_in decl = do
  at ← strchr b'=' decl
  target ← behind (codes "(intptr_t)") (copy_trimmed_range (tail at.1))
  some (copy_trimmed_range at.0, copy_trimmed_range target)

-- What a statement, trimmed, is to the loop.
pub data Statement : Type 0 where
  returns : Text → Statement
  declares : Option (Text × Text) → Statement
  skipped refused : Statement

unfoldable pub statement : Text → Statement
unfolding alias_in strip_return_wrapper
statement [] = skipped
statement (c ∷ s) = elim (strip_prefix (codes "return ") (c ∷ s)) [
  | some expr ↦ returns (strip_return_wrapper expr)
  | none ↦ elim (strip_prefix (codes "intptr_t ") (c ∷ s)) [
    | some decl ↦ declares (alias_in decl)
    | none ↦ refused
  ]
]

abbrev with_alias :
    Option (Text × Text) → Option (List (Text × Text) × Text) → Option (List (Text × Text) × Text)
with_alias (some alias) (some (aliases, expr)) = some (alias ∷ aliases, expr)
with_alias _ found = found

abbrev continue_with :
    Statement → Option (List (Text × Text) × Text) → Option (List (Text × Text) × Text)
continue_with (returns expr) rest = some ([], expr)
continue_with (declares alias) rest = with_alias alias rest
continue_with skipped rest = rest
continue_with refused rest = none

-- The loop over the statements: the aliases and the text of the expression.
unfoldable pub returned : List Text → Option (List (Text × Text) × Text)
unfolding statement
returned [] = none
returned (s ∷ ss) = let rest = returned ss in continue_with (statement (copy_trimmed_range s)) rest

-- The arrays `aliases` and `alias_targets` have 8 places, and the source does not look at the count.
-- With more the source writes behind them, which has no result in C: `none` here.
unfoldable pub stored : Option (List (Text × Text) × Text) → Option (List (Text × Text) × Text)
stored none = none
stored (some (aliases, expr)) = if leb (length aliases) 8 then some (aliases, expr) else none

unfoldable pub rx_extract_return_expression : GraphFunction → Option (List (Text × Text) × Text)
unfolding returned pieces stored
rx_extract_return_expression function = stored (returned (pieces b';' function.body))

-- `params` are the parameters' names with the arguments. There is room for 4 of them; the callers
-- pass two at most, and more have no result here either.
unfoldable pub try_parse_function_expression : Text → Option Text → List (Text × Expr) → Option Expr
unfolding try_extract_graph_function rx_extract_return_expression parse_expression
try_parse_function_expression source none params = none
try_parse_function_expression source (some name) params = do
  function ← try_extract_graph_function source name
  found ← rx_extract_return_expression function
  if leb (length params) 4
      then parse_expression (record { params = params; aliases = found.0 }) found.1
      else none
