-- ===== src/Planner/GraphOpt/Parse.antt =====
-- core/planner/graph_opt.c: the parser of the expressions in the callers' functions, which puts the
-- arguments of the call in place of the parameters, and the emission of an expression as C text.
-- A text is a `const char *` up to its end; the cursor is the text that is left.
pub mod Decimal
pub mod Lengths
pub mod Total
pub mod Leaves
pub mod RoundTrip
pub mod Inline
mod Tests
use functional_c.Prelude.{
  ℕ, zero, suc, ◌+◌, ◌-◌, ◌*◌, ◌/◌, ◌%◌, ◌^◌, Bool, true, false, ◌&&◌, ◌||◌, Option, none, some,
  List, [], ◌∷◌, ◌++◌, ltb, leb, ◌==◌, if◌then◌else◌, length,
}
use functional_c.Prelude.Text.{Text, same_text}
use functional_c.Prelude.Int.{ℤ, pos, negsuc}
use functional_c.Planner.GraphOpt.{
  Kind, add, sub, mul, div, lt, eq, Expr, const, var, node, neg, rx_simplify_expr,
}

unfoldable pub is_ident_start : ℕ → Bool
is_ident_start ch = (leb b'A' ch && leb ch b'Z') || ((leb b'a' ch && leb ch b'z') || ch == b'_')

unfoldable pub is_digit : ℕ → Bool
is_digit ch = leb b'0' ch && leb ch b'9'

unfoldable pub is_ident_char : ℕ → Bool
unfolding is_ident_start is_digit
is_ident_char ch = is_ident_start ch || is_digit ch

unfoldable pub is_space : ℕ → Bool
is_space ch = ch == b' ' || (ch == 9 || (ch == 13 || ch == 10))

unfoldable pub rx_skip_space : Text → Text
unfolding is_space
rx_skip_space [] = []
rx_skip_space (ch ∷ s) = if is_space ch then rx_skip_space s else ch ∷ s

-- `strncmp(cursor, token, strlen(token)) == 0`, with the text behind the token.
unfoldable pub strip_prefix : Text → Text → Option Text
strip_prefix [] s = some s
strip_prefix (t ∷ token) [] = none
strip_prefix (t ∷ token) (ch ∷ s) = if ch == t then strip_prefix token s else none

-- The text behind the token. Where there is none the cursor stands behind the spaces, and each
-- caller goes on from `rx_skip_space s`.
unfoldable pub rx_consume : Text → Text → Option Text
unfolding rx_skip_space strip_prefix
rx_consume token s = strip_prefix token (rx_skip_space s)

-- The longest run of characters that pass the test, and the rest.
unfoldable pub span : (ℕ → Bool) → Text → Text × Text
span test [] = ([], [])
span test (ch ∷ s) =
    let (run, rest) = span test s in if test ch then (ch ∷ run, rest) else ([], ch ∷ s)

ident_at : Text → Option (Text × Text)
ident_at [] = none
ident_at (ch ∷ s) =
    let (run, rest) = span is_ident_char s in
    if is_ident_start ch then some (ch ∷ run, rest) else none

unfoldable pub rx_parse_ident : Text → Option (Text × Text)
unfolding ident_at is_ident_start is_ident_char span rx_skip_space
rx_parse_ident s = ident_at (rx_skip_space s)

-- `strtoll(..., 10)` where a digit, or a sign and a digit, is known to stand: the value, held to the
-- range of a `long long`, and the text behind the digits.
unfoldable pub read_digits : ℕ → Text → ℕ × Text
read_digits acc [] = (acc, [])
read_digits acc (ch ∷ s) =
    if is_digit ch then read_digits (acc * 10 + (ch - b'0')) s else (acc, ch ∷ s)

abbrev pub max_long : ℕ
max_long = 2 ^ 63 - 1

clamp_to : ℕ → ℕ → ℕ
clamp_to limit n = if ltb limit n then limit else n

unfoldable pub strtoll : Text → ℤ × Text
unfolding read_digits clamp_to is_digit
strtoll [] = (pos 0, [])
strtoll (ch ∷ s) =
    let (n, rest) = read_digits 0 (if ch == b'-' || ch == b'+' then s else ch ∷ s) in
    if ch == b'-'
    then (neg (clamp_to (max_long + 1) n), rest)
    else (pos (clamp_to max_long n), rest)

unfoldable pub starts_digit : Text → Bool
unfolding is_digit
starts_digit [] = false
starts_digit (ch ∷ s) = is_digit ch

unfoldable pub starts_number : Text → Bool
unfolding starts_digit is_digit
starts_number [] = false
starts_number (ch ∷ s) = is_digit ch || ((ch == b'-' || ch == b'+') && starts_digit s)

-- The names of an `RxExprParser`: the parameters with the arguments in their place, and the aliases
-- with their targets.
pub record Names : Type 0 where
  pub params : List (Text × Expr)
  pub aliases : List (Text × Text)

unfoldable pub unalias : List (Text × Text) → Text → Text
unalias [] ident = ident
unalias ((alias, target) ∷ rest) ident =
    if same_text ident alias then target else unalias rest ident

unfoldable pub argument_for : List (Text × Expr) → Text → Expr
argument_for [] ident = var ident
argument_for ((param, arg) ∷ rest) ident =
    if same_text ident param then arg else argument_for rest ident

-- What an identifier stands for.
unfoldable pub resolve : Names → Text → Expr
unfolding unalias argument_for
resolve names ident = argument_for names.params (unalias names.aliases ident)

-- A parsed expression with the text that is left; NULL is `failed`.
pub data Parsed : Type 0 where
  parsed : Expr → Text → Parsed
  failed out_of_fuel : Parsed

abbrev pub then_parse : Parsed → (Expr → Text → Parsed) → Parsed
then_parse (parsed e rest) k = k e rest
then_parse failed k = failed
then_parse out_of_fuel k = out_of_fuel

-- A `Reader` parses from a cursor.
abbrev pub Reader : Type 0
Reader = Text → Parsed

unfoldable pub closed_by : Expr → Option Text → Parsed
closed_by e none = failed
closed_by e (some rest) = parsed e rest

named : Names → Option (Text × Text) → Parsed
named names none = failed
named names (some (ident, rest)) = parsed (resolve names ident) rest

-- The branches behind "(": a number, or a name.
unfoldable pub rx_parse_atom : Names → Text → Parsed
unfolding named
rx_parse_atom names s =
    let (value, rest) = strtoll s in
    if starts_number s then parsed (const value) rest else named names (rx_parse_ident s)

-- Behind an opening bracket, or where none was found.
primary_at : Names → Reader → Text → Option Text → Parsed
unfolding closed_by
primary_at names inner s none = rx_parse_atom names s
primary_at names inner s (some r) =
    then_parse (inner r) (λ e rest. closed_by e (rx_consume (b')' ∷ []) rest))

unfoldable pub rx_parse_primary : Names → Reader → Reader
unfolding primary_at
rx_parse_primary names inner s =
    primary_at names inner (rx_skip_space s) (rx_consume (b'(' ∷ []) (rx_skip_space s))

-- Behind an operator another operand is read and the parser goes on with `next`; where the operator
-- was not found the result is `otherwise`.
joined : Kind → Reader → Expr → (Expr → Reader) → Parsed → Option Text → Parsed
joined k operand e next otherwise none = otherwise
joined k operand e next otherwise (some r) =
    then_parse (operand r) (λ rhs rest. next (node k e rhs) rest)

-- The loop of `rx_parse_mul`, and of `rx_parse_add`: operands joined by one of two operators, the
-- left ones first.
unfoldable pub operands : (first second : ℕ) → Kind → Kind → ℕ → Reader → Expr → Reader
unfolding joined
operands first second k l zero operand e s = out_of_fuel
operands first second k l (suc fuel) operand e s =
    joined k operand e (operands first second k l fuel operand)
      (joined l operand e (operands first second k l fuel operand) (parsed e (rx_skip_space s))
        (rx_consume (second ∷ []) (rx_skip_space s)))
      (rx_consume (first ∷ []) s)

unfoldable pub rx_parse_mul : ℕ → Reader → Reader
rx_parse_mul fuel primary s =
    then_parse (primary s) (λ e rest. operands b'*' b'/' mul div fuel primary e rest)

unfoldable pub rx_parse_add : ℕ → Reader → Reader
rx_parse_add fuel multiplied s =
    then_parse (multiplied s) (λ e rest. operands b'+' b'-' add sub fuel multiplied e rest)

-- "==" and "<" stand once at most.
unfoldable pub compared : Reader → Expr → Reader
unfolding joined
compared operand e s =
    joined eq operand e parsed
      (joined lt operand e parsed (parsed e (rx_skip_space s))
        (rx_consume (b'<' ∷ []) (rx_skip_space s)))
      (rx_consume (b'=' ∷ b'=' ∷ []) s)

-- The recursion through the brackets, and each loop in it, on fuel.
unfoldable pub rx_parse_expr_cmp : ℕ → Names → Reader
rx_parse_expr_cmp zero names s = out_of_fuel
rx_parse_expr_cmp (suc fuel) names s =
    let sum =
      rx_parse_add fuel
        (rx_parse_mul fuel (rx_parse_primary names (rx_parse_expr_cmp fuel names))) in
    then_parse (sum s) (λ e rest. compared sum e rest)

at_end : Expr → Text → Option Expr
at_end e [] = some (rx_simplify_expr e)
at_end e (ch ∷ s) = none

whole_text : Parsed → Option Expr
unfolding at_end
whole_text (parsed e rest) = at_end e (rx_skip_space rest)
whole_text failed = none
whole_text out_of_fuel = none

-- The part of `try_parse_function_expression` behind the extraction of the expression's text: the
-- whole text must be one expression, which is then simplified.
unfoldable pub parse_expression : Names → Text → Option Expr
unfolding whole_text
parse_expression names text = whole_text (rx_parse_expr_cmp (suc (suc (length text))) names text)

-- `rx_emit_expr`, with `printf`'s "%" PRIdPTR for a constant.
unfoldable pub digits : ℕ → ℕ → Text → Text
digits zero n out = (b'0' + n % 10) ∷ out
digits (suc fuel) n out =
    let more = digits fuel (n / 10) ((b'0' + n % 10) ∷ out) in
    if ltb n 10 then (b'0' + n) ∷ out else more

unfoldable pub print_int : ℤ → Text
unfolding digits
print_int (pos n) = digits n n []
print_int (negsuc n) = b'-' ∷ digits (suc n) (suc n) []

unfoldable pub operator : Kind → Text
operator add = b'+' ∷ []
operator sub = b'-' ∷ []
operator mul = b'*' ∷ []
operator div = b'/' ∷ []
operator lt = b'<' ∷ []
operator eq = b'=' ∷ b'=' ∷ []

unfoldable pub rx_emit_expr : Expr → Text
unfolding operator print_int
rx_emit_expr (const c) = print_int c
rx_emit_expr (var x) = x
rx_emit_expr (node k l r) =
    (b'(' ∷ rx_emit_expr l) ++ ((b' ' ∷ operator k) ++ ((b' ' ∷ rx_emit_expr r) ++ (b')' ∷ [])))
