-- ===== src/Planner/GraphOpt/Extract/Tests.antt =====
-- Concrete functions for the extraction of core/planner/graph_opt.c, and the theorems at them.
use functional_c.Prelude.{
  ◌≡◌, refl, some, List, [], ◌∷◌, Bool-cases, inl, inr, ◌||◌, if◌then◌else◌, arith,
}
use functional_c.Prelude.Text.{Text, codes, same_text}
use functional_c.Prelude.Int.{ℤ, pos, ◌+ℤ◌, ◌-ℤ◌, ◌*ℤ◌}
use functional_c.Planner.GraphOpt.{Expr, const, var, node, add, sub, mul, rx_simplify_expr}
use functional_c.Planner.GraphOpt.Meaning.{eval, AvoidsDifference}
use functional_c.Planner.GraphOpt.Parse.{
  Names, resolve, unalias, argument_for, strip_prefix, span, rx_skip_space, is_ident_char,
  is_ident_start, rx_emit_expr,
}
use functional_c.Planner.GraphOpt.Parse.Leaves.{IsName}
use functional_c.Planner.GraphOpt.Parse.RoundTrip.{IsPrintable, substitute}
use functional_c.Planner.GraphOpt.Extract.{
  try_extract_graph_function, rx_extract_return_expression, strchr, matching, parse_parameters,
  find_function_name, copy_trimmed_range, behind, strip_return_wrapper, statement, returned, stored,
  pieces, try_parse_function_expression,
}
use functional_c.Planner.GraphOpt.Extract.Returned.{body_text, AreNames}
use functional_c.Planner.GraphOpt.Extract.Call.{
  one, function_text, try_parse_function_expression-function_text,
  eval-try_parse_function_expression,
}

abbrev source : Text
source = codes "g(f); int f(T *raw, int k) { return g(raw); } "

extracted :
    try_extract_graph_function source (codes "f")
    ≡ some
        (record { parameter_names = codes "raw" ∷ codes "k" ∷ []; body = codes "return g(raw);" })
unfolding try_extract_graph_function find_function_name strchr matching parse_parameters
    copy_trimmed_range strip_prefix span rx_skip_space is_ident_char pieces
extracted = refl

returned_expression :
    rx_extract_return_expression (record {
      parameter_names = [];
      body = codes "intptr_t a = (intptr_t)raw;\n return (void *)(intptr_t) (a+1) ; x";
    })
    ≡ some ((codes "a", codes "raw") ∷ [], codes "a+1")
unfolding rx_extract_return_expression stored returned pieces statement strip_return_wrapper
    copy_trimmed_range strip_prefix strchr behind rx_skip_space
returned_expression = refl

-- `intptr_t value = (intptr_t)raw;`, called at `src + 1`.
abbrev aliases : List (Text × Text)
aliases = (codes "value", codes "raw") ∷ []

abbrev args : List (Text × Expr)
args = (codes "raw", node add (var (codes "src")) (const (pos 1))) ∷ []

abbrev call : Names
call = record { params = args; aliases = aliases }

-- (value * 3) - raw
abbrev body : Expr
body = node sub (node mul (var (codes "value")) (const (pos 3))) (var (codes "raw"))

names : IsName (codes "next") × AreNames aliases × IsPrintable body
unfolding is_ident_start is_ident_char
names = (
  (refl, (refl, (refl, (refl, tt)))),
  ((refl, (refl, (refl, (refl, (refl, tt))))), (refl, (refl, (refl, tt))), tt),
  (((refl, (refl, (refl, (refl, (refl, tt))))), omega arith), (refl, (refl, (refl, tt)))),
)

abbrev next_text : Text
next_text =
    function_text (codes "next") one (body_text aliases (rx_emit_expr body)) (codes " int x;")

next_is_c :
    next_text
    ≡ codes
        "void *next(void *raw) {intptr_t value = (intptr_t)raw;return (void *)(intptr_t)(((value * 3) - raw));} int x;"
unfolding function_text body_text rx_emit_expr
next_is_c = refl

try_parse_function_expression-function_text_example :
    try_parse_function_expression next_text (some (codes "next")) args
    ≡ some (rx_simplify_expr (substitute call body))
try_parse_function_expression-function_text_example =
    try_parse_function_expression-function_text (codes "next") one aliases body (codes " int x;")
      args names.0 names.1 names.2 (omega arith) (omega arith)

-- Every variable has the value 5 at the call, and so the parameter and its alias have 6 in the body.
abbrev outside : Text → ℤ
outside x = pos 5

abbrev inside : Text → ℤ
inside x = if same_text x (codes "value") || same_text x (codes "raw") then pos 6 else pos 5

inside-resolve : (x : Text) → eval outside (resolve call x) ≡ some (inside x)
unfolding eval resolve unalias argument_for ◌+ℤ◌
inside-resolve x = elim (Bool-cases (same_text x (codes "value"))) [
  | inl h ↦ rw h refl
  | inr h ↦ elim (Bool-cases (same_text x (codes "raw"))) [
    | inl k ↦ rw (h, k) refl
    | inr k ↦ rw (h, k) refl
  ]
]

body-AvoidsDifference : AvoidsDifference (substitute call body)
unfolding rx_simplify_expr substitute resolve
body-AvoidsDifference = (refl, (refl, (refl, tt, tt), tt), (refl, tt, tt))

body-value : eval inside body ≡ some (pos 12)
unfolding eval ◌*ℤ◌ ◌-ℤ◌
body-value = refl

eval-try_parse_function_expression_example :
    (e : Expr) × (try_parse_function_expression next_text (some (codes "next")) args ≡ some e)
    × (eval outside e ≡ some (pos 12))
eval-try_parse_function_expression_example =
    eval-try_parse_function_expression (codes "next") one aliases body (codes " int x;") args
      outside inside (pos 12) names.0 names.1 names.2 (omega arith) (omega arith)
      body-AvoidsDifference inside-resolve body-value
