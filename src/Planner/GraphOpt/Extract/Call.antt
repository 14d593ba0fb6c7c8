-- ===== src/Planner/GraphOpt/Extract/Call.antt =====
-- core/planner/graph_opt.c: a call of a function whose text stands in the source of the callers'
-- functions is replaced by the function's expression.
use functional_c.Prelude.{
  ℕ, ◌≡◌, ◌≤◌, length, leb, refl, ◌∙◌, Bool, true, false, not, ◌&&◌, some, List, [], ◌∷◌, ◌++◌,
  ◌==◌, arith, Bool-cases, inl, inr,
}
use functional_c.Prelude.Text.{Text, codes, Every, all→Every}
use functional_c.Prelude.Int.{ℤ}
use functional_c.Planner.GraphOpt.{Expr, rx_simplify_expr}
use functional_c.Planner.GraphOpt.Meaning.{eval, AvoidsDifference}
use functional_c.Planner.GraphOpt.Parse.{
  is_ident_char, is_ident_start, is_digit, rx_skip_space, strip_prefix, span, Names, resolve,
  rx_emit_expr,
}
use functional_c.Planner.GraphOpt.Parse.Leaves.{IsName}
use functional_c.Planner.GraphOpt.Parse.RoundTrip.{IsPrintable, substitute, parse_expression-emit}
use functional_c.Planner.GraphOpt.Parse.Inline.{eval-inlined}
use functional_c.Planner.GraphOpt.Extract.{
  begins_with, find_from, find_function_name, strchr, matching, pieces, copy_trimmed_range,
  parse_parameters, try_extract_graph_function, rx_extract_return_expression,
  try_parse_function_expression,
}
use functional_c.Planner.GraphOpt.Extract.Trim.{name-Every, strchr_lem, matching_lem}
use functional_c.Planner.GraphOpt.Extract.Returned.{
  body_text, AreNames, returned-body_text, body_text-Every, body_text-trimmed,
}

-- The parameters that the optimiser knows: those of a map or filter, of a scan or reduce, of a pair
-- map and of a triple map.
pub data Parameters : Type 0 where
  one accumulated two three : Parameters

abbrev parameter_text : Parameters → Text
parameter_text one = codes "void *raw"
parameter_text accumulated = codes "void *raw_accum, void *raw_next"
parameter_text two = codes "void *left_raw, void *right_raw"
parameter_text three = codes "void *zipped_left_raw, void *zipped_right_raw, void *right_raw"

abbrev parameter_names : Parameters → List Text
parameter_names one = codes "raw" ∷ []
parameter_names accumulated = codes "raw_accum" ∷ codes "raw_next" ∷ []
parameter_names two = codes "left_raw" ∷ codes "right_raw" ∷ []
parameter_names three = codes "zipped_left_raw" ∷ codes "zipped_right_raw" ∷ codes "right_raw" ∷ []

-- The function's text in front of the rest of the source.
unfoldable pub function_text : Text → Parameters → Text → Text → Text
function_text name params body rest =
    codes "void *"
    ++ (name ++ (b'(' ∷ (parameter_text params ++ (codes ") {" ++ (body ++ (b'}' ∷ rest))))))

-- A name does not stand before a bracket where the identifier there ends with another character.
not_called :
    (name u s : Text) (c : ℕ)
    → Every is_ident_char name
    → Every is_ident_char u
    → is_ident_char c ≡ false
    → (c == b'(') ≡ false
    → begins_with b'(' (strip_prefix name (u ++ (c ∷ s))) ≡ false
unfolding begins_with strip_prefix
not_called [] [] s c h k i b = b
not_called [] (d ∷ u) s c h k i b = unfold is_ident_char is_ident_start is_digit in ground arith
not_called (n ∷ name) [] s c h k i b = elim (Bool-cases (c == n)) [
  | inl e ↦ let same : c ≡ n = ground arith in absurd (ground arith)
  | inr e ↦ rw e refl
]
not_called (n ∷ name) (d ∷ u) s c h k i b = elim (Bool-cases (d == n)) [
  | inl e ↦ rw e (not_called name u s c h.1 k.1 i b)
  | inr e ↦ rw e refl
]

called : (name s : Text) → strip_prefix name (name ++ s) ≡ some s
unfolding strip_prefix
called [] s = refl
called (c ∷ name) s = let here : (c == c) ≡ true = ground arith in rw here (called name s)

passed :
    (name s : Text) (d : ℕ)
    → begins_with b'(' (strip_prefix name (d ∷ s)) ≡ false
    → find_from false name (d ∷ s) ≡ find_from (is_ident_char d) name s
unfolding find_from
passed name s d h = rw h refl

-- Inside an identifier no name begins.
passed_inside :
    (name s : Text) (d : ℕ) → find_from true name (d ∷ s) ≡ find_from (is_ident_char d) name s
unfolding find_from
passed_inside name s d = refl

passed_void :
    (name s : Text)
    → Every is_ident_char name
    → find_from false name (codes "void *" ++ s) ≡ find_from false name s
unfolding is_ident_char is_ident_start is_digit
passed_void name s h =
    passed name (codes "oid *" ++ s) b'v' (
      not_called name (codes "void") (b'*' ∷ s) b' ' h (refl, (refl, (refl, (refl, tt)))) refl refl)
    ∙ passed_inside name (codes "id *" ++ s) b'o'
    ∙ passed_inside name (codes "d *" ++ s) b'i'
    ∙ passed_inside name (codes " *" ++ s) b'd'
    ∙ passed_inside name (codes "*" ++ s) b' '
    ∙ passed name s b'*' (not_called name [] s b'*' h tt refl refl)

found_name :
    (c : ℕ) (name s : Text)
    → find_from false (c ∷ name) (c ∷ name ++ (b'(' ∷ s)) ≡ some (c ∷ name ++ (b'(' ∷ s))
unfolding find_from begins_with
found_name c name s = rw (called (c ∷ name) (b'(' ∷ s)) refl

find_function_name-function_text :
    (name s : Text)
    → IsName name
    → find_function_name (codes "void *" ++ (name ++ (b'(' ∷ s))) name ≡ some (name ++ (b'(' ∷ s))
unfolding find_function_name
find_function_name-function_text [] s h = absurd h
find_function_name-function_text (c ∷ name) s h =
    passed_void (c ∷ name) (c ∷ name ++ (b'(' ∷ s))
      (name-Every is_ident_char (c ∷ name) (λ d e. e) h)
    ∙ found_name c name s

ident-not_bracket : (c : ℕ) → is_ident_char c ≡ true → not (c == b'(') ≡ true
unfolding is_ident_char is_ident_start is_digit
ident-not_bracket c h = ground arith

not_bracket : ℕ → Bool
not_bracket c = not (c == b'(') && not (c == b')')

parameter_text-Every : (params : Parameters) → Every not_bracket (parameter_text params)
unfolding not_bracket
parameter_text-Every one = all→Every not_bracket (parameter_text one) refl
parameter_text-Every accumulated = all→Every not_bracket (parameter_text accumulated) refl
parameter_text-Every two = all→Every not_bracket (parameter_text two) refl
parameter_text-Every three = all→Every not_bracket (parameter_text three) refl

parameters_inside :
    (params : Parameters) (s : Text)
    → matching b'(' b')' 1 (parameter_text params ++ (b')' ∷ s))
      ≡ some (parameter_text params, b')' ∷ s)
unfolding not_bracket
parameters_inside params s =
    matching_lem b'(' b')' (parameter_text params) s refl (parameter_text-Every params)

parse_parameters-parameter_text :
    (params : Parameters) → parse_parameters (parameter_text params) ≡ some (parameter_names params)
unfolding parse_parameters pieces rx_skip_space span is_ident_char copy_trimmed_range
parse_parameters-parameter_text one = refl
parse_parameters-parameter_text accumulated = refl
parse_parameters-parameter_text two = refl
parse_parameters-parameter_text three = refl

body_start : (s : Text) → strchr b'{' (codes ") {" ++ s) ≡ some (codes ") ", b'{' ∷ s)
unfolding strchr
body_start s = refl

try_extract_graph_function-function_text :
    (name : Text) (params : Parameters) (aliases : List (Text × Text)) (body : Expr) (rest : Text)
    → IsName name
    → AreNames aliases
    → IsPrintable body
    → try_extract_graph_function
        (function_text name params (body_text aliases (rx_emit_expr body)) rest)
        name
      ≡ some (record {
        parameter_names = parameter_names params;
        body = body_text aliases (rx_emit_expr body);
      })
unfolding try_extract_graph_function function_text
try_extract_graph_function-function_text name params aliases body rest h k p =
    let text = body_text aliases (rx_emit_expr body) in
    let behind_parameters = codes " {" ++ (text ++ (b'}' ∷ rest)) in
    let arguments = parameter_text params ++ (b')' ∷ behind_parameters) in
    let found = find_function_name-function_text name arguments h in
    let bracket =
      strchr_lem b'(' name arguments (name-Every (λ c. not (c == b'(')) name ident-not_bracket h) in
    let inside = matching_lem b'{' b'}' text rest refl (body_text-Every aliases body k p) in
    rw found (
      rw bracket (
        rw (parameters_inside params behind_parameters) (
          rw (parse_parameters-parameter_text params) (
            rw (body_start (text ++ (b'}' ∷ rest)))
              (rw inside (rw (body_text-trimmed aliases (rx_emit_expr body)) refl))))))

-- The text of a function at the start of the source, with the parameters that the optimiser knows,
-- is replaced by its expression with the arguments in place of the parameters, simplified: where
-- the function's name, the aliases that it declares and the variables of its expression are
-- identifiers, the constants fit a `long long`, and there are at most 8 aliases and 4 arguments, the
-- sizes of the arrays that they are stored in.
pub try_parse_function_expression-function_text :
    (name : Text) (params : Parameters) (aliases : List (Text × Text)) (body : Expr) (rest : Text)
    (args : List (Text × Expr))
    → IsName name
    → AreNames aliases
    → IsPrintable body
    → length aliases ≤ 8
    → length args ≤ 4
    → try_parse_function_expression
        (function_text name params (body_text aliases (rx_emit_expr body)) rest)
        (some name)
        args
      ≡ some (rx_simplify_expr (substitute (record { params = args; aliases = aliases }) body))
unfolding try_parse_function_expression rx_extract_return_expression
try_parse_function_expression-function_text name params aliases body rest args h k p few few_args =
    let stored_all : leb (length aliases) 8 ≡ true = ground arith in
    let room : leb (length args) 4 ≡ true = ground arith in
    rw (try_extract_graph_function-function_text name params aliases body rest h k p) (
      rw (returned-body_text aliases body k p) (
        rw (stored_all, room)
          (parse_expression-emit (record { params = args; aliases = aliases }) body p)))

-- If `inner` gives each variable of such a function's expression the value of what stands in its
-- place at the call, and the expression has the value `v` there, then the call is replaced by an
-- expression of that value, if no constant is added to, or taken from, a difference with a constant
-- once the arguments are put in, and there are at most 8 aliases and 4 arguments, the sizes of the
-- arrays that they are stored in.
pub eval-try_parse_function_expression :
    (name : Text) (params : Parameters) (aliases : List (Text × Text)) (body : Expr) (rest : Text)
    (args : List (Text × Expr)) (outer inner : Text → ℤ) (v : ℤ)
    → IsName name
    → AreNames aliases
    → IsPrintable body
    → length aliases ≤ 8
    → length args ≤ 4
    → AvoidsDifference (substitute (record { params = args; aliases = aliases }) body)
    → ((x : Text)
        → eval outer (resolve (record { params = args; aliases = aliases }) x) ≡ some (inner x))
    → eval inner body ≡ some v
    → (e : Expr) × (try_parse_function_expression
          (function_text name params (body_text aliases (rx_emit_expr body)) rest)
          (some name)
          args
        ≡ some e)
      × (eval outer e ≡ some v)
eval-try_parse_function_expression name params aliases body rest args outer inner v h k p few
      few_args avoids values value =
    let names : Names = record { params = args; aliases = aliases } in
    (
      rx_simplify_expr (substitute names body),
      try_parse_function_expression-function_text name params aliases body rest args h k p few
          few_args,
      eval-inlined outer inner names body v avoids values value,
    )
