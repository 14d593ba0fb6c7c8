-- ===== src/Tools/Registry.antt =====
-- core/tools/operator_registry.c: what the compiler knows of each operator.
use functional_c.Prelude.{
  ℕ, Bool, true, false, Option, none, some, List, [], ◌∷◌, ◌==◌, if◌then◌else◌, ◌≡◌, refl,
}
use functional_c.Prelude.Text.{Text, codes, same_text}
use functional_c.Tools.Ast.{
  SourceKind, range, of, empty, never, interval, timer, defer, from, zip, OperatorKind, map, filter,
  reduce, scan, scanfrom, map_to, take, skip, take_while, skip_while, distinct,
  distinct_until_changed, take_until, skip_until, last, first, merge_map, buffer, throttle_time,
  FunctionKind, value, predicate, accumulator, projector, unknown,
}

pub data OperatorArgumentKind : Type 0 where
  no_argument function literal function_and_literal source_argument : OperatorArgumentKind

pub record OperatorInfo : Type 0 where
  pub kind : OperatorKind
  pub dsl_name : Text
  pub runtime_name : Text
  pub fusible : Bool
  pub requires_runtime_self : Bool
  pub argument_kind : OperatorArgumentKind
  pub expected_function_kind : FunctionKind

-- The enumerator's value.
unfoldable pub operator_number : OperatorKind → ℕ
operator_number map = 0
operator_number filter = 1
operator_number reduce = 2
operator_number scan = 3
operator_number scanfrom = 4
operator_number map_to = 5
operator_number take = 6
operator_number skip = 7
operator_number take_while = 8
operator_number skip_while = 9
operator_number distinct = 10
operator_number distinct_until_changed = 11
operator_number take_until = 12
operator_number skip_until = 13
operator_number last = 14
operator_number first = 15
operator_number merge_map = 16
operator_number buffer = 17
operator_number throttle_time = 18

-- A line of the table; the two names are the same text in each.
abbrev entry :
    OperatorKind → Text → Bool → Bool → OperatorArgumentKind → FunctionKind → OperatorInfo
entry kind name fusible self argument expected = record {
  kind = kind;
  dsl_name = name;
  runtime_name = name;
  fusible = fusible;
  requires_runtime_self = self;
  argument_kind = argument;
  expected_function_kind = expected;
}

unfoldable pub k_operator_table : List OperatorInfo
k_operator_table =
    entry map (codes "map") true false function value
    ∷ entry filter (codes "filter") true false function predicate
    ∷ entry reduce (codes "reduce") true false function_and_literal accumulator
    ∷ entry scan (codes "scan") true false function accumulator
    ∷ entry scanfrom (codes "scanfrom") true false function_and_literal accumulator
    ∷ entry map_to (codes "mapTo") true false literal unknown
    ∷ entry take (codes "take") true false literal unknown
    ∷ entry skip (codes "skip") true false literal unknown
    ∷ entry take_while (codes "takeWhile") true false function predicate
    ∷ entry skip_while (codes "skipWhile") true false function predicate
    ∷ entry distinct (codes "distinct") false false function projector
    ∷ entry distinct_until_changed (codes "distinctUntilChanged") true false function projector
    ∷ entry take_until (codes "takeUntil") true false literal unknown
    ∷ entry skip_until (codes "skipUntil") true false literal unknown
    ∷ entry last (codes "last") true false no_argument unknown
    ∷ entry first (codes "first") true false no_argument unknown
    ∷ entry merge_map (codes "mergeMap") false false source_argument unknown
    ∷ entry buffer (codes "buffer") false true source_argument unknown
    ∷ entry throttle_time (codes "throttleTime") false true literal unknown
    ∷ []

find_kind : OperatorKind → List OperatorInfo → Option OperatorInfo
find_kind kind [] = none
find_kind kind (info ∷ rest) =
    if operator_number info.kind == operator_number kind then some info else find_kind kind rest

unfoldable pub find_operator_info : OperatorKind → Option OperatorInfo
unfolding find_kind operator_number k_operator_table
find_operator_info kind = find_kind kind k_operator_table

find_name : Text → List OperatorInfo → Option OperatorInfo
find_name name [] = none
find_name name (info ∷ rest) =
    if same_text info.dsl_name name then some info else find_name name rest

unfoldable pub find_operator_info_by_name : Text → Option OperatorInfo
unfolding find_name k_operator_table
find_operator_info_by_name name = find_name name k_operator_table

unfoldable pub source_kind_name : SourceKind → Text
source_kind_name range = codes "range"
source_kind_name of = codes "of"
source_kind_name empty = codes "empty"
source_kind_name never = codes "never"
source_kind_name interval = codes "interval"
source_kind_name timer = codes "timer"
source_kind_name defer = codes "defer"
source_kind_name from = codes "from"
source_kind_name zip = codes "zip"

-- Every operator has an entry, which is found by its kind and by its name alike.
pub find_operator_info_lem :
    (kind : OperatorKind)
    → (info : OperatorInfo) × (find_operator_info kind ≡ some info)
      × (info.kind ≡ kind)
      × (find_operator_info_by_name info.dsl_name ≡ some info)
unfolding find_operator_info find_operator_info_by_name
find_operator_info_lem map = (_, refl, refl, refl)
find_operator_info_lem _ = (_, refl, refl, refl)
