-- ===== src/Planner/GraphOpt/Parse/Tests.antt =====
-- Concrete texts for the parser and the emission of core/planner/graph_opt.c, and the theorems at
-- them.
use functional_c.Prelude.{◌≡◌, refl, none, some, [], ◌∷◌, arith, length}
use functional_c.Prelude.Text.{codes}
use functional_c.Prelude.Int.{pos, negsuc, ◌-ℤ◌}
use functional_c.Planner.GraphOpt.{Expr, const, var, node, add, sub, mul, eq, rx_simplify_expr}
use functional_c.Planner.GraphOpt.Parse.{
  Names, resolve, parsed, rx_parse_expr_cmp, parse_expression, rx_emit_expr, is_ident_start,
  is_ident_char, rx_parse_add, rx_parse_mul, rx_parse_primary, rx_consume, rx_parse_atom,
  starts_number, rx_parse_ident, operands, strtoll, compared,
}
use functional_c.Planner.GraphOpt.Parse.Lengths.{Within}
use functional_c.Planner.GraphOpt.Parse.Total.{rx_parse_expr_cmp-Within}
use functional_c.Planner.GraphOpt.Parse.RoundTrip.{IsPrintable, substitute, parse_expression-emit}

-- `intptr_t value = (intptr_t)raw;`, called at `src + 1`.
abbrev call : Names
call = record {
  params = (codes "raw", node add (var (codes "src")) (const (pos 1))) ∷ [];
  aliases = (codes "value", codes "raw") ∷ [];
}

-- Precedence, grouping to the left, one comparison at most, and an alias of a parameter.
parsed_texts :
    (rx_parse_expr_cmp 20 call (codes " a+b *-2 == ( c)x")
      ≡ parsed
          (node eq
            (node add (var (codes "a")) (node mul (var (codes "b")) (const (negsuc 1))))
            (var (codes "c")))
          (codes "x"))
    × (parse_expression call (codes "8 - 4 - 2 / 2") ≡ some (const (pos 3)))
    × (parse_expression call (codes "a < b < c") ≡ none)
    × (parse_expression call (codes "value * 3")
        ≡ some (node mul (node add (var (codes "src")) (const (pos 1))) (const (pos 3))))
unfolding parse_expression rx_parse_expr_cmp rx_parse_add rx_parse_mul rx_parse_primary rx_consume
    rx_parse_atom starts_number rx_parse_ident operands strtoll compared resolve rx_simplify_expr
    ◌-ℤ◌
parsed_texts = (refl, refl, refl, refl)

-- (value * 3) - raw
abbrev body : Expr
body = node sub (node mul (var (codes "value")) (const (pos 3))) (var (codes "raw"))

emitted : rx_emit_expr body ≡ codes "((value * 3) - raw)"
unfolding rx_emit_expr
emitted = refl

body-IsPrintable : IsPrintable body
unfolding is_ident_start is_ident_char
body-IsPrintable =
    (((refl, (refl, (refl, (refl, (refl, tt))))), omega arith), (refl, (refl, (refl, tt))))

parse_expression-emit_example :
    parse_expression call (rx_emit_expr body) ≡ some (rx_simplify_expr (substitute call body))
parse_expression-emit_example = parse_expression-emit call body body-IsPrintable

rx_parse_expr_cmp-Within_example :
    Within (length (codes "(1 + (2")) (rx_parse_expr_cmp 12 call (codes "(1 + (2"))
rx_parse_expr_cmp-Within_example = rx_parse_expr_cmp-Within call (codes "(1 + (2") 12 (omega arith)
