-- ===== src/Planner/GraphOpt/Extract/Returned.antt =====
-- core/planner/graph_opt.c: what is taken out of a function's body that declares aliases of its
-- parameters and returns an emitted expression.
use functional_c.Prelude.{
  ℕ, ◌≡◌, refl, ap, sym, ◌∙◌, Bool, true, not, ◌&&◌, some, List, [], ◌∷◌, ◌++◌, ◌==◌, arith,
  append_assoc, append-nil,
}
use functional_c.Prelude.Text.{Text, codes, all→Every, Every, Every-append, Every-mono}
use functional_c.Planner.GraphOpt.{Expr}
use functional_c.Planner.GraphOpt.Parse.{is_space, rx_skip_space, strip_prefix, rx_emit_expr}
use functional_c.Planner.GraphOpt.Parse.Leaves.{IsName}
use functional_c.Planner.GraphOpt.Parse.RoundTrip.{IsPrintable}
use functional_c.Planner.GraphOpt.Extract.{
  trim_end, copy_trimmed_range, strchr, behind, pieces, alias_in, strip_return_wrapper, unwrapped,
  skip_blanks, returns, declares, statement, returned,
}
use functional_c.Planner.GraphOpt.Extract.Trim.{
  is_inner, name-Every, ident_other, name-is_inner, emit-is_inner, Solid, Solid-append,
  name-trimmed, name-Solid, emit-trimmed, strchr_lem, pieces_lem, without_last_lem,
}

-- `intptr_t NAME = (intptr_t)TARGET`
declaration : Text → Text → Text
declaration name target = codes "intptr_t " ++ (name ++ (codes " = (intptr_t)" ++ target))

return_statement : Text → Text
return_statement expr = codes "return (void *)(intptr_t)(" ++ (expr ++ (b')' ∷ []))

-- A body with these aliases that returns the expression.
unfoldable pub body_text : List (Text × Text) → Text → Text
unfolding declaration return_statement
body_text [] expr = return_statement expr ++ (b';' ∷ [])
body_text ((name, target) ∷ aliases) expr =
    declaration name target ++ (b';' ∷ body_text aliases expr)

abbrev pub AreNames : List (Text × Text) → Type 0
AreNames [] = Unit
AreNames ((name, target) ∷ aliases) = IsName name × IsName target × AreNames aliases

declaration-trimmed :
    (name target : Text)
    → IsName target
    → copy_trimmed_range (declaration name target) ≡ declaration name target
unfolding copy_trimmed_range rx_skip_space is_space declaration
declaration-trimmed name target h =
    (Solid-append (codes "intptr_t ") (name ++ (codes " = (intptr_t)" ++ target)) (
      Solid-append name (codes " = (intptr_t)" ++ target)
        (Solid-append (codes " = (intptr_t)") target (name-Solid target h)))).1

cast-trimmed :
    (target : Text)
    → IsName target
    → copy_trimmed_range (codes " (intptr_t)" ++ target) ≡ codes "(intptr_t)" ++ target
unfolding copy_trimmed_range rx_skip_space is_space
cast-trimmed target h = (Solid-append (codes "(intptr_t)") target (name-Solid target h)).1

behind_cast :
    (target : Text) → behind (codes "(intptr_t)") (codes "(intptr_t)" ++ target) ≡ some target
unfolding behind strip_prefix
behind_cast target = refl

name_up_to_equals :
    (name rest : Text)
    → IsName name
    → strchr b'=' (name ++ (b' ' ∷ b'=' ∷ rest)) ≡ some (name ++ (b' ' ∷ []), b'=' ∷ rest)
name_up_to_equals name rest h =
    ap (strchr b'=') (sym (append_assoc name (b' ' ∷ []) (b'=' ∷ rest)))
    ∙ strchr_lem b'=' (name ++ (b' ' ∷ [])) rest (
        Every-append (λ c. not (c == b'=')) name (b' ' ∷ [])
          (name-Every (λ c. not (c == b'=')) name ident_other h) (refl, tt))

alias_in-declaration :
    (name target : Text)
    → IsName name
    → IsName target
    → alias_in (name ++ (codes " = (intptr_t)" ++ target)) ≡ some (name, target)
unfolding alias_in
alias_in-declaration name target h k =
    let equals = name_up_to_equals name (codes " (intptr_t)" ++ target) h in
    let cast = ap (behind (codes "(intptr_t)")) (cast-trimmed target k) ∙ behind_cast target in
    let blank : trim_end (b' ' ∷ []) ≡ [] = unfold trim_end is_space in refl in
    let last : trim_end [] ≡ [] = unfold trim_end in refl in
    let whole = ap copy_trimmed_range (sym (append-nil target)) ∙ name-trimmed target [] k last in
    rw equals (rw cast (rw (name-trimmed name (b' ' ∷ []) h blank, whole) refl))

statement-declaration :
    (name target : Text)
    → IsName name
    → IsName target
    → statement (copy_trimmed_range (declaration name target)) ≡ declares (some (name, target))
unfolding statement declaration strip_prefix
statement-declaration name target h k =
    rw (declaration-trimmed name target k) (ap declares (alias_in-declaration name target h k))

closed-trimmed : (expr : Text) → trim_end (expr ++ (b')' ∷ [])) ≡ expr ++ (b')' ∷ [])
unfolding trim_end is_space
closed-trimmed expr = (Solid-append expr (b')' ∷ []) (refl, refl)).1

statement-return :
    (e : Expr)
    → IsPrintable e
    → statement (copy_trimmed_range (return_statement (rx_emit_expr e))) ≡ returns (rx_emit_expr e)
unfolding statement return_statement strip_prefix strip_return_wrapper skip_blanks unwrapped
    copy_trimmed_range rx_skip_space is_space
statement-return e p =
    rw (closed-trimmed (rx_emit_expr e))
      (rw (without_last_lem b')' (rx_emit_expr e)) (ap returns (emit-trimmed e p)))

declaration-is_inner :
    (name target : Text) → IsName name → IsName target → Every is_inner (declaration name target)
unfolding declaration
declaration-is_inner name target h k =
    Every-append is_inner (codes "intptr_t ") _ (all→Every is_inner (codes "intptr_t ") refl) (
      Every-append is_inner name _ (name-is_inner name h) (
        Every-append is_inner (codes " = (intptr_t)") target
          (all→Every is_inner (codes " = (intptr_t)") refl) (name-is_inner target k)))

return-is_inner : (e : Expr) → IsPrintable e → Every is_inner (return_statement (rx_emit_expr e))
unfolding return_statement
return-is_inner e p =
    Every-append is_inner (codes "return (void *)(intptr_t)(") _
      (all→Every is_inner (codes "return (void *)(intptr_t)(") refl)
      (Every-append is_inner (rx_emit_expr e) (b')' ∷ []) (emit-is_inner e p) (refl, tt))

inner-no_semicolon : (c : ℕ) → is_inner c ≡ true → not (c == b';') ≡ true
inner-no_semicolon c h = ground arith

next_statement :
    (s rest : Text) → Every is_inner s → pieces b';' (s ++ (b';' ∷ rest)) ≡ s ∷ pieces b';' rest
next_statement s rest h =
    pieces_lem b';' s rest (Every-mono is_inner (λ c. not (c == b';')) s inner-no_semicolon h)

-- The aliases that a body declares and the expression that it returns are taken out of it, if they
-- are names and the expression's variables are, and its constants fit a `long long`.
pub returned-body_text :
    (aliases : List (Text × Text)) (e : Expr)
    → AreNames aliases
    → IsPrintable e
    → returned (pieces b';' (body_text aliases (rx_emit_expr e))) ≡ some (aliases, rx_emit_expr e)
unfolding returned body_text
returned-body_text [] e h p =
    rw (next_statement (return_statement (rx_emit_expr e)) [] (return-is_inner e p))
      (rw (statement-return e p) refl)
returned-body_text ((name, target) ∷ aliases) e h p =
    rw
      (next_statement (declaration name target) (body_text aliases (rx_emit_expr e))
        (declaration-is_inner name target h.0 h.1))
      (rw (statement-declaration name target h.0 h.1, returned-body_text aliases e h.2 p) refl)

not_curly : ℕ → Bool
not_curly c = not (c == b'{') && not (c == b'}')

inner-not_curly : (c : ℕ) → is_inner c ≡ true → not_curly c ≡ true
unfolding not_curly
inner-not_curly c h = ground arith

pub body_text-Every :
    (aliases : List (Text × Text)) (e : Expr)
    → AreNames aliases
    → IsPrintable e
    → Every (λ c. not (c == b'{') && not (c == b'}')) (body_text aliases (rx_emit_expr e))
unfolding body_text not_curly
body_text-Every [] e h p =
    Every-append not_curly (return_statement (rx_emit_expr e)) (b';' ∷ [])
      (Every-mono is_inner not_curly (return_statement (rx_emit_expr e)) inner-not_curly
        (return-is_inner e p))
      (refl, tt)
body_text-Every ((name, target) ∷ aliases) e h p =
    Every-append not_curly (declaration name target) _
      (Every-mono is_inner not_curly (declaration name target) inner-not_curly
        (declaration-is_inner name target h.0 h.1))
      (refl, body_text-Every aliases e h.2 p)

body_text-Solid : (aliases : List (Text × Text)) (expr : Text) → Solid (body_text aliases expr)
unfolding body_text trim_end is_space
body_text-Solid [] expr = Solid-append (return_statement expr) (b';' ∷ []) (refl, refl)
body_text-Solid ((name, target) ∷ aliases) expr =
    Solid-append (declaration name target) (b';' ∷ body_text aliases expr)
      (Solid-append (b';' ∷ []) (body_text aliases expr) (body_text-Solid aliases expr))

body_text-head :
    (aliases : List (Text × Text)) (expr : Text)
    → rx_skip_space (body_text aliases expr) ≡ body_text aliases expr
unfolding body_text declaration return_statement rx_skip_space is_space
body_text-head [] expr = refl
body_text-head ((name, target) ∷ aliases) expr = refl

pub body_text-trimmed :
    (aliases : List (Text × Text)) (expr : Text)
    → copy_trimmed_range (body_text aliases expr) ≡ body_text aliases expr
unfolding copy_trimmed_range
body_text-trimmed aliases expr = rw (body_text-head aliases expr) ((body_text-Solid aliases expr).1)
