-- ===== src/Planner/GraphOpt/Extract/Trim.antt =====
-- core/planner/graph_opt.c: trimming, splitting and searching of texts.
use functional_c.Prelude.{
  ℕ, suc, ◌≡◌, refl, ap, sym, ◌∙◌, Bool, true, false, not, ◌&&◌, some, [], ◌∷◌, ◌++◌, ◌==◌, arith,
  append-nil, Bool-cases, inl, inr,
}
use functional_c.Prelude.Text.{Text, Every, Every-append, Every-mono}
use functional_c.Prelude.Int.{ℤ, pos, negsuc}
use functional_c.Planner.GraphOpt.{Kind, add, sub, mul, div, lt, eq, Expr, const, var, node}
use functional_c.Planner.GraphOpt.Parse.{
  is_ident_start, is_ident_char, is_digit, is_space, rx_skip_space, print_int, operator,
  rx_emit_expr,
}
use functional_c.Planner.GraphOpt.Parse.Decimal.{digits-Every, digits-head}
use functional_c.Planner.GraphOpt.Parse.Leaves.{IsName}
use functional_c.Planner.GraphOpt.Parse.RoundTrip.{IsPrintable}
use functional_c.Planner.GraphOpt.Extract.{
  is_empty, trim_end, copy_trimmed_range, strchr, pieces, without_last, matching, nested,
}

-- Neither the end of a statement nor a curly bracket.
abbrev pub is_inner : ℕ → Bool
is_inner c = not (c == b';') && (not (c == b'{') && not (c == b'}'))

ident-is_inner : (c : ℕ) → is_ident_char c ≡ true → is_inner c ≡ true
unfolding is_ident_char is_ident_start is_digit
ident-is_inner c h = ground arith

digit-is_inner : (c : ℕ) → is_digit c ≡ true → is_inner c ≡ true
unfolding is_digit
digit-is_inner c h = ground arith

-- What every character of an identifier passes.
pub name-Every :
    (test : ℕ → Bool) (x : Text)
    → ((c : ℕ) → is_ident_char c ≡ true → test c ≡ true)
    → IsName x
    → Every test x
unfolding is_ident_char
name-Every test [] imp h = absurd h
name-Every test (c ∷ s) imp h = (imp c (ground arith), Every-mono is_ident_char test s imp h.1)

pub name-is_inner : (x : Text) → IsName x → Every is_inner x
name-is_inner x h = name-Every is_inner x ident-is_inner h

operator-is_inner : (k : Kind) → Every is_inner (operator k)
unfolding operator
operator-is_inner add = (refl, tt)
operator-is_inner sub = (refl, tt)
operator-is_inner mul = (refl, tt)
operator-is_inner div = (refl, tt)
operator-is_inner lt = (refl, tt)
operator-is_inner eq = (refl, (refl, tt))

print_int-is_inner : (c : ℤ) → Every is_inner (print_int c)
unfolding print_int
print_int-is_inner (pos n) = Every-mono is_digit is_inner _ digit-is_inner (digits-Every n n [] tt)
print_int-is_inner (negsuc n) =
    (refl, Every-mono is_digit is_inner _ digit-is_inner (digits-Every (suc n) (suc n) [] tt))

pub emit-is_inner : (e : Expr) → IsPrintable e → Every is_inner (rx_emit_expr e)
unfolding rx_emit_expr
emit-is_inner (const c) p = print_int-is_inner c
emit-is_inner (var x) p = name-is_inner x p
emit-is_inner (node k l r) p =
    Every-append is_inner (b'(' ∷ rx_emit_expr l) _ (refl, emit-is_inner l p.0)
      (Every-append is_inner (b' ' ∷ operator k) _ (refl, operator-is_inner k)
        (Every-append is_inner (b' ' ∷ rx_emit_expr r) _ (refl, emit-is_inner r p.1) (refl, tt)))

-- A text that does not end with a space.
abbrev pub Solid : Text → Type 0
Solid s = (is_empty s ≡ false) × (trim_end s ≡ s)

pub Solid-append : (s t : Text) → Solid t → Solid (s ++ t)
unfolding trim_end
Solid-append [] t h = h
Solid-append (c ∷ s) t h =
    let rest = Solid-append s t h in
    (
      refl,
      rw (rest.1, rest.0)
          (elim (Bool-cases (is_space c)) [ inl k ↦ rw k refl | inr k ↦ rw k refl ]),
    )

no_space-Every :
    (s t : Text) → Every (λ c. not (is_space c)) s → trim_end (s ++ t) ≡ s ++ trim_end t
unfolding trim_end
no_space-Every [] t h = refl
no_space-Every (c ∷ s) t h =
    let space : is_space c ≡ false = ground arith in
    rw space (ap (λ r. c ∷ r) (no_space-Every s t h.1))

ident-no_space : (c : ℕ) → is_ident_char c ≡ true → not (is_space c) ≡ true
unfolding is_ident_char is_ident_start is_digit is_space
ident-no_space c h = ground arith

digit-no_space : (c : ℕ) → is_digit c ≡ true → not (is_space c) ≡ true
unfolding is_digit is_space
digit-no_space c h = ground arith

pub ident_other : (c : ℕ) → is_ident_char c ≡ true → not (c == b'=') ≡ true
unfolding is_ident_char is_ident_start is_digit
ident_other c h = ground arith

name-no_space : (x : Text) → IsName x → Every (λ c. not (is_space c)) x
name-no_space x h = name-Every (λ c. not (is_space c)) x ident-no_space h

print_int-no_space : (c : ℤ) → Every (λ d. not (is_space d)) (print_int c)
unfolding print_int is_space
print_int-no_space (pos n) =
    Every-mono is_digit (λ d. not (is_space d)) _ digit-no_space (digits-Every n n [] tt)
print_int-no_space (negsuc n) = (
  refl,
  Every-mono is_digit (λ d. not (is_space d)) _ digit-no_space (digits-Every (suc n) (suc n) [] tt),
)

-- A text without spaces is trimmed to itself, and takes no end with it that is trimmed away.
pub no_space-trimmed :
    (s blank : Text)
    → Every (λ c. not (is_space c)) s
    → trim_end blank ≡ []
    → is_empty s ≡ false
    → copy_trimmed_range (s ++ blank) ≡ s
unfolding copy_trimmed_range rx_skip_space
no_space-trimmed [] blank h k e = absurd (ground arith)
no_space-trimmed (c ∷ s) blank h k e =
    let space : is_space c ≡ false = ground arith in
    rw space (no_space-Every (c ∷ s) blank h ∙ ap (λ r. c ∷ s ++ r) k ∙ append-nil (c ∷ s))

pub name-trimmed :
    (x blank : Text) → IsName x → trim_end blank ≡ [] → copy_trimmed_range (x ++ blank) ≡ x
name-trimmed [] blank h k = absurd h
name-trimmed (c ∷ s) blank h k = no_space-trimmed (c ∷ s) blank (name-no_space (c ∷ s) h) k refl

pub name-Solid : (x : Text) → IsName x → Solid x
unfolding trim_end
name-Solid [] h = absurd h
name-Solid (c ∷ s) h = (
  refl,
  ap trim_end (sym (append-nil (c ∷ s)))
      ∙ no_space-Every (c ∷ s) [] (name-no_space (c ∷ s) h)
      ∙ append-nil (c ∷ s),
)

print_int-is_not_empty : (c : ℤ) → is_empty (print_int c) ≡ false
unfolding print_int
print_int-is_not_empty (pos n) = let (d, t, e, h) = digits-head n n [] in rw e refl
print_int-is_not_empty (negsuc n) = refl

print_int-trimmed : (c : ℤ) → copy_trimmed_range (print_int c) ≡ print_int c
unfolding print_int trim_end
print_int-trimmed c =
    ap copy_trimmed_range (sym (append-nil (print_int c)))
    ∙ no_space-trimmed (print_int c) [] (print_int-no_space c) refl (print_int-is_not_empty c)

pub emit-trimmed : (e : Expr) → IsPrintable e → copy_trimmed_range (rx_emit_expr e) ≡ rx_emit_expr e
unfolding rx_emit_expr trim_end is_space
emit-trimmed (const c) p = print_int-trimmed c
emit-trimmed (var x) p = ap copy_trimmed_range (sym (append-nil x)) ∙ name-trimmed x [] p refl
emit-trimmed (node k l r) p =
    let closed = Solid-append (b' ' ∷ rx_emit_expr r) (b')' ∷ []) (refl, refl) in
    let behind_left =
      Solid-append (b' ' ∷ operator k) ((b' ' ∷ rx_emit_expr r) ++ (b')' ∷ [])) closed in
    unfold copy_trimmed_range rx_skip_space is_space in
    (Solid-append (b'(' ∷ rx_emit_expr l)
      ((b' ' ∷ operator k) ++ ((b' ' ∷ rx_emit_expr r) ++ (b')' ∷ []))) behind_left).1

pub strchr_lem :
    (ch : ℕ) (s t : Text)
    → Every (λ c. not (c == ch)) s
    → strchr ch (s ++ (ch ∷ t)) ≡ some (s, ch ∷ t)
unfolding strchr
strchr_lem ch [] t h = let here : (ch == ch) ≡ true = ground arith in rw here refl
strchr_lem ch (c ∷ s) t h =
    let other : (c == ch) ≡ false = ground arith in rw other (rw (strchr_lem ch s t h.1) refl)

pub pieces_lem :
    (ch : ℕ) (s t : Text)
    → Every (λ c. not (c == ch)) s
    → pieces ch (s ++ (ch ∷ t)) ≡ s ∷ pieces ch t
unfolding pieces
pieces_lem ch [] t h = let here : (ch == ch) ≡ true = ground arith in rw here refl
pieces_lem ch (c ∷ s) t h =
    let other : (c == ch) ≡ false = ground arith in rw other (rw (pieces_lem ch s t h.1) refl)

pub without_last_lem : (ch : ℕ) (s : Text) → without_last ch (s ++ (ch ∷ [])) ≡ some s
unfolding without_last
without_last_lem ch [] = let here : (ch == ch) ≡ true = ground arith in rw here refl
without_last_lem ch (c ∷ []) =
    let here : (ch == ch) ≡ true = ground arith in rw (here, without_last) refl
without_last_lem ch (c ∷ d ∷ s) = rw (without_last_lem ch (d ∷ s)) refl

pub matching_lem :
    (opening closing : ℕ) (s t : Text)
    → (closing == opening) ≡ false
    → Every (λ c. not (c == opening) && not (c == closing)) s
    → matching opening closing 1 (s ++ (closing ∷ t)) ≡ some (s, closing ∷ t)
unfolding matching nested
matching_lem opening closing [] t n h =
    let here : (closing == closing) ≡ true = ground arith in rw (n, here) refl
matching_lem opening closing (c ∷ s) t n h =
    let o : (c == opening) ≡ false = ground arith in
    let k : (c == closing) ≡ false = ground arith in
    rw (o, k) (rw (matching_lem opening closing s t n h.1) refl)
