-- ===== src/Planner/StringBuilder/Tests.antt =====
-- Concrete runs of core/planner/string_builder.c, and the theorem at one.
use functional_c.Prelude.{
  ℕ, zero, suc, ◌≤◌, ◌≡◌, refl, ap, sym, false, Option, some, none, List, [], ◌∷◌, ◌++◌, arith,
  length, take, replicate, leb, if◌then◌else◌, inl, inr, ◌⊎◌, Bool-cases, length-take,
  length-append, length-replicate,
}
use functional_c.Prelude.Text.{Text, codes}
use functional_c.Planner.StringBuilder.{rx_string_builder_init, RxStringBuilder}
use functional_c.Planner.StringBuilder.Written.{Keeps, Holds}
use functional_c.Planner.StringBuilder.Appended.{append_all, append_all-Appended, Appended}

-- Arrays of at most 512 bytes, zeros behind what is kept.
abbrev small_heap : ℕ → Text → Option Text
small_heap n old = if leb n 512 then some (take n (old ++ replicate n 0)) else none

first_kept :
    (k n : ℕ) (old fill : Text)
    → k ≤ n
    → k ≤ length old
    → take k (take n (old ++ fill)) ≡ take k old
first_kept zero n old fill h j = refl
first_kept (suc k) zero old fill h j = absurd (omega arith)
first_kept (suc k) (suc n) [] fill h j = absurd (omega arith)
first_kept (suc k) (suc n) (c ∷ old) fill h j =
    ap (λ r. c ∷ r) (first_kept k n old fill (omega arith) (omega arith))

small_heap-Keeps : Keeps small_heap
small_heap-Keeps n old new e = elim (Bool-cases (leb n 512)) [
  | inl fits ↦
      let fill = replicate n 0 in
      let made : take n (old ++ fill) ≡ new = ground arith in
      rw (sym made) (
        omega (
          arith,
          length-take n (old ++ fill),
          length-append old fill,
          length-replicate {A = ℕ} n 0,
        ),
        λ k h j. first_kept k n old fill h j,
      )
  | inr beyond ↦ absurd (ground arith)
]

empty-Holds : Holds rx_string_builder_init []
unfolding rx_string_builder_init
empty-Holds = record {
  allocated = refl;
  size = refl;
  content = refl;
  fits = omega arith;
  ended = inl refl;
  small = inl (omega arith);
}

-- `rx_string_builder_append_c_return_name` and the end of the function.
abbrev pieces : List (Text ⊎ Option Text)
pieces = inr (some (codes "    return (intptr_t)total;")) ∷ inl (codes "}") ∷ []

append_all-Appended_example :
    Appended small_heap [] pieces (append_all small_heap rx_string_builder_init pieces)
append_all-Appended_example =
    append_all-Appended small_heap small_heap-Keeps rx_string_builder_init [] pieces empty-Holds

-- A text of 600 bytes is refused behind one of one byte.
refused :
    (append_all small_heap rx_string_builder_init
      (inl (codes "x") ∷ inl (replicate 600 1) ∷ inl (codes "y") ∷ [])).0
    ≡ false
unfolding rx_string_builder_init functional_c.Planner.StringBuilder.append_piece
    functional_c.Planner.StringBuilder.rx_string_builder_append
refused = refl
