-- ===== src/Planner/StringBuilder/Written.antt =====
-- core/planner/string_builder.c: one call that writes a text behind the one that is there.
use functional_c.Prelude.{
  ℕ, zero, suc, ◌+◌, ◌-◌, ◌≤◌, ◌≡◌, refl, ap, sym, ◌∙◌, ◌⊎◌, inl, inr, Bool, true, false, Option,
  none, some, [], ◌∷◌, ◌++◌, leb, ◌==◌, if◌then◌else◌, length, take, drop, get_elem?, Bool-cases,
  length-append, arith,
}
use functional_c.Prelude.Text.{Text}
use functional_c.Runtime.PtrList.{move_into}
use functional_c.Runtime.PtrList.Memory.{length-move_into}
use functional_c.Planner.StringBuilder.{
  RxStringBuilder, grow_to, reallocated, rx_string_builder_reserve, write, rx_string_builder_append,
  rx_string_builder_append_format,
}
use functional_c.Planner.StringBuilder.Growth.{
  grow_to_lem, IsSmall, IsSmall-mono, IsSmall-grown, IsSmall-first,
}

-- The buffer holds the text, with a zero byte behind it once there is an array, and is not larger
-- than it has to be.
pub record Holds (builder : RxStringBuilder) (s : Text) : Type 0 where
  pub allocated : length builder.bytes ≡ builder.capacity
  pub size : builder.length ≡ length s
  pub content : take builder.length builder.bytes ≡ s
  pub fits : builder.length ≤ builder.capacity
  pub ended : (builder.capacity ≡ 0) ⊎ (get_elem? builder.bytes builder.length ≡ some 0)
  pub small : IsSmall builder.capacity (builder.length + 1)

-- The first bytes of a buffer that the text and its zero byte were written into.
take-written :
    (s t rest : Text) (n : ℕ)
    → n ≡ length s + length t
    → take n (s ++ ((t ++ (0 ∷ [])) ++ rest)) ≡ s ++ t
take-written [] [] rest zero h = refl
take-written [] [] rest (suc n) h = absurd (omega arith)
take-written [] (c ∷ t) rest zero h = absurd (omega arith)
take-written [] (c ∷ t) rest (suc n) h = ap (λ r. c ∷ r) (take-written [] t rest n (omega arith))
take-written (c ∷ s) t rest zero h = absurd (omega arith)
take-written (c ∷ s) t rest (suc n) h = ap (λ r. c ∷ r) (take-written s t rest n (omega arith))

zero-written :
    (s t rest : Text) (n : ℕ)
    → n ≡ length s + length t
    → get_elem? (s ++ ((t ++ (0 ∷ [])) ++ rest)) n ≡ some 0
zero-written [] [] rest zero h = refl
zero-written [] [] rest (suc n) h = absurd (omega arith)
zero-written [] (c ∷ t) rest zero h = absurd (omega arith)
zero-written [] (c ∷ t) rest (suc n) h = zero-written [] t rest n (omega arith)
zero-written (c ∷ s) t rest zero h = absurd (omega arith)
zero-written (c ∷ s) t rest (suc n) h = zero-written s t rest n (omega arith)

take-all : (xs : Text) (n : ℕ) → length xs ≤ n → take n xs ≡ xs
take-all [] zero h = refl
take-all [] (suc n) h = refl
take-all (x ∷ xs) zero h = absurd (omega arith)
take-all (x ∷ xs) (suc n) h = ap (λ r. x ∷ r) (take-all xs n (omega arith))

-- What C says of `realloc`: an array that it answers has the size that was asked for, and the bytes
-- that fit into both arrays are kept.
abbrev pub Keeps : (ℕ → Text → Option Text) → Type 0
Keeps realloc =
    (n : ℕ) (old new : Text)
    → realloc n old ≡ some new
    → (length new ≡ n) × ((k : ℕ) → k ≤ n → k ≤ length old → take k new ≡ take k old)

-- `realloc` answers NULL for this array and some size.
abbrev pub Refused : (ℕ → Text → Option Text) → Text → Type 0
Refused realloc old = (n : ℕ) × (realloc n old ≡ none)

module _ (realloc : ℕ → Text → Option Text) (keeps : Keeps realloc) where
  -- Room for so many bytes more and the zero byte, with the text kept.
  record Room (builder : RxStringBuilder) (s : Text) (extra : ℕ) (r : Bool × RxStringBuilder)
      : Type 0 where
    bytes : Text
    capacity : ℕ
    answer : r ≡ (true, record builder { bytes = bytes; capacity = capacity })
    allocated : length bytes ≡ capacity
    content : take builder.length bytes ≡ s
    large : builder.length + extra + 1 ≤ capacity
    small : IsSmall capacity (builder.length + extra + 1)

  reallocated_lem :
      (builder : RxStringBuilder) (s : Text) (extra n : ℕ) (o : Option Text)
      → Holds builder s
      → builder.length + extra + 1 ≤ n
      → IsSmall n (builder.length + extra + 1)
      → realloc n builder.bytes ≡ o
      → Room builder s extra (reallocated builder n o)
        ⊎ ((reallocated builder n o ≡ (false, builder)) × Refused realloc builder.bytes)
  unfolding reallocated
  reallocated_lem builder s extra n none v h k e = inr (refl, (n, e))
  reallocated_lem builder s extra n (some new) v h k e =
      let (size, kept) = keeps n builder.bytes new e in
      inl (record {
        bytes = new;
        capacity = n;
        answer = refl;
        allocated = size;
        content = kept builder.length (omega arith) (ground arith) ∙ v.content;
        large = h;
        small = k;
      })

  reserve_lem :
      (builder : RxStringBuilder) (s : Text) (extra : ℕ)
      → Holds builder s
      → Room builder s extra (rx_string_builder_reserve realloc builder extra)
        ⊎ ((rx_string_builder_reserve realloc builder extra ≡ (false, builder))
            × Refused realloc builder.bytes)
  unfolding rx_string_builder_reserve
  reserve_lem builder s extra v =
      let required = builder.length + extra + 1 in
      let few = IsSmall-mono builder.capacity (builder.length + 1) required (omega arith) v.small in
      elim (Bool-cases (leb (builder.length + extra + 1) builder.capacity)) [
        | inl enough ↦ rw enough (
            inl (record {
              bytes = builder.bytes;
              capacity = builder.capacity;
              answer = refl;
              allocated = v.allocated;
              content = v.content;
              large = ground arith;
              small = few;
            }))
        | inr short ↦
            let first = if builder.capacity == 0 then 256 else builder.capacity in
            let (above, low) = grow_to_lem required first required (ground arith) (omega arith) in
            rw short (
              reallocated_lem builder s extra (grow_to required first required)
                (realloc (grow_to required first required) builder.bytes) v above
                (IsSmall-grown first (grow_to required first required) required low
                  (IsSmall-first builder.capacity required few))
                refl)
      ]

  write_lem :
      (builder : RxStringBuilder) (s t : Text) (r : Bool × RxStringBuilder)
      → Holds builder s
      → Room builder s (length t) r
      → ((write t (length t) r).0 ≡ true) × Holds (write t (length t) r).1 (s ++ t)
  unfolding write
  write_lem builder s t r v room =
      let rest = drop (builder.length + (length t + 1)) room.bytes in
      let whole : length (t ++ (0 ∷ [])) ≡ length t + 1 = omega (arith, length-append t (0 ∷ [])) in
      let written : move_into room.bytes builder.length (t ++ (0 ∷ [])) (length t + 1)
          ≡ s ++ ((t ++ (0 ∷ [])) ++ rest) =
        rw (room.content, take-all (t ++ (0 ∷ [])) (length t + 1) (omega arith)) refl in
      let sizes : builder.length + length t ≡ length s + length t = ground (arith, v.size) in
      let size =
        length-move_into room.bytes builder.length (t ++ (0 ∷ [])) (length t + 1)
          (ground (arith, room.large, room.allocated)) (omega arith) in
      rw room.answer (
        refl,
        record {
          allocated = size ∙ room.allocated;
          size = sizes ∙ sym (length-append s t);
          content =
              ap (take (builder.length + length t)) written
              ∙ take-written s t rest (builder.length + length t) sizes;
          fits = ground (arith, room.large);
          ended = inr (
              ap (λ d. get_elem? d (builder.length + length t)) written
              ∙ zero-written s t rest (builder.length + length t) sizes);
          small = room.small;
        },
      )

  -- A call that wrote the text behind the other, or that was refused and changed nothing.
  abbrev pub Appends : RxStringBuilder → Text → Text → Bool × RxStringBuilder → Type 0
  Appends builder s t r =
      ((r.0 ≡ true) × Holds r.1 (s ++ t)) ⊎ ((r ≡ (false, builder)) × Refused realloc builder.bytes)

  pub append_lem :
      (builder : RxStringBuilder) (s t : Text)
      → Holds builder s
      → Appends builder s t (rx_string_builder_append realloc builder t)
  unfolding rx_string_builder_append
  append_lem builder s t v = elim (reserve_lem builder s (length t) v) [
    | inl room ↦
        inl (write_lem builder s t (rx_string_builder_reserve realloc builder (length t)) v room)
    | inr (e, why) ↦ rw e (inr (refl, why))
  ]

  -- The second `vsnprintf` has room for all of the text.
  pub append_format_lem :
      (builder : RxStringBuilder) (s t : Text)
      → Holds builder s
      → Appends builder s t (rx_string_builder_append_format realloc builder (some t))
  unfolding rx_string_builder_append_format
  append_format_lem builder s t v = elim (reserve_lem builder s (length t) v) [
    | inl room ↦
        let r = rx_string_builder_reserve realloc builder (length t) in
        let whole : take (r.1.capacity - r.1.length - 1) t ≡ t =
          rw room.answer
            (take-all t (room.capacity - builder.length - 1) (omega (arith, room.large))) in
        rw whole (inl (write_lem builder s t r v room))
    | inr (e, why) ↦ rw e (inr (refl, why))
  ]
