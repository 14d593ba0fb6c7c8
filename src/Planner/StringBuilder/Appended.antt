-- ===== src/Planner/StringBuilder/Appended.antt =====
-- core/planner/string_builder.c: what the buffer holds after a run of calls.
use functional_c.Prelude.{
  append-nil, append_assoc, ℕ, suc, ◌<◌, ◌≡◌, refl, ap, sym, ◌⊎◌, inl, inr, Bool, true, false,
  Option, none, some, List, [], ◌∷◌, ◌++◌, if◌then◌else◌, length, take, get_elem?, arith,
}
use functional_c.Prelude.Text.{Text}
use functional_c.Planner.StringBuilder.{
  RxStringBuilder, rx_string_builder_append_format, append_piece,
}
use functional_c.Planner.StringBuilder.Written.{
  Keeps, Refused, Holds, append_lem, append_format_lem,
}

-- The text of a piece, and of a run of them; a format that fails has none.
abbrev pub piece_text : Text ⊎ Option Text → Text
piece_text (inl text) = text
piece_text (inr none) = []
piece_text (inr (some output)) = output

abbrev pub texts : List (Text ⊎ Option Text) → Text
texts [] = []
texts (p ∷ ps) = piece_text p ++ texts ps

module _ (realloc : ℕ → Text → Option Text) where
  -- A run of calls joined by `&&`.
  abbrev pub append_all : RxStringBuilder → List (Text ⊎ Option Text) → Bool × RxStringBuilder
  append_all builder [] = (true, builder)
  append_all builder (p ∷ ps) =
      let (done, next) = append_piece realloc builder p in
      let rest = append_all next ps in if done then rest else (false, next)

  -- The run stopped before the piece `n`, whose format failed or whose bytes were refused.
  pub record Stops (s : Text) (ps : List (Text ⊎ Option Text)) (n : ℕ) (r : Bool × RxStringBuilder)
      : Type 0 where
    pub refused : r.0 ≡ false
    pub inside : n < length ps
    pub before : Holds r.1 (s ++ texts (take n ps))
    pub reason : (get_elem? ps n ≡ some (inr none)) ⊎ Refused realloc r.1.bytes

  Stops-later :
      (next : RxStringBuilder) (s : Text) (p : Text ⊎ Option Text) (ps : List (Text ⊎ Option Text))
      (n : ℕ)
      → Stops (s ++ piece_text p) ps n (append_all next ps)
      → Stops s (p ∷ ps) (suc n) (append_all next ps)
  Stops-later next s p ps n stops = record {
    refused = stops.refused;
    inside = omega (arith, stops.inside);
    before = rw (sym (append_assoc s (piece_text p) (texts (take n ps)))) stops.before;
    reason = stops.reason;
  }

  Stops-now :
      (builder : RxStringBuilder) (s : Text) (p : Text ⊎ Option Text)
      (ps : List (Text ⊎ Option Text))
      → Holds builder s
      → (p ≡ inr none) ⊎ Refused realloc builder.bytes
      → Stops s (p ∷ ps) 0 (false, builder)
  Stops-now builder s p ps v why = record {
    refused = refl;
    inside = omega arith;
    before = rw (append-nil s) v;
    reason = elim why [ inl failed ↦ inl (ap (λ q. some q) failed) | inr full ↦ inr full ];
  }

  abbrev pub Appended : Text → List (Text ⊎ Option Text) → Bool × RxStringBuilder → Type 0
  Appended s ps r = ((r.0 ≡ true) × Holds r.1 (s ++ texts ps)) ⊎ ((n : ℕ) × Stops s ps n r)

module _ (realloc : ℕ → Text → Option Text) (keeps : Keeps realloc) where
  append_piece_lem :
      (builder : RxStringBuilder) (s : Text) (p : Text ⊎ Option Text)
      → Holds builder s
      → (((append_piece realloc builder p).0 ≡ true)
          × Holds (append_piece realloc builder p).1 (s ++ piece_text p))
        ⊎ ((append_piece realloc builder p ≡ (false, builder))
            × ((p ≡ inr none) ⊎ Refused realloc builder.bytes))
  unfolding append_piece rx_string_builder_append_format
  append_piece_lem builder s (inl text) v = elim (append_lem realloc keeps builder s text v) [
    | inl done ↦ inl done
    | inr (e, why) ↦ inr (e, inr why)
  ]
  append_piece_lem builder s (inr none) v = inr (refl, inl refl)
  append_piece_lem builder s (inr (some output)) v =
      elim (append_format_lem realloc keeps builder s output v) [
        | inl done ↦ inl done
        | inr (e, why) ↦ inr (e, inr why)
      ]

  -- Where `realloc` keeps the bytes of what it enlarges: from a buffer that holds a text, a run of
  -- appended texts and formatted texts either succeeds, and the buffer holds the text with all of
  -- theirs behind it, or it stops at a piece whose format failed or for which `realloc` answers
  -- NULL, and the buffer holds the text with those of the pieces before it. In both cases the text
  -- ends with a zero byte once there is an array, and the capacity is at most 256 or less than
  -- twice what the text needs.
  pub append_all-Appended :
      (builder : RxStringBuilder) (s : Text) (ps : List (Text ⊎ Option Text))
      → Holds builder s
      → Appended realloc s ps (append_all realloc builder ps)
  append_all-Appended builder s [] v = inl (refl, rw (append-nil s) v)
  append_all-Appended builder s (p ∷ ps) v = elim (append_piece_lem builder s p v) [
    | inl (e, v') ↦
        let next = (append_piece realloc builder p).1 in
        elim (append_all-Appended next (s ++ piece_text p) ps v') [
          | inl (e', v'') ↦ rw e (inl (e', rw (sym (append_assoc s (piece_text p) (texts ps))) v''))
          | inr (n, stops) ↦ rw e (inr (suc n, Stops-later realloc next s p ps n stops))
        ]
    | inr (e, why) ↦ rw e (inr (0, Stops-now realloc builder s p ps v why))
  ]
