-- ===== src/Runtime/PtrList/Refinement.antt =====
-- core/src/list.c as a sequence of items: what any run of its operations answers and leaves is what
-- the same run on the plain sequence does, whatever the array went through.
use functional_c.Prelude.{ℕ, ◌≡◌, refl, ap, sym, ◌∙◌, Option, none, List, [], ◌∷◌, ◌++◌}
use functional_c.Runtime.PtrList.{
  PtrList, list_reserve, push_back, push_front, peek, pop, popstart, list_remove,
}
use functional_c.Runtime.PtrList.Memory.{erase_at, uncons, unsnoc}
use functional_c.Runtime.PtrList.Contents.{
  IsValid, contents, list_reserve_lem, push_back_lem, push_front_lem, pop_lem, popstart_lem,
  list_remove_lem,
}

-- A call of one of the functions of list.c.
pub data Call (A : Type 0) : Type 0 where
  reserving : (capacity : ℕ) → Call A
  pushing_back : (item : A) → Call A
  pushing_front : (item : A) → Call A
  peeking : Call A
  popping : Call A
  popping_start : Call A
  removing : (idx : ℕ) → Call A

module _ {A : Type 0} where
  -- A call on the sequence of items: what it answers, and the sequence that it leaves.
  abbrev pub call_items : Call A → List A → Option A × List A
  call_items (reserving capacity) xs = (none, xs)
  call_items (pushing_back item) xs = (none, xs ++ (item ∷ []))
  call_items (pushing_front item) xs = (none, item ∷ xs)
  call_items peeking xs = ((unsnoc xs).0, xs)
  call_items popping xs = unsnoc xs
  call_items popping_start xs = uncons xs
  call_items (removing idx) xs = (none, erase_at xs idx)

  -- The answers of a run of calls, in their order, and what the last one leaves.
  abbrev pub run_items : List (Call A) → List A → List (Option A) × List A
  run_items [] xs = ([], xs)
  run_items (c ∷ cs) xs =
      let (answer, rest) = call_items c xs in
      let (answers, last) = run_items cs rest in (answer ∷ answers, last)

  module _ (null : A) where
    -- The same call on the array.
    abbrev pub call : Call A → PtrList A → Option A × PtrList A
    call (reserving capacity) l = (none, list_reserve null l capacity)
    call (pushing_back item) l = (none, push_back null l item)
    call (pushing_front item) l = (none, push_front null l item)
    call peeking l = (peek l, l)
    call popping l = pop l
    call popping_start l = popstart l
    call (removing idx) l = (none, list_remove l idx)

    abbrev pub run : List (Call A) → PtrList A → List (Option A) × PtrList A
    run [] l = ([], l)
    run (c ∷ cs) l =
        let (answer, rest) = call c l in
        let (answers, last) = run cs rest in (answer ∷ answers, last)

    -- One call keeps the representation invariant and does to the items what it should.
    call_lem :
        (c : Call A) {l : PtrList A}
        → IsValid l
        → IsValid (call c l).1 × (((call c l).0, contents (call c l).1) ≡ call_items c (contents l))
    call_lem (reserving capacity) v =
        let (v', same, _, _) = list_reserve_lem null capacity v in (v', ap (λ xs. (none, xs)) same)
    call_lem (pushing_back item) v =
        let (v', same) = push_back_lem null item v in (v', ap (λ xs. (none, xs)) same)
    call_lem (pushing_front item) v =
        let (v', same) = push_front_lem null item v in (v', ap (λ xs. (none, xs)) same)
    call_lem peeking {l} v =
        let (_, same, shown) = pop_lem v in
        (v, ap (λ o. (o, contents l)) (shown ∙ ap (λ r. r.0) same))
    call_lem popping v = let (v', same, _) = pop_lem v in (v', same)
    call_lem popping_start v = popstart_lem v
    call_lem (removing idx) v =
        let (v', same) = list_remove_lem idx v in (v', ap (λ xs. (none, xs)) same)

    -- From a list that satisfies the representation invariant, any sequence of the calls
    -- `list_reserve`, `push_back`, `push_front`, `peek`, `pop`, `popstart` and `list_remove`
    -- answers what it answers on the plain sequence of the items, leaves an array that holds what
    -- the sequence becomes, and keeps the invariant.
    pub run-run_items :
        (cs : List (Call A)) {l : PtrList A}
        → IsValid l
        → IsValid (run cs l).1 × (((run cs l).0, contents (run cs l).1) ≡ run_items cs (contents l))
    run-run_items [] v = (v, refl)
    run-run_items (c ∷ cs) {l} v =
        let (v', one) = call_lem c v in
        let (v'', rest) = run-run_items cs v' in (v'', rw (sym one, sym rest) refl)
