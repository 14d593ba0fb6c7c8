-- ===== src/Runtime/PtrList/Contents.antt =====
-- core/src/list.c: each operation seen through the items that the list holds, and the
-- representation invariant that it keeps.
use native.Mathlib.Nat.{pow-suc}
use functional_c.Prelude.{
  ℕ, zero, suc, ◌+◌, ◌-◌, ◌*◌, ◌^◌, ◌≤◌, ◌<◌, ◌≡◌, refl, ap, sym, ◌⊎◌, inl, inr, List, [], ◌∷◌,
  ◌++◌, ◌∙◌, arith, length, take, replicate, set, length-take, length-set, ltb, length-replicate,
  true, false, Bool-cases, ◌==◌, leb,
}
use functional_c.Runtime.PtrList.{
  PtrList, move_into, doubling, normalized_capacity, new_list, list_reserve, resize, make_room,
  push_back, push_front, peek, pop, popstart, list_remove,
}
use functional_c.Runtime.PtrList.Memory.{
  length-move_into, take-move_into, take-set_end, take-set_front, erase_at, erase_at-beyond, uncons,
  unsnoc, unsnoc-take, uncons-take, take-closed, length-closed, take-shifted, length-shifted,
}

-- The capacity stays a power of two, and grows no further than needed.
doubling-power :
    (fuel r c k : ℕ)
    → r ≡ 2 ^ suc k
    → 1 ≤ r
    → c ≤ r + fuel
    → (j : ℕ) × (doubling fuel r c ≡ 2 ^ suc j)
      × (c ≤ doubling fuel r c)
      × ((doubling fuel r c ≡ r) ⊎ (doubling fuel r c < 2 * c))
unfolding doubling
doubling-power zero r c k e p h = (k, e, omega arith, inl refl)
doubling-power (suc fuel) r c k e p h = elim (Bool-cases (ltb r c)) [
  | inl more ↦
      let twice : r * 2 ≡ 2 ^ suc (suc k) = omega (arith, pow-suc 2 (suc k)) in
      let (j, is_power, above, low) =
        doubling-power fuel (r * 2) c (suc k) twice (omega arith) (omega arith) in
      rw more (j, is_power, above, inr (ground arith))
  | inr done ↦ rw done (k, e, ground arith, inl refl)
]

-- The capacity that `normalized_capacity` answers is a power of two, large enough, and less than
-- twice what is asked unless it is the least one, 2.
pub normalized_capacity_lem :
    (c : ℕ)
    → ((j : ℕ) × (normalized_capacity c ≡ 2 ^ suc j))
      × (c ≤ normalized_capacity c)
      × ((normalized_capacity c ≡ 2) ⊎ (normalized_capacity c < 2 * c))
unfolding normalized_capacity
normalized_capacity_lem c =
    let (j, p, q, r) = doubling-power c 2 c 0 refl (omega arith) (omega arith) in ((j, p), q, r)

pub two-le-normalized_capacity : (c : ℕ) → 2 ≤ normalized_capacity c
two-le-normalized_capacity c =
    let ((j, p), _, _) = normalized_capacity_lem c in omega (arith, pow-suc 2 j, pow-pos j)
  where
    pow-pos : (k : ℕ) → 1 ≤ 2 ^ k
    pow-pos zero = omega arith
    pow-pos (suc k) = omega (arith, pow-suc 2 k, pow-pos k)

-- No `int` overflows in the loop for a request of at most 2 ^ 30.
pub normalized_capacity-bound : (c : ℕ) → c ≤ 2 ^ 30 → normalized_capacity c < 2 ^ 31
normalized_capacity-bound c h = let (_, _, r) = normalized_capacity_lem c in ground arith

module _ {A : Type 0} where
  abbrev pub contents : PtrList A → List A
  contents l = take l.size l.slots

  -- What every function of list.c keeps: the allocation is as long as it says, the items fit, and
  -- the two markers follow the size.
  pub record IsValid (l : PtrList A) : Type 0 where
    pub allocated : length l.slots ≡ l.allocatedsize
    pub fits : l.size ≤ l.allocatedsize
    pub room : 2 ≤ l.allocatedsize
    pub at_rear : l.rear ≡ l.size
    pub at_front : l.front ≡ 0

  pub fresh-IsValid :
      (malloc : ℕ → List A) (c : ℕ)
      → 2 ≤ c
      → length (malloc c) ≡ c
      → IsValid (new_list malloc c) × (contents (new_list malloc c) ≡ [])
  unfolding new_list
  fresh-IsValid malloc c h e = (ground arith, refl)

  module _ (null : A) where
    -- `list_reserve` keeps the items, and makes room for as many as are asked for.
    pub list_reserve_lem :
        {l : PtrList A} (c : ℕ)
        → IsValid l
        → IsValid (list_reserve null l c)
          × (contents (list_reserve null l c) ≡ contents l)
          × (c ≤ (list_reserve null l c).allocatedsize)
          × ((list_reserve null l c).size ≡ l.size)
    unfolding list_reserve
    list_reserve_lem {l} c v = elim (Bool-cases (leb c l.allocatedsize)) [
      | inl enough ↦ rw enough (v, refl, ground arith, refl)
      | inr short ↦
          let n = normalized_capacity c in
          let (_, large, _) = normalized_capacity_lem c in
          let fill = replicate n null in
          rw short (
            ground (
              arith,
              two-le-normalized_capacity c,
              length-replicate n null,
              length-move_into fill 0 l.slots l.size,
            ),
            take-move_into fill l.slots l.size (omega arith),
            large,
            refl,
          )
    ]

    make_room_lem :
        {l : PtrList A}
        → IsValid l
        → IsValid (make_room null l)
          × (contents (make_room null l) ≡ contents l)
          × ((make_room null l).size < (make_room null l).allocatedsize)
          × ((make_room null l).size ≡ l.size)
    unfolding make_room resize
    make_room_lem {l} v = elim (Bool-cases (l.size == l.allocatedsize)) [
      | inl full ↦
          let (v', same, large, size) = list_reserve_lem (l.allocatedsize * 2) v in
          rw full (v', same, ground arith, size)
      | inr space ↦ rw space (v, refl, ground arith, refl)
    ]

    -- `push_back` appends the item, growing the array when it is full.
    pub push_back_lem :
        {l : PtrList A} (x : A)
        → IsValid l
        → IsValid (push_back null l x) × (contents (push_back null l x) ≡ contents l ++ (x ∷ []))
    unfolding push_back
    push_back_lem {l} x v =
        let m = make_room null l in
        let (v', same, space, _) = make_room_lem v in
        (
          ground (arith, length-set m.slots m.size x),
          ap (λ k. take k (set m.slots m.size x)) {y = suc m.size} (omega arith)
              ∙ take-set_end m.slots m.size x (omega arith)
              ∙ ap (λ (c : List A). c ++ (x ∷ [])) same,
        )

    -- `push_front` puts the item before the others.
    pub push_front_lem :
        {l : PtrList A} (x : A)
        → IsValid l
        → IsValid (push_front null l x) × (contents (push_front null l x) ≡ x ∷ contents l)
    unfolding push_front
    push_front_lem {l} x v =
        let m = make_room null l in
        let (v', same, space, _) = make_room_lem v in
        (
          ground (
            arith,
            length-move_into m.slots 1 m.slots m.size,
            length-set (move_into m.slots 1 m.slots m.size) 0 x,
          ),
          ap (λ k. take k (set (move_into m.slots 1 m.slots m.size) 0 x)) {y = suc m.size}
                (omega arith)
              ∙ take-set_front m.slots m.size x (omega arith)
              ∙ ap (λ (c : List A). x ∷ c) same,
        )

  -- A list that is not empty has a size that is a successor.
  size-suc : (l : PtrList A) → (l.size == 0) ≡ false → l.size ≡ suc (l.size - 1)
  size-suc l h = ground arith

  contents-suc :
      (l : PtrList A) → (l.size == 0) ≡ false → contents l ≡ take (suc (l.size - 1)) l.slots
  contents-suc l h = ap (λ k. take k l.slots) (size-suc l h)

  contents-empty : (l : PtrList A) → (l.size == 0) ≡ true → contents l ≡ []
  contents-empty l h = ap (λ k. take k l.slots) {y = 0} (ground arith)

  -- `pop` takes the last item off, `peek` shows it, and NULL stands for an empty list.
  pub pop_lem :
      {l : PtrList A}
      → IsValid l
      → IsValid (pop l).1
        × (((pop l).0, contents (pop l).1) ≡ unsnoc (contents l))
        × (peek l ≡ (pop l).0)
  unfolding pop peek
  pop_lem {l} v = elim (Bool-cases (l.size == 0)) [
    | inl empty ↦ rw empty (v, rw (contents-empty l empty), refl)
    | inr rest ↦
        let few : l.size - 1 < length l.slots = ground arith in
        rw rest (
          ground arith,
          sym (rw (contents-suc l rest) (unsnoc-take l.slots (l.size - 1) few)),
          refl,
        )
  ]

  -- `popstart` takes the first item off, and NULL stands for an empty list.
  pub popstart_lem :
      {l : PtrList A}
      → IsValid l
      → IsValid (popstart l).1 × (((popstart l).0, contents (popstart l).1) ≡ uncons (contents l))
  unfolding popstart
  popstart_lem {l} v = elim (Bool-cases (l.size == 0)) [
    | inl empty ↦ rw empty (v, rw (contents-empty l empty))
    | inr rest ↦
        let n = l.size - 1 in
        let few : n < length l.slots = ground arith in
        let one_less : suc n - 1 ≡ n = omega arith in
        rw (rest, size-suc l rest, one_less)
          (
            ground (arith, length-shifted l.slots n),
            rw (take-shifted l.slots n few) (sym (uncons-take l.slots n few)),
          )
  ]

  -- `list_remove` takes out the item at the index, and an index beyond the end changes nothing.
  pub list_remove_lem :
      {l : PtrList A} (i : ℕ)
      → IsValid l
      → IsValid (list_remove l i) × (contents (list_remove l i) ≡ erase_at (contents l) i)
  unfolding list_remove
  list_remove_lem {l} i v = elim (Bool-cases (leb l.size i)) [
    | inl outside ↦
        rw outside
          (v, sym (erase_at-beyond (contents l) i (ground (arith, length-take l.size l.slots))))
    | inr inside ↦
        let n = l.size - 1 in
        let rest : (l.size == 0) ≡ false = ground arith in
        let few : n < length l.slots = ground arith in
        let gap : l.size - i - 1 ≡ n - i = omega arith in
        rw (inside, gap)
          (
            ground (arith, length-closed l.slots i n),
            take-closed l.slots i n (ground arith) few
                ∙ ap (λ c. erase_at c i) (sym (contents-suc l rest)),
          )
  ]
