-- ===== src/Runtime/PtrList.antt =====
-- core/src/list.c: the growable array of `void *` that every observable keeps its items in, and the
-- pool of released lists. Its operations are definitions here; the children prove what they do.
pub mod Memory
pub mod Contents
pub mod Pool
pub mod Refinement
mod Tests
use functional_c.Prelude.{
  ℕ, zero, suc, ◌+◌, ◌-◌, ◌*◌, Bool, true, false, ◌&&◌, Option, none, some, List, [], ◌∷◌, ◌++◌,
  ltb, leb, ◌==◌, if◌then◌else◌, not, length, take, drop, replicate, set, get_elem?,
}

-- `struct List`. `slots` is the array `data`, as long as the allocation; `payload_block` says
-- whether the pointer of that name is set.
pub record PtrList (A : Type 0) : Type 0 where
  pub slots : List A
  pub payload_block : Bool
  pub front : ℕ
  pub rear : ℕ
  pub allocatedsize : ℕ
  pub size : ℕ

-- `while (result < capacity) result *= 2;`
doubling : ℕ → ℕ → ℕ → ℕ
doubling zero result capacity = result
doubling (suc fuel) result capacity =
    let rest = doubling fuel (result * 2) capacity in if ltb result capacity then rest else result

pub normalized_capacity : ℕ → ℕ
unfolding doubling
normalized_capacity capacity = doubling capacity 2 capacity

-- `memmove(&dst[to], src, n * sizeof(void *))` where `src` is already the source's tail.
-- Nothing outside the `n` slots changes.
abbrev pub move_into : {A : Type 0} → List A → ℕ → List A → ℕ → List A
move_into dst to src n = take to dst ++ (take n src ++ drop (to + n) dst)

-- LIST_POOL_MAX and LIST_POOL_CAPACITY_LIMIT
abbrev pub list_pool_max : ℕ
list_pool_max = 512

abbrev pub list_pool_capacity_limit : ℕ
list_pool_capacity_limit = 8

-- The pool `g_list_pool[0 .. g_list_pool_count)`, its last entry first.
abbrev pub Pool : Type 0 → Type 0
Pool A = List (PtrList A)

-- The scan of `init_list_with_capacity` from the last entry down: the first list that is large
-- enough is taken out, and the last entry moves to its place. `top` is that last entry once the
-- scan has passed it.
module _ {A : Type 0} where
  keep : PtrList A → Option (PtrList A × Pool A) → Option (PtrList A × Pool A)
  keep l none = none
  keep l (some (found, below)) = some (found, l ∷ below)

  find_below : PtrList A → Pool A → ℕ → Option (PtrList A × Pool A)
  unfolding keep
  find_below top [] normalized = none
  find_below top (l ∷ below) normalized =
      if leb normalized l.allocatedsize
      then some (l, top ∷ below)
      else keep l (find_below top below normalized)

  take_pooled : Pool A → ℕ → Option (PtrList A × Pool A)
  unfolding find_below
  take_pooled [] normalized = none
  take_pooled (top ∷ below) normalized =
      if leb normalized top.allocatedsize
      then some (top, below)
      else find_below top below normalized

-- `malloc n` is the contents of `n` fresh slots, which C leaves open; `null` is what `calloc`
-- stores. Neither allocation fails here: list.c does not check for that.
module _ {A : Type 0} (malloc : ℕ → List A) where
  pub new_list : ℕ → PtrList A
  new_list normalized = record {
    slots = malloc normalized;
    payload_block = false;
    front = 0;
    rear = 0;
    allocatedsize = normalized;
    size = 0;
  }

  -- The list in hand after the scan, emptied; a new one if the scan found none.
  obtain : ℕ → Pool A → Option (PtrList A × Pool A) → PtrList A × Pool A
  unfolding new_list
  obtain normalized pool none = (new_list normalized, pool)
  obtain normalized pool (some (l, rest)) =
      (record l { payload_block = false; front = 0; rear = 0; size = 0 }, rest)

  pub init_list_with_capacity : ℕ → Pool A → PtrList A × Pool A
  unfolding obtain take_pooled
  init_list_with_capacity capacity pool =
      let normalized = normalized_capacity capacity in
      obtain normalized pool
        (if leb normalized list_pool_capacity_limit then take_pooled pool normalized else none)

  pub init_list : Pool A → PtrList A × Pool A
  init_list pool = init_list_with_capacity 2 pool

module _ {A : Type 0} (null : A) where
  pub list_reserve : PtrList A → ℕ → PtrList A
  list_reserve l capacity =
      if leb capacity l.allocatedsize then l else grown (normalized_capacity capacity)
    where
      grown : ℕ → PtrList A
      grown newsize = record l {
        slots = move_into (replicate newsize null) 0 l.slots l.size;
        allocatedsize = newsize;
        front = 0;
        rear = l.size;
      }

  pub resize : PtrList A → PtrList A
  resize l = list_reserve l (l.allocatedsize * 2)

  -- The list that `push_back` and `push_front` write into.
  make_room : PtrList A → PtrList A
  make_room l = if l.size == l.allocatedsize then resize l else l

  pub push_back : PtrList A → A → PtrList A
  unfolding make_room
  push_back list item =
      let l = make_room list in
      record l { slots = set l.slots l.size item; size = l.size + 1; rear = l.size + 1 }

  pub push_front : PtrList A → A → PtrList A
  unfolding make_room
  push_front list item =
      let l = make_room list in
      record l {
        slots = set (move_into l.slots 1 l.slots l.size) 0 item;
        size = l.size + 1;
        rear = l.size + 1;
      }

module _ {A : Type 0} where
  -- In the results `none` is the NULL that an empty list gives. A slot beyond the allocation is
  -- read as `none` too: `IsValid` rules that out below `size`.
  pub list_get : PtrList A → ℕ → Option A
  list_get l idx = if l.size == 0 then none else get_elem? l.slots idx

  pub peek : PtrList A → Option A
  peek l = if l.size == 0 then none else get_elem? l.slots (l.size - 1)

  pub pop : PtrList A → Option A × PtrList A
  pop l =
      if l.size == 0
      then (none, l)
      else (get_elem? l.slots (l.size - 1), record l { size = l.size - 1; rear = l.size - 1 })

  pub popstart : PtrList A → Option A × PtrList A
  popstart l = if l.size == 0 then (none, l) else (get_elem? l.slots 0, shifted)
    where
      shifted : PtrList A
      shifted = record l {
        slots = if ltb 1 l.size then move_into l.slots 0 (drop 1 l.slots) (l.size - 1) else l.slots;
        size = l.size - 1;
        rear = l.size - 1;
      }

  pub list_isempty : PtrList A → Bool
  list_isempty l = l.size == 0

  -- An index that is not negative; the source also refuses the others.
  pub list_remove : PtrList A → ℕ → PtrList A
  list_remove l idx = if leb l.size idx then l else shifted
    where
      shifted : PtrList A
      shifted = record l {
        slots =
            if ltb idx (l.size - 1)
            then move_into l.slots idx (drop (idx + 1) l.slots) (l.size - idx - 1)
            else l.slots;
        size = l.size - 1;
        rear = l.size - 1;
      }

  -- What `freelist` does to the pool: the list is kept, or (the pool unchanged) freed.
  pub freelist : PtrList A → Pool A → Pool A
  freelist l pool =
      if not l.payload_block
        && leb l.allocatedsize list_pool_capacity_limit
        && ltb (length pool) list_pool_max
      then record l { front = 0; rear = 0; size = 0 } ∷ pool
      else pool
