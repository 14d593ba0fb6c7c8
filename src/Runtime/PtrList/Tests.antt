-- ===== src/Runtime/PtrList/Tests.antt =====
-- Concrete lists of core/src/list.c, and the theorems at them.
use functional_c.Prelude.{
  ℕ, ◌^◌, ◌<◌, ◌≡◌, refl, List, [], ◌∷◌, arith, length, replicate, none, some, false,
  length-replicate,
}
use functional_c.Runtime.PtrList.{
  PtrList, Pool, normalized_capacity, list_reserve, push_back, push_front, pop, peek, popstart,
  list_remove, init_list_with_capacity, freelist,
}
use functional_c.Runtime.PtrList.Contents.{IsValid, contents, normalized_capacity-bound}
use functional_c.Runtime.PtrList.Refinement.{
  Call, reserving, pushing_back, pushing_front, peeking, popping, popping_start, removing, run,
  run_items, run-run_items,
}
use functional_c.Runtime.PtrList.Pool.{
  IsPool, IsFresh, init_list_with_capacity-IsFresh, freelist-IsPool,
}

-- A full list of two items.
abbrev two_items : PtrList ℕ
two_items = record {
  slots = 7 ∷ 8 ∷ [];
  payload_block = false;
  front = 0;
  rear = 2;
  allocatedsize = 2;
  size = 2;
}

two_items-IsValid : IsValid two_items
two_items-IsValid = record {
  allocated = refl;
  fits = omega arith;
  room = omega arith;
  at_rear = refl;
  at_front = refl;
}

normalized_capacity-bound_example : normalized_capacity 1000 < 2 ^ 31
normalized_capacity-bound_example = normalized_capacity-bound 1000 (omega arith)

five : normalized_capacity 5 ≡ 8
unfolding normalized_capacity
five = refl

-- Items put on at both ends, the array grown, one taken out of the middle, and one off each end.
abbrev calls : List (Call ℕ)
calls =
    pushing_back 9
    ∷ pushing_front 5
    ∷ reserving 20
    ∷ removing 2
    ∷ popping_start
    ∷ peeking
    ∷ popping
    ∷ []

run-run_items_example :
    IsValid (run 0 calls two_items).1
    × (((run 0 calls two_items).0, contents (run 0 calls two_items).1)
        ≡ run_items calls (contents two_items))
run-run_items_example = run-run_items 0 calls two_items-IsValid

-- What the calls answer, and what they leave.
answered :
    run_items calls (contents two_items)
    ≡ (none ∷ none ∷ none ∷ none ∷ some 5 ∷ some 9 ∷ some 9 ∷ [], 7 ∷ [])
answered = refl

-- The array grows to four slots, the new ones zero.
grown : (push_back 0 two_items 9).slots ≡ 7 ∷ 8 ∷ 9 ∷ 0 ∷ []
unfolding push_back functional_c.Runtime.PtrList.resize list_reserve normalized_capacity
grown = refl

abbrev no_pool : Pool ℕ
no_pool = []

no_pool-IsPool : IsPool no_pool
no_pool-IsPool = record { lists = tt; few = omega arith }

abbrev zeros : ℕ → List ℕ
zeros n = replicate n 0

zeros-length : (n : ℕ) → length (zeros n) ≡ n
zeros-length n = length-replicate n 0

freelist-IsPool_example : IsPool (freelist two_items no_pool)
freelist-IsPool_example = freelist-IsPool two_items no_pool two_items-IsValid no_pool-IsPool

init_list_with_capacity-IsFresh_example :
    IsFresh 2
      (freelist two_items no_pool)
      (init_list_with_capacity zeros 2 (freelist two_items no_pool))
init_list_with_capacity-IsFresh_example =
    init_list_with_capacity-IsFresh zeros 2 (freelist two_items no_pool) zeros-length
      freelist-IsPool_example

-- The list comes back from the pool with its old slots.
reused : (init_list_with_capacity zeros 2 (freelist two_items no_pool)).0.slots ≡ 7 ∷ 8 ∷ []
unfolding init_list_with_capacity freelist normalized_capacity
reused = refl
