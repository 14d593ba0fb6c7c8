-- ===== src/Runtime/PtrList/Pool.antt =====
-- core/src/list.c: the pool of released lists, `init_list_with_capacity` and `freelist`.
use functional_c.Prelude.{
  ℕ, suc, ◌≤◌, ◌≡◌, refl, ap, inl, inr, List, [], ◌∷◌, arith, length, Option, none, some, false,
  Bool-cases, leb, ltb, not, ◌&&◌, if◌then◌else◌,
}
use functional_c.Runtime.PtrList.{
  PtrList, Pool, list_pool_max, list_pool_capacity_limit, keep, find_below, take_pooled, new_list,
  obtain, normalized_capacity, init_list_with_capacity, freelist,
}
use functional_c.Runtime.PtrList.Contents.{
  IsValid, contents, normalized_capacity_lem, two-le-normalized_capacity, fresh-IsValid,
}

module _ {A : Type 0} where
  -- A list as it lies in the pool: valid, empty, small, and with no block of its own.
  pub record IsPooled (l : PtrList A) : Type 0 where
    pub valid : IsValid l
    pub empty : l.size ≡ 0
    pub small : l.allocatedsize ≤ 8
    pub no_block : l.payload_block ≡ false

  abbrev pub AllPooled : Pool A → Type 0
  AllPooled [] = Unit
  AllPooled (l ∷ pool) = IsPooled l × AllPooled pool

  pub record IsPool (pool : Pool A) : Type 0 where
    pub lists : AllPooled pool
    pub few : length pool ≤ 512

  -- What a scan that finds a list leaves.
  abbrev Taken : ℕ → Pool A → Option (PtrList A × Pool A) → Type 0
  Taken n pool none = Unit
  Taken n pool (some (l, pool')) =
      IsPooled l × (n ≤ l.allocatedsize) × AllPooled pool' × (suc (length pool') ≡ length pool)

  keep-Taken :
      (n : ℕ) (top l : PtrList A) (pool : Pool A) (r : Option (PtrList A × Pool A))
      → IsPooled l
      → Taken n (top ∷ pool) r
      → Taken n (top ∷ l ∷ pool) (keep l r)
  unfolding keep
  keep-Taken n top l pool none h t = tt
  keep-Taken n top l pool (some (found, rest)) h t = (t.0, t.1, (h, t.2), ap suc t.3)

  find_below-Taken :
      (n : ℕ) (top : PtrList A) (pool : Pool A)
      → IsPooled top
      → AllPooled pool
      → Taken n (top ∷ pool) (find_below top pool n)
  unfolding find_below
  find_below-Taken n top [] h t = tt
  find_below-Taken n top (l ∷ pool) h t = elim (Bool-cases (leb n l.allocatedsize)) [
    | inl fit ↦ rw fit (t.0, ground arith, (h, t.1), refl)
    | inr small ↦
        rw small
          (keep-Taken n top l pool (find_below top pool n) t.0 (find_below-Taken n top pool h t.1))
  ]

  take_pooled-Taken : (n : ℕ) (pool : Pool A) → AllPooled pool → Taken n pool (take_pooled pool n)
  unfolding take_pooled
  take_pooled-Taken n [] t = tt
  take_pooled-Taken n (top ∷ pool) t = elim (Bool-cases (leb n top.allocatedsize)) [
    | inl fit ↦ rw fit (t.0, ground arith, t.1, refl)
    | inr small ↦ rw small (find_below-Taken n top pool t.0 t.1)
  ]

  -- What `init_list_with_capacity` promises of its result.
  pub record IsFresh (capacity : ℕ) (pool : Pool A) (r : PtrList A × Pool A) : Type 0 where
    pub valid : IsValid r.0
    pub empty : contents r.0 ≡ []
    pub large : capacity ≤ r.0.allocatedsize
    pub no_block : r.0.payload_block ≡ false
    pub pool_kept : IsPool r.1
    pub one_less : length r.1 ≤ length pool

  obtain-IsFresh :
      (malloc : ℕ → List A) (capacity n : ℕ) (pool : Pool A) (r : Option (PtrList A × Pool A))
      → length (malloc n) ≡ n
      → 2 ≤ n
      → capacity ≤ n
      → IsPool pool
      → Taken n pool r
      → IsFresh capacity pool (obtain malloc n pool r)
  unfolding obtain new_list
  obtain-IsFresh malloc capacity n pool none sized two large p t = record {
    valid = (fresh-IsValid malloc n two sized).0;
    empty = refl;
    large = large;
    no_block = refl;
    pool_kept = p;
    one_less = omega arith;
  }
  obtain-IsFresh malloc capacity n pool (some (l, rest)) sized two large p t =
      let was : IsPooled l = t.0 in
      record {
        valid = ground arith;
        empty = refl;
        large = omega arith;
        no_block = refl;
        pool_kept = record { lists = t.2; few = omega arith };
        one_less = omega arith;
      }

  recycled-Taken :
      (n : ℕ) (pool : Pool A)
      → IsPool pool
      → Taken n pool (if leb n list_pool_capacity_limit then take_pooled pool n else none)
  recycled-Taken n pool p = elim (Bool-cases (leb n list_pool_capacity_limit)) [
    | inl small ↦ rw small (take_pooled-Taken n pool p.lists)
    | inr big ↦ rw big tt
  ]

  -- A list from `init_list_with_capacity` is valid, empty, large enough and without a block,
  -- whether it is new or taken from the pool, and what is left is a pool with no list more.
  pub init_list_with_capacity-IsFresh :
      (malloc : ℕ → List A) (capacity : ℕ) (pool : Pool A)
      → ((n : ℕ) → length (malloc n) ≡ n)
      → IsPool pool
      → IsFresh capacity pool (init_list_with_capacity malloc capacity pool)
  unfolding init_list_with_capacity
  init_list_with_capacity-IsFresh malloc capacity pool sized p =
      let n = normalized_capacity capacity in
      let (_, large, _) = normalized_capacity_lem capacity in
      obtain-IsFresh malloc capacity n pool _ (sized n) (two-le-normalized_capacity capacity) large
        p (recycled-Taken n pool p)

  -- `freelist` keeps the pool's invariant, whatever valid list it is given: it pools a list only if
  -- that is small, has no block, and the pool is not full.
  pub freelist-IsPool :
      (l : PtrList A) (pool : Pool A) → IsValid l → IsPool pool → IsPool (freelist l pool)
  unfolding freelist
  freelist-IsPool l pool v p =
      elim (Bool-cases (
        not l.payload_block
        && leb l.allocatedsize list_pool_capacity_limit
        && ltb (length pool) list_pool_max)) [
          | inl kept ↦ rw kept (ground arith)
          | inr freed ↦ rw freed p
        ]
