-- ===== src/Runtime/PtrList/Memory.antt =====
-- Array facts behind list.c: copies, moves and writes seen through `take`.
use functional_c.Prelude.{
  ℕ, zero, suc, ◌+◌, ◌-◌, ◌≤◌, ◌<◌, ◌≡◌, refl, ap, List, [], ◌∷◌, ◌++◌, arith, length, take, drop,
  set, length-append, length-take, length-drop, get_elem?, Option, none, some, ltb, lt→ltb,
  if◌then◌else◌, Bool-cases, inl, inr,
}
use functional_c.Runtime.PtrList.{move_into}

module _ {A : Type 0} where
  pub take-append_self :
      (n : ℕ) (xs ys : List A) → n ≤ length xs → take n (take n xs ++ ys) ≡ take n xs
  take-append_self zero xs ys h = refl
  take-append_self (suc n) [] ys h = absurd (omega arith)
  take-append_self (suc n) (x ∷ xs) ys h = ap (λ r. x ∷ r) (take-append_self n xs ys (omega arith))

  pub length-move_into :
      (dst : List A) (to : ℕ) (src : List A) (n : ℕ)
      → to + n ≤ length dst
      → n ≤ length src
      → length (move_into dst to src n) ≡ length dst
  length-move_into dst to src n h k = omega (
    arith,
    length-append (take to dst) (take n src ++ drop (to + n) dst),
    length-append (take n src) (drop (to + n) dst),
    length-take to dst,
    length-take n src,
    length-drop (to + n) dst,
  )

  pub take-move_into :
      (dst src : List A) (n : ℕ) → n ≤ length src → take n (move_into dst 0 src n) ≡ take n src
  take-move_into dst src n h = take-append_self n src (drop (0 + n) dst) h

  pub take-set_end :
      (xs : List A) (n : ℕ) (v : A)
      → n < length xs
      → take (suc n) (set xs n v) ≡ take n xs ++ (v ∷ [])
  take-set_end [] n v h = absurd (omega arith)
  take-set_end (x ∷ xs) zero v h = refl
  take-set_end (x ∷ xs) (suc n) v h = ap (λ r. x ∷ r) (take-set_end xs n v (omega arith))

  pub take-set_front :
      (xs : List A) (n : ℕ) (v : A)
      → n < length xs
      → take (suc n) (set (move_into xs 1 xs n) 0 v) ≡ v ∷ take n xs
  take-set_front [] n v h = absurd (omega arith)
  take-set_front (x ∷ xs) n v h =
      ap (λ r. v ∷ r) (take-append_self n (x ∷ xs) (drop (1 + n) (x ∷ xs)) (omega arith))

  pub get_elem?-of_lt : (xs : List A) (n : ℕ) → n < length xs → (v : A) × (get_elem? xs n ≡ some v)
  get_elem?-of_lt [] n h = absurd (omega arith)
  get_elem?-of_lt (x ∷ xs) zero h = (x, refl)
  get_elem?-of_lt (x ∷ xs) (suc n) h = get_elem?-of_lt xs n (omega arith)

  pub take-get_elem? :
      (xs : List A) (n : ℕ) (v : A)
      → get_elem? xs n ≡ some v
      → take (suc n) xs ≡ take n xs ++ (v ∷ [])
  take-get_elem? [] n v h = ground arith
  take-get_elem? (x ∷ xs) zero v h = ground arith
  take-get_elem? (x ∷ xs) (suc n) v h = ap (λ r. x ∷ r) (take-get_elem? xs n v h)

  pub get_elem?-take : (xs : List A) (n i : ℕ) → i < n → get_elem? (take n xs) i ≡ get_elem? xs i
  get_elem?-take xs zero i h = absurd (omega arith)
  get_elem?-take [] (suc n) i h = refl
  get_elem?-take (x ∷ xs) (suc n) zero h = refl
  get_elem?-take (x ∷ xs) (suc n) (suc i) h = get_elem?-take xs n i (omega arith)

  -- A list without the element at an index.
  abbrev pub erase_at : List A → ℕ → List A
  erase_at [] i = []
  erase_at (x ∷ xs) zero = xs
  erase_at (x ∷ xs) (suc i) = x ∷ erase_at xs i

  gap :
      (xs : List A) (i m n w : ℕ)
      → n ≡ i + m
      → w ≡ i + m
      → n < length xs
      → take n (take i xs ++ (take m (drop (suc i) xs) ++ drop w xs)) ≡ erase_at (take (suc n) xs) i
  gap [] i m n w e f h = absurd (omega arith)
  gap (x ∷ xs) zero m n w e f h =
      let same : n ≡ m = omega arith in
      rw same (take-append_self m xs (drop w (x ∷ xs)) (omega arith))
  gap (x ∷ xs) (suc i) m zero w e f h = absurd (omega arith)
  gap (x ∷ xs) (suc i) m (suc n) zero e f h = absurd (omega arith)
  gap (x ∷ xs) (suc i) m (suc n) (suc w) e f h =
      ap (λ r. x ∷ r) (gap xs i m n w (omega arith) (omega arith) (omega arith))

  -- Closing the gap at `i` in the first `suc n` slots.
  pub take-move_into_gap :
      (xs : List A) (i n : ℕ)
      → i ≤ n
      → n < length xs
      → take n (move_into xs i (drop (i + 1) xs) (n - i)) ≡ erase_at (take (suc n) xs) i
  take-move_into_gap xs i n h k =
      let e : i + 1 ≡ suc i = omega arith in
      rw e (gap xs i (n - i) n (i + (n - i)) (omega arith) refl k)

  take-erase_at_end :
      (xs : List A) (n : ℕ) → n < length xs → take n xs ≡ erase_at (take (suc n) xs) n
  take-erase_at_end [] n h = absurd (omega arith)
  take-erase_at_end (x ∷ xs) zero h = refl
  take-erase_at_end (x ∷ xs) (suc n) h = ap (λ r. x ∷ r) (take-erase_at_end xs n (omega arith))

  -- The same where the last of the `suc n` slots needs no move.
  pub take-closed :
      (xs : List A) (i n : ℕ)
      → i ≤ n
      → n < length xs
      → take n (if ltb i n then move_into xs i (drop (i + 1) xs) (n - i) else xs)
        ≡ erase_at (take (suc n) xs) i
  take-closed xs i n h k = elim (Bool-cases (ltb i n)) [
    | inl inside ↦ rw inside (take-move_into_gap xs i n h k)
    | inr last ↦ let e : i ≡ n = ground arith in rw last (rw e (take-erase_at_end xs n k))
  ]

  pub length-closed :
      (xs : List A) (i n : ℕ)
      → i ≤ n
      → n < length xs
      → length (if ltb i n then move_into xs i (drop (i + 1) xs) (n - i) else xs) ≡ length xs
  length-closed xs i n h k =
      ground (arith, length-move_into xs i (drop (i + 1) xs) (n - i), length-drop (i + 1) xs)

  pub take-shifted :
      (xs : List A) (n : ℕ)
      → n < length xs
      → take n (if ltb 1 (suc n) then move_into xs 0 (drop 1 xs) n else xs) ≡ take n (drop 1 xs)
  take-shifted [] n h = absurd (omega arith)
  take-shifted (x ∷ xs) zero h = refl
  take-shifted (x ∷ xs) (suc n) h =
      rw (lt→ltb 1 (suc (suc n)) (omega arith)) (take-move_into (x ∷ xs) xs (suc n) (omega arith))

  pub length-shifted :
      (xs : List A) (n : ℕ)
      → n < length xs
      → length (if ltb 1 (suc n) then move_into xs 0 (drop 1 xs) n else xs) ≡ length xs
  length-shifted xs n h = ground (arith, length-move_into xs 0 (drop 1 xs) n, length-drop 1 xs)

  -- The first, and the last, item of a list beside the others.
  abbrev pub uncons : List A → Option A × List A
  uncons [] = (none, [])
  uncons (x ∷ xs) = (some x, xs)

  abbrev pub behind : A → Option A × List A → Option A × List A
  behind x (o, xs) = (o, x ∷ xs)

  abbrev pub unsnoc : List A → Option A × List A
  unsnoc [] = (none, [])
  unsnoc (x ∷ []) = (some x, [])
  unsnoc (x ∷ y ∷ xs) = behind x (unsnoc (y ∷ xs))

  pub unsnoc-take :
      (xs : List A) (n : ℕ) → n < length xs → unsnoc (take (suc n) xs) ≡ (get_elem? xs n, take n xs)
  unsnoc-take [] n h = absurd (omega arith)
  unsnoc-take (x ∷ xs) zero h = refl
  unsnoc-take (x ∷ []) (suc n) h = absurd (omega arith)
  unsnoc-take (x ∷ y ∷ xs) (suc n) h = ap (behind x) (unsnoc-take (y ∷ xs) n (omega arith))

  pub uncons-take :
      (xs : List A) (n : ℕ)
      → n < length xs
      → uncons (take (suc n) xs) ≡ (get_elem? xs 0, take n (drop 1 xs))
  uncons-take [] n h = absurd (omega arith)
  uncons-take (x ∷ xs) n h = refl

  pub erase_at-beyond : (xs : List A) (i : ℕ) → length xs ≤ i → erase_at xs i ≡ xs
  erase_at-beyond [] i h = refl
  erase_at-beyond (x ∷ xs) zero h = absurd (omega arith)
  erase_at-beyond (x ∷ xs) (suc i) h = ap (λ r. x ∷ r) (erase_at-beyond xs i (omega arith))
