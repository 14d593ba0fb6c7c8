-- ===== src/Runtime/Sources/Flush.antt =====
-- core/src/observable.c: what `flushOne` lets out.
use functional_c.Prelude.{ℕ, zero, suc, ◌-◌, ◌≡◌, refl, List, [], ◌∷◌, length, arith}
use functional_c.Runtime.PtrList.Memory.{unsnoc}
use functional_c.Runtime.Value.{Value}
use functional_c.Runtime.Observable.{Observable}
use functional_c.Runtime.Sources.{pops, flush, flush_one}

length-unsnoc : (x : Value) (xs : List Value) → length (unsnoc (x ∷ xs)).1 ≡ length xs
length-unsnoc x [] = refl
length-unsnoc x (y ∷ ys) = omega (arith, length-unsnoc y ys)

-- As many pops as there are items behind the first leave the first.
pops-first : (n : ℕ) (x : Value) (xs : List Value) → length xs ≡ n → pops n (x ∷ xs) ≡ x ∷ []
unfolding pops
pops-first zero x [] h = refl
pops-first zero x (y ∷ ys) h = absurd (omega arith)
pops-first (suc n) x [] h = absurd (omega arith)
pops-first (suc n) x (y ∷ ys) h =
    pops-first n x (unsnoc (y ∷ ys)).1 (omega (arith, length-unsnoc y ys))

-- `flushOne` of an observable in which items wait does what `flush` does of it with the first of
-- them alone: whatever its queries and its subscriber, the others are lost.
pub flush_one-flush :
    (blocks : ℕ → ℕ) (o : Observable) (x : Value) (xs : List Value)
    → o.items.items ≡ x ∷ xs
    → flush_one blocks o ≡ flush blocks (record o { items = record o.items { items = x ∷ [] } })
unfolding flush_one flush
flush_one-flush blocks o x xs h =
    let all_but_one : length xs ≡ length (x ∷ xs) - 1 = omega arith in
    rw (h, pops-first (length (x ∷ xs) - 1) x xs all_but_one) refl
