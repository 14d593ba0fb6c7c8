-- ===== src/Planner/StringBuilder/Growth.antt =====
-- core/planner/string_builder.c: how much the buffer grows.
use functional_c.Prelude.{
  ℕ, zero, suc, ◌+◌, ◌*◌, ◌≤◌, ◌<◌, ◌≡◌, refl, ◌⊎◌, inl, inr, ltb, ◌==◌, if◌then◌else◌, Bool-cases,
  arith,
}
use functional_c.Planner.StringBuilder.{grow_to}

-- The loop stops with room enough, and with less than twice what is required if it went on at all.
pub grow_to_lem :
    (fuel next required : ℕ)
    → 1 ≤ next
    → required ≤ next + fuel
    → (required ≤ grow_to fuel next required)
      × ((grow_to fuel next required ≡ next) ⊎ (grow_to fuel next required < 2 * required))
unfolding grow_to
grow_to_lem zero next required h k = (omega arith, inl refl)
grow_to_lem (suc fuel) next required h k = elim (Bool-cases (ltb next required)) [
  | inl more ↦
      let (above, low) = grow_to_lem fuel (next * 2) required (omega arith) (omega arith) in
      rw more (above, inr (ground arith))
  | inr done ↦ rw done (ground arith, inl refl)
]

-- A capacity that is not larger than it has to be.
abbrev pub IsSmall : ℕ → ℕ → Type 0
IsSmall capacity required = (capacity ≤ 256) ⊎ (capacity < 2 * required)

pub IsSmall-mono :
    (capacity required required' : ℕ)
    → required ≤ required'
    → IsSmall capacity required
    → IsSmall capacity required'
IsSmall-mono capacity required required' h (inl few) = inl few
IsSmall-mono capacity required required' h (inr few) = inr (omega arith)

pub IsSmall-grown :
    (first next required : ℕ)
    → (next ≡ first) ⊎ (next < 2 * required)
    → IsSmall first required
    → IsSmall next required
IsSmall-grown first next required (inl same) h = rw same h
IsSmall-grown first next required (inr few) h = inr few

pub IsSmall-first :
    (capacity required : ℕ)
    → IsSmall capacity required
    → IsSmall (if capacity == 0 then 256 else capacity) required
IsSmall-first capacity required h = elim (Bool-cases (capacity == 0)) [
  | inl empty ↦ rw empty (inl (omega arith))
  | inr large ↦ rw large h
]
