-- ===== src/Planner/StringBuilder.antt =====
-- core/planner/string_builder.c: the growing buffer that the generated code is written into.
pub mod Growth
pub mod Written
pub mod Appended
mod Tests
use functional_c.Prelude.{
  ℕ, zero, suc, ◌+◌, ◌-◌, ◌*◌, Bool, true, false, Option, none, some, List, [], ◌∷◌, ◌++◌, ltb, leb,
  ◌==◌, if◌then◌else◌, ◌⊎◌, inl, inr, length, take,
}
use functional_c.Prelude.Text.{Text}
use functional_c.Runtime.PtrList.{move_into}

-- `bytes` is the allocated array `data`, and empty for the pointer NULL. The sizes are not cut to a
-- `size_t`: the capacity is at most twice what is asked for, or 256.
pub record RxStringBuilder : Type 0 where
  pub bytes : Text
  pub length : ℕ
  pub capacity : ℕ

pub rx_string_builder_init : RxStringBuilder
rx_string_builder_init = record { bytes = []; length = 0; capacity = 0 }

-- Frees the array and starts again.
pub rx_string_builder_reset : RxStringBuilder → RxStringBuilder
unfolding rx_string_builder_init
rx_string_builder_reset builder = rx_string_builder_init

-- `while (next_capacity < required) next_capacity *= 2;`
pub grow_to : ℕ → ℕ → ℕ → ℕ
grow_to zero next_capacity required = next_capacity
grow_to (suc fuel) next_capacity required =
    let rest = grow_to fuel (next_capacity * 2) required in
    if ltb next_capacity required then rest else next_capacity

pub reallocated : RxStringBuilder → ℕ → Option Text → Bool × RxStringBuilder
reallocated builder next_capacity none = (false, builder)
reallocated builder next_capacity (some moved) =
    (true, record builder { bytes = moved; capacity = next_capacity })

-- The bytes of a text and its zero byte, at the end of what is there. `vsnprintf` cuts the text
-- to the room that it is told, where `memcpy` is given the whole text.
pub write : Text → ℕ → Bool × RxStringBuilder → Bool × RxStringBuilder
write copied grown (false, builder) = (false, builder)
write copied grown (true, builder) = (
  true,
  record builder {
    bytes = move_into builder.bytes builder.length (copied ++ (0 ∷ [])) (length copied + 1);
    length = builder.length + grown;
  },
)

-- `realloc n bytes` is the array of `n` bytes that C's `realloc` answers, or none for NULL.
module _ (realloc : ℕ → Text → Option Text) where
  pub rx_string_builder_reserve : RxStringBuilder → ℕ → Bool × RxStringBuilder
  unfolding reallocated grow_to
  rx_string_builder_reserve builder extra =
      let required = builder.length + extra + 1 in
      let first = if builder.capacity == 0 then 256 else builder.capacity in
      let next_capacity = grow_to required first required in
      if leb required builder.capacity
      then (true, builder)
      else reallocated builder next_capacity (realloc next_capacity builder.bytes)

  pub rx_string_builder_append : RxStringBuilder → Text → Bool × RxStringBuilder
  unfolding write rx_string_builder_reserve
  rx_string_builder_append builder text =
      write text (length text) (rx_string_builder_reserve builder (length text))

  -- `output` is all that `vsnprintf` makes of the format and the arguments, none where it fails.
  -- The second call is told the room behind the text, and keeps one byte of it for the zero.
  pub rx_string_builder_append_format : RxStringBuilder → Option Text → Bool × RxStringBuilder
  unfolding write rx_string_builder_reserve
  rx_string_builder_append_format builder none = (false, builder)
  rx_string_builder_append_format builder (some output) =
      let (reserved, grown) = rx_string_builder_reserve builder (length output) in
      write (take (grown.capacity - grown.length - 1) output) (length output) (reserved, grown)

  -- What the generator calls: a fixed text, or a formatted one.
  pub append_piece : RxStringBuilder → Text ⊎ Option Text → Bool × RxStringBuilder
  unfolding rx_string_builder_append rx_string_builder_append_format
  append_piece builder (inl text) = rx_string_builder_append builder text
  append_piece builder (inr output) = rx_string_builder_append_format builder output
