-- ===== src/Runtime/Value.antt =====
-- core/src/observable.c and observable.h: the `void *` values that flow through a pipeline.
use functional_c.Prelude.{ℕ, ◌≡◌, Bool, false, ◌==◌, List, [], ◌∷◌}

-- A value is a machine word, or a pointer to a `PairValue`: its address, with the two items that
-- stand there. (How long a block of pairs lives is not part of the model.)
pub data Value : Type 0 where
  word : ℕ → Value
  pair : ℕ → Value → Value → Value

-- What C compares when it compares two `void *`.
abbrev pub address : Value → ℕ
address (word n) = n
address (pair a left right) = a

abbrev pub same_pointer : Value → Value → Bool
same_pointer a b = address a == address b

-- NULL, which is also the integer 0.
abbrev pub null : Value
null = word 0

-- The end marker, `(void *)(long)0XDEADBEEF`.
abbrev pub complete_token : Value
complete_token = word 0xDEADBEEF

abbrev pub is_stream_complete : Value → Bool
is_stream_complete item = address item == 0xDEADBEEF

-- No item of the list is the end marker.
abbrev pub NoToken : List Value → Type 0
NoToken [] = Unit
NoToken (x ∷ xs) = (is_stream_complete x ≡ false) × NoToken xs
