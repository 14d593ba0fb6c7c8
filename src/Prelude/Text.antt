-- ===== src/Prelude/Text.antt =====
-- C strings as lists of character codes, without the zero byte at the end.
use Prim.Native.Char.{code}
use Prim.Native.String.{String}
use Prim.Native.Nat.{ℕ}
use native.Mathlib.Omega.{arith}
use mathlib.Core.Path.{◌≡◌, refl}
use mathlib.Core.Bool.{Bool, true, false, ◌&&◌}
use mathlib.Core.List.{List, [], ◌∷◌, ◌++◌}
use functional_c.Prelude.{◌==◌}

abbrev pub Text : Type 0
Text = List ℕ

-- The codes of a literal. `String` has its own `[]` and `∷`.
abbrev pub codes : String → Text
codes String.[] = []
codes (String.◌∷◌ c s) = code c ∷ codes s

-- `strcmp(s, t) == 0`
abbrev pub same_text : Text → Text → Bool
same_text [] [] = true
same_text [] (d ∷ t) = false
same_text (c ∷ s) [] = false
same_text (c ∷ s) (d ∷ t) = c == d && same_text s t

-- Every character passes the test.
abbrev pub Every : (ℕ → Bool) → Text → Type 0
Every test [] = Unit
Every test (c ∷ s) = (test c ≡ true) × Every test s

pub Every-append :
    (test : ℕ → Bool) (s t : Text) → Every test s → Every test t → Every test (s ++ t)
Every-append test [] t h k = k
Every-append test (c ∷ s) t h k = (h.0, Every-append test s t h.1 k)

pub Every-mono :
    (test test' : ℕ → Bool) (s : Text)
    → ((c : ℕ) → test c ≡ true → test' c ≡ true)
    → Every test s
    → Every test' s
Every-mono test test' [] imp h = tt
Every-mono test test' (c ∷ s) imp h = (imp c h.0, Every-mono test test' s imp h.1)

abbrev pub all : (ℕ → Bool) → Text → Bool
all test [] = true
all test (c ∷ s) = test c && all test s

and_parts : (a b : Bool) → (a && b) ≡ true → (a ≡ true) × (b ≡ true)
and_parts true b h = (refl, h)
and_parts false b h = absurd (ground arith)

-- For a literal text, by computing.
pub all→Every : (test : ℕ → Bool) (s : Text) → all test s ≡ true → Every test s
all→Every test [] h = tt
all→Every test (c ∷ s) h =
    let (first, rest) = and_parts (test c) (all test s) h in (first, all→Every test s rest)
