-- ===== src/Runtime/Pipeline/Stages.antt =====
-- One stage of the streaming loop against the `*_apply` function of its query.
use functional_c.Prelude.{
  ◌≡◌, refl, ap, sym, ◌∙◌, Bool, true, false, not, ◌&&◌, Option, none, some, List, [], ◌∷◌,
  Bool-cases, inl, inr,
}
use functional_c.Runtime.Value.{Value, NoToken, same_pointer, is_stream_complete}
use functional_c.Runtime.Query.{
  Query, filter_items, map_items, scan_items, distinct_until_changed_items, skip_while_items,
}
use functional_c.Runtime.Pipeline.{
  CompiledStage, single, chain, Locals, Passed, behind, Streamed, emit, run_item, run_chain,
  stream_items,
}

-- The caller's functions never make the end marker, and the query is one that passes items on.
abbrev pub Passes : Query → Type 0
Passes (Query.filter p) = Unit
Passes (Query.map f) = (v : Value) → is_stream_complete (f v) ≡ false
Passes (Query.scan f accum) = (u v : Value) → is_stream_complete (f u v) ≡ false
Passes (Query.distinct_until_changed f key) = Unit
Passes (Query.skip_while p passed) = Unit
Passes _ = ⊥

-- The stage `s` in front of what the stages behind it left.
abbrev pub under : CompiledStage → Streamed → Streamed
under s r = record r { stages = s ∷ r.stages }

-- The rest of the loop after one item.
abbrev resume : Passed → List Value → Streamed
resume p xs = emit p.2 (stream_items p.0 xs p.1)

pub stream-cons :
    (stages : List CompiledStage) (x : Value) (xs : List Value) (l : Locals)
    → is_stream_complete x ≡ false
    → stream_items stages (x ∷ xs) l ≡ resume (run_item true stages x l) xs
unfolding stream_items
stream-cons stages x xs l h = rw h

emit-under :
    (s : CompiledStage) (v : Option Value) (r : Streamed) → emit v (under s r) ≡ under s (emit v r)
emit-under s none r = refl
emit-under s (some v) r = refl

&&_swap : (a b : Bool) → (b && a) ≡ (a && b)
&&_swap true true = refl
&&_swap true false = refl
&&_swap false true = refl
&&_swap false false = refl

-- An item that a stage passes on: the later items do as `ih` says.
pass_on :
    (s s' : CompiledStage) (p : Passed) (xs out : List Value)
    → ((st : List CompiledStage) (l : Locals)
        → stream_items (s ∷ st) xs l ≡ under s' (stream_items st out l))
    → resume (behind s p) xs ≡ under s' (resume p out)
pass_on s s' p xs out ih = rw (ih p.0 p.1) (emit-under s' p.2 (stream_items p.0 out p.1))

pub stream-nil :
    (stages : List CompiledStage) (l : Locals)
    → stream_items stages [] l
      ≡ record { stages = stages; locals = l; emitted = []; completed = false }
unfolding stream_items
stream-nil stages l = refl

nil_under :
    (s : CompiledStage) (st : List CompiledStage) (l : Locals)
    → stream_items (s ∷ st) [] l ≡ under s (stream_items st [] l)
unfolding stream_items
nil_under s st l = refl

-- What remains to be shown of an item that the stage passes on as `y`.
passing :
    (s s' t : CompiledStage) (st : List CompiledStage) (x y : Value) (xs out : List Value)
    (l : Locals)
    → is_stream_complete x ≡ false
    → is_stream_complete y ≡ false
    → run_item true (s ∷ st) x l ≡ behind t (run_item true st y l)
    → ((st : List CompiledStage) (l : Locals)
        → stream_items (t ∷ st) xs l ≡ under s' (stream_items st out l))
    → stream_items (s ∷ st) (x ∷ xs) l ≡ under s' (stream_items st (y ∷ out) l)
passing s s' t st x y xs out l hx hy step ih =
    stream-cons (s ∷ st) x xs l hx
    ∙ ap (λ p. resume p xs) step
    ∙ pass_on t s' (run_item true st y l) xs out ih
    ∙ sym (ap (under s') (stream-cons st y out l hy))

-- The same of an item that the stage drops.
dropping :
    (s s' : CompiledStage) (st : List CompiledStage) (x : Value) (xs out : List Value) (l : Locals)
    → is_stream_complete x ≡ false
    → run_item true (s ∷ st) x l ≡ (s ∷ st, l, none)
    → stream_items (s ∷ st) xs l ≡ under s' (stream_items st out l)
    → stream_items (s ∷ st) (x ∷ xs) l ≡ under s' (stream_items st out l)
dropping s s' st x xs out l hx step ih =
    stream-cons (s ∷ st) x xs l hx ∙ ap (λ p. resume p xs) step ∙ ih

module _ (f : Value → Value) (clean : (v : Value) → is_stream_complete (f v) ≡ false) where
  pub stream-map :
      (xs : List Value) (st : List CompiledStage) (l : Locals)
      → NoToken xs
      → stream_items (single (Query.map f) ∷ st) xs l
        ≡ under (single (Query.map f)) (stream_items st (map_items f xs) l)
  unfolding map_items run_item
  stream-map [] st l h = nil_under _ st l
  stream-map (x ∷ xs) st l h = rw h.0 (
      passing _ _ _ st x (f x) xs (map_items f xs) l h.0 (clean x) refl
        (λ st l. stream-map xs st l h.1))

  pub map_items-NoToken : (xs : List Value) → NoToken xs → NoToken (map_items f xs)
  unfolding map_items
  map_items-NoToken [] h = tt
  map_items-NoToken (x ∷ xs) h = rw h.0 (clean x, map_items-NoToken xs h.1)

module _ (p : Value → Bool) where
  pub stream-filter :
      (xs : List Value) (st : List CompiledStage) (l : Locals)
      → NoToken xs
      → stream_items (single (Query.filter p) ∷ st) xs l
        ≡ under (single (Query.filter p)) (stream_items st (filter_items p xs) l)
  unfolding filter_items run_item
  stream-filter [] st l h = nil_under _ st l
  stream-filter (x ∷ xs) st l h = elim (Bool-cases (p x)) [
    | inl keep ↦ rw keep (
        passing _ _ _ st x x xs (filter_items p xs) l h.0 h.0 (rw keep)
          (λ st l. stream-filter xs st l h.1))
    | inr drop ↦ rw drop (dropping _ _ st x xs _ l h.0 (rw drop) (stream-filter xs st l h.1))
  ]

  pub filter_items-NoToken : (xs : List Value) → NoToken xs → NoToken (filter_items p xs)
  unfolding filter_items
  filter_items-NoToken [] h = tt
  filter_items-NoToken (x ∷ xs) h = elim (Bool-cases (p x)) [
    | inl keep ↦ rw keep (h.0, filter_items-NoToken xs h.1)
    | inr drop ↦ rw drop (filter_items-NoToken xs h.1)
  ]

module _ (f : Value → Value → Value)
    (clean : (u v : Value) → is_stream_complete (f u v) ≡ false) where
  pub stream-scan :
      (a : Value) (xs : List Value) (st : List CompiledStage) (l : Locals)
      → NoToken xs
      → stream_items (single (Query.scan f a) ∷ st) xs l
        ≡ under
            (single (Query.scan f (scan_items f a xs).0))
            (stream_items st (scan_items f a xs).1 l)
  unfolding scan_items run_item
  stream-scan a [] st l h = nil_under _ st l
  stream-scan a (x ∷ xs) st l h = rw h.0 (
      passing _ _ _ st x (f a x) xs (scan_items f (f a x) xs).1 l h.0 (clean a x) refl
        (λ st l. stream-scan (f a x) xs st l h.1))

  pub scan_items-NoToken :
      (a : Value) (xs : List Value) → NoToken xs → NoToken (scan_items f a xs).1
  unfolding scan_items
  scan_items-NoToken a [] h = tt
  scan_items-NoToken a (x ∷ xs) h = rw h.0 (clean a x, scan_items-NoToken (f a x) xs h.1)

module _ (f : Value → Value) where
  pub stream-distinct_until_changed :
      (key : Value) (xs : List Value) (st : List CompiledStage) (l : Locals)
      → NoToken xs
      → stream_items (single (Query.distinct_until_changed f key) ∷ st) xs l
        ≡ under
            (single (Query.distinct_until_changed f (distinct_until_changed_items f key xs).0))
            (stream_items st (distinct_until_changed_items f key xs).1 l)
  unfolding distinct_until_changed_items run_item
  stream-distinct_until_changed key [] st l h = nil_under _ st l
  stream-distinct_until_changed key (x ∷ xs) st l h = elim (Bool-cases (same_pointer (f x) key)) [
    | inl same ↦
        rw same
          (dropping _ _ st x xs _ l h.0 (rw same) (stream-distinct_until_changed key xs st l h.1))
    | inr new ↦ rw new (
        passing _ _ _ st x x xs _ l h.0 h.0 (rw new)
          (λ st l. stream-distinct_until_changed (f x) xs st l h.1))
  ]

  pub distinct_until_changed_items-NoToken :
      (key : Value) (xs : List Value)
      → NoToken xs
      → NoToken (distinct_until_changed_items f key xs).1
  unfolding distinct_until_changed_items
  distinct_until_changed_items-NoToken key [] h = tt
  distinct_until_changed_items-NoToken key (x ∷ xs) h = elim (Bool-cases (same_pointer (f x) key)) [
    | inl same ↦ rw same (distinct_until_changed_items-NoToken key xs h.1)
    | inr new ↦ rw new (h.0, distinct_until_changed_items-NoToken (f x) xs h.1)
  ]

module _ (p : Value → Bool) where
  pub stream-skip_while :
      (b : Bool) (xs : List Value) (st : List CompiledStage) (l : Locals)
      → NoToken xs
      → stream_items (single (Query.skip_while p b) ∷ st) xs l
        ≡ under
            (single (Query.skip_while p (skip_while_items p b xs).0))
            (stream_items st (skip_while_items p b xs).1 l)
  unfolding skip_while_items run_item
  stream-skip_while b [] st l h = nil_under _ st l
  stream-skip_while b (x ∷ xs) st l h = elim (Bool-cases (p x && not b)) [
    | inl skipped ↦ rw skipped (
        dropping _ _ st x xs _ l h.0 (rw (&&_swap (p x) (not b) ∙ skipped))
          (stream-skip_while b xs st l h.1))
    | inr kept ↦ rw kept (
        passing _ _ _ st x x xs _ l h.0 h.0 (rw (&&_swap (p x) (not b) ∙ kept))
          (λ st l. stream-skip_while true xs st l h.1))
  ]

  pub skip_while_items-NoToken :
      (b : Bool) (xs : List Value) → NoToken xs → NoToken (skip_while_items p b xs).1
  unfolding skip_while_items
  skip_while_items-NoToken b [] h = tt
  skip_while_items-NoToken b (x ∷ xs) h = elim (Bool-cases (p x && not b)) [
    | inl skipped ↦ rw skipped (skip_while_items-NoToken b xs h.1)
    | inr kept ↦ rw kept (h.0, skip_while_items-NoToken true xs h.1)
  ]

-- A joined run of `map`, as a step over whole lists.
abbrev pub AllClean : List (Value → Value) → Type 0
AllClean [] = Unit
AllClean (f ∷ fs) = ((v : Value) → is_stream_complete (f v) ≡ false) × AllClean fs

unfoldable pub chain_items : List (Value → Value) → List Value → List Value
chain_items [] xs = xs
chain_items (f ∷ fs) xs = chain_items fs (map_items f xs)

chain_items-nil : (fs : List (Value → Value)) → chain_items fs [] ≡ []
unfolding chain_items map_items
chain_items-nil [] = refl
chain_items-nil (f ∷ fs) = chain_items-nil fs

run_chain-clean :
    (fs : List (Value → Value)) (v : Value)
    → AllClean fs
    → is_stream_complete v ≡ false
    → is_stream_complete (run_chain fs v) ≡ false
unfolding run_chain
run_chain-clean [] v c h = h
run_chain-clean (f ∷ fs) v c h = run_chain-clean fs (f v) c.1 (c.0 v)

chain_items-cons :
    (fs : List (Value → Value)) (x : Value) (xs : List Value)
    → AllClean fs
    → is_stream_complete x ≡ false
    → chain_items fs (x ∷ xs) ≡ run_chain fs x ∷ chain_items fs xs
unfolding chain_items map_items run_chain
chain_items-cons [] x xs c h = refl
chain_items-cons (f ∷ fs) x xs c h = rw h (chain_items-cons fs (f x) (map_items f xs) c.1 (c.0 x))

pub chain_items-NoToken :
    (fs : List (Value → Value)) (xs : List Value)
    → AllClean fs
    → NoToken xs
    → NoToken (chain_items fs xs)
unfolding chain_items
chain_items-NoToken [] xs c h = h
chain_items-NoToken (f ∷ fs) xs c h =
    chain_items-NoToken fs (map_items f xs) c.1 (map_items-NoToken f c.0 xs h)

pub stream-chain :
    (fs : List (Value → Value)) (xs : List Value) (st : List CompiledStage) (l : Locals)
    → AllClean fs
    → NoToken xs
    → stream_items (chain fs ∷ st) xs l ≡ under (chain fs) (stream_items st (chain_items fs xs) l)
unfolding run_item
stream-chain fs [] st l c h = rw (chain_items-nil fs) (nil_under _ st l)
stream-chain fs (x ∷ xs) st l c h = rw (chain_items-cons fs x xs c h.0) (
    passing _ _ _ st x (run_chain fs x) xs (chain_items fs xs) l h.0 (run_chain-clean fs x c h.0)
      refl (λ st l. stream-chain fs xs st l c h.1))
