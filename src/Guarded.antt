-- ===== src/Guarded.antt =====
-- An object whose methods hold its mutex from their first line to their return, as those with
-- `mu.Lock()` and `defer mu.Unlock()`: one call at most is inside, and the others wait.
use share_serial.Base.{◌≡◌, refl, Option, none, some, List, [], ◌∷◌, Text, inl, inr, ◌⊎◌, arith}

pub record Guarded (S C : Type 0) : Type 0 where
  pub state : S
  pub inside : Option C

-- A call takes the mutex, the call inside returns, or the device answers it, with data or, for an empty
-- text, with an error.
pub data Event (C : Type 0) : Type 0 where
  enters : C → Event C
  returns : Event C
  delivers : Text → Event C

-- The code under the mutex: `finish` gives the state after a call, `none` if it waits for the device;
-- `deliver` the state after a call that the device wakes.
module _ {S C : Type 0} (finish : S → C → Option S) (deliver : S → C → Text → Option S) where
  unfoldable pub left : Option S → Option (Guarded S C)
  left none = none
  left (some s) = some (record { state = s; inside = none })

  -- `none` says that the event cannot happen.
  unfoldable pub step : Guarded S C → Event C → Option (Guarded S C)
  unfolding left
  step g (enters c) = elim g.inside [ none ↦ some (record g { inside = some c }) | some d ↦ none ]
  step g returns = elim g.inside [ none ↦ none | some c ↦ left (finish g.state c) ]
  step g (delivers chunk) = elim g.inside [ none ↦ none | some c ↦ left (deliver g.state c chunk) ]

  unfoldable pub run : Guarded S C → List (Event C) → Option (Guarded S C)
  unfolding step
  run g [] = some g
  run g (e ∷ es) = elim (step g e) [ none ↦ none | some h ↦ run h es ]

  -- While the call inside waits for the device, nothing can happen before the device answers.
  pub waits :
      (g h : Guarded S C) (c : C) (es : List (Event C))
      → g.inside ≡ some c
      → finish g.state c ≡ none
      → run g es ≡ some h
      → (es ≡ []) ⊎ ((chunk : Text) × (rest : List (Event C)) × (es ≡ delivers chunk ∷ rest))
  unfolding run step left
  waits g h c [] held stuck ran = inl refl
  waits g h c (enters d ∷ es) held stuck ran = ground arith
  waits g h c (returns ∷ es) held stuck ran = ground arith
  waits g h c (delivers chunk ∷ es) held stuck ran = inr (chunk, es, refl)
