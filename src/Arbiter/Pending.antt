-- ===== src/Arbiter/Pending.antt =====
-- pkg/arbiter/arbiter.go: the timers that an arbiter waits for.
use share_serial.Base.{
  ℕ, suc, ◌+◌, ◌≤◌, ◌≡◌, refl, sym, subst, inl, inr, false, Option, none, some, List, [], ◌∷◌, Text,
  ◌==◌, if◌then◌else◌, Bool-cases, arith,
}
use share_serial.Arbiter.{Timer, Runtime, find, remove, stop_timer}

-- Timer `i` was armed for client `c`, is due within `limit`, and has fired or has yet to.
pub data Pending (r : Runtime) (i : ℕ) (c : Text) (limit : ℕ) : Type 0 where
  waits :
      (t : Timer)
      → find i r.armed ≡ some t
      → find i r.fired ≡ none
      → t.client ≡ c
      → t.deadline ≤ r.now + limit
      → Pending r i c limit
  calls :
      (t : Timer)
      → find i r.armed ≡ none
      → find i r.fired ≡ some t
      → t.client ≡ c
      → Pending r i c limit

-- No timer has an id that is still to be given.
pub record IsFresh (r : Runtime) : Type 0 where
  pub armed_below : (i : ℕ) → r.next_id ≤ i → find i r.armed ≡ none
  pub fired_below : (i : ℕ) → r.next_id ≤ i → find i r.fired ≡ none

pub find-remove :
    (i j : ℕ) (ts : List Timer) → find i (remove j ts) ≡ (if j == i then none else find i ts)
unfolding find remove
find-remove i j [] = ground arith
find-remove i j (t ∷ ts) = ground (arith, find-remove i j ts)

pub find-id : (i : ℕ) (ts : List Timer) (t : Timer) → find i ts ≡ some t → t.id ≡ i
unfolding find
find-id i [] t e = cc
find-id i (s ∷ ts) t e = ground (arith, find-id i ts t)

pub find-find_id :
    (i : ℕ) (ts : List Timer) (t : Timer) → find i ts ≡ some t → find t.id ts ≡ some t
find-find_id i ts t e = subst (λ (k : ℕ). find k ts ≡ some t) (sym (find-id i ts t e)) e

pub Pending-later :
    (r : Runtime) (i : ℕ) (c : Text) (limit d : ℕ)
    → Pending r i c limit
    → Pending (record r { now = r.now + d }) i c limit
Pending-later r i c limit d (waits t e n h le) = waits t e n h (omega arith)
Pending-later r i c limit d (calls t n e h) = calls t n e h

-- A timer that fires is still pending, and so is any other.
pub Pending-fire :
    (r : Runtime) (i : ℕ) (c : Text) (limit : ℕ) (s : Timer)
    → find s.id r.armed ≡ some s
    → Pending r i c limit
    → Pending (record r { armed = remove s.id r.armed; fired = s ∷ r.fired }) i c limit
unfolding find
Pending-fire r i c limit s es (waits t e n h le) = elim (Bool-cases (s.id == i)) [
  | inl same ↦
      let e' : s.id ≡ i = ground arith in
      calls s (rw (find-remove, same)) (rw same) (ground (arith, e'))
  | inr other ↦ waits t (rw (find-remove, other) e) (rw other n) h le
]
Pending-fire r i c limit s es (calls t n e h) = elim (Bool-cases (s.id == i)) [
  | inl same ↦ let e' : s.id ≡ i = ground arith in absurd (ground (arith, e'))
  | inr other ↦ calls t (rw (find-remove, other) n) (rw other e) h
]

pub fire-IsFresh :
    (r : Runtime) (s : Timer)
    → find s.id r.armed ≡ some s
    → IsFresh r
    → IsFresh (record r { armed = remove s.id r.armed; fired = s ∷ r.fired })
unfolding find
fire-IsFresh r s e f = record {
  armed_below = λ i h. ground (arith, find-remove i s.id r.armed, f.armed_below i h);
  fired_below = λ i h. ground (arith, f.fired_below i h, f.armed_below i h, e);
}

-- The callback of another timer leaves a timer pending.
pub Pending-remove :
    (r : Runtime) (i j : ℕ) (c : Text) (limit : ℕ)
    → (j == i) ≡ false
    → Pending r i c limit
    → Pending (record r { fired = remove j r.fired }) i c limit
Pending-remove r i j c limit ne (waits t e n h le) = waits t e (rw (find-remove, ne) n) h le
Pending-remove r i j c limit ne (calls t n e h) = calls t n (rw (find-remove, ne) e) h

pub stop_timer-IsFresh : (o : Option ℕ) (r : Runtime) → IsFresh r → IsFresh (stop_timer o r)
unfolding stop_timer
stop_timer-IsFresh none r f = f
stop_timer-IsFresh (some j) r f = record {
  armed_below = λ i h. ground (arith, find-remove i j r.armed, f.armed_below i h);
  fired_below = f.fired_below;
}

pub remove-IsFresh :
    (r : Runtime) (j : ℕ) → IsFresh r → IsFresh (record r { fired = remove j r.fired })
remove-IsFresh r j f = record {
  armed_below = f.armed_below;
  fired_below = λ i h. ground (arith, find-remove i j r.fired, f.fired_below i h);
}

unfoldable pub arm_runtime : Runtime → Text → ℕ → Runtime
arm_runtime r c d =
    let t : Timer = record { id = r.next_id; client = c; deadline = r.now + d } in
    record r { next_id = suc r.next_id; armed = t ∷ r.armed }

pub arm_runtime-IsFresh : (r : Runtime) (c : Text) (d : ℕ) → IsFresh r → IsFresh (arm_runtime r c d)
unfolding arm_runtime find
arm_runtime-IsFresh r c d f = record {
  armed_below = λ i h. ground (arith, f.armed_below i (omega arith));
  fired_below = λ i h. f.fired_below i (omega arith);
}

pub arm_runtime-Pending :
    (r : Runtime) (c : Text) (d : ℕ) → IsFresh r → Pending (arm_runtime r c d) r.next_id c d
unfolding arm_runtime find
arm_runtime-Pending r c d f =
    waits (record { id = r.next_id; client = c; deadline = r.now + d }) (ground arith)
      (f.fired_below r.next_id (omega arith)) refl (omega arith)

-- The callback of the lock's own timer was made for the lock's owner.
pub Pending-client :
    (r : Runtime) (i : ℕ) (c : Text) (limit : ℕ) (t : Timer)
    → find i r.fired ≡ some t
    → Pending r i c limit
    → t.client ≡ c
Pending-client r i c limit t e (waits s f n h le) = cc
Pending-client r i c limit t e (calls s n f h) = ground (arith, h)
