-- ===== src/Arbiter/Exclusion.antt =====
-- pkg/arbiter/arbiter.go: the lock that clients see, with the timers left out.
use share_serial.Base.{
  [], ◌∷◌, ℕ, ◌≡◌, refl, ◌⊎◌, ◌↔◌, Option, none, some, Text, text_eq, if◌then◌else◌, arith, ◌≢◌,
  List, text_eq_iff, subst, false, text_eq_refl,
}
use share_serial.Arbiter.{
  Arbiter, Event, acquires, releases, force_releases, extends, tick, fires, expires, step, run,
  acquire, release, lock_already_held, extend_timeout, arm, freed, find,
}
use share_serial.Arbiter.Pending.{find-remove}

-- Who holds the lock.
abbrev pub holder : Arbiter → Option Text
holder a = if a.locked then some a.owner else none

-- The lock of the specification: one holder at most.
abbrev pub take_lock : Option Text → Text → Option Text
take_lock none c = some c
take_lock (some o) c = some o

abbrev pub leave_lock : Option Text → Text → Option Text
leave_lock none c = none
leave_lock (some o) c = if text_eq o c then none else some o

-- What an event may do to the lock: only the callback of a timer leaves a choice.
abbrev pub Allowed : Option Text → Event → Option Text → Type 0
Allowed v (acquires c) w = w ≡ take_lock v c
Allowed v (releases c) w = w ≡ leave_lock v c
Allowed v (force_releases c) w = w ≡ leave_lock v c
Allowed v (extends c d) w = w ≡ v
Allowed v (tick d) w = w ≡ v
Allowed v (fires i) w = w ≡ v
Allowed v (expires i) w = (w ≡ v) ⊎ (w ≡ none)

-- Every event moves the lock as the specification of a lock with one holder allows.
pub step_refines : (a : Arbiter) (e : Event) → Allowed (holder a) e (holder (step a e))
unfolding step
step_refines a (acquires c) = ground arith
step_refines a (releases c) = ground arith
step_refines a (force_releases c) = ground arith
step_refines a (extends c d) = ground arith
step_refines a (tick d) = refl
step_refines a (fires i) = ground arith
step_refines a (expires i) = ground arith

-- No release by `c` itself, and no callback of a timer.
abbrev pub Spares : Text → Event → Type 0
Spares c (acquires d) = Unit {0}
Spares c (releases d) = c ≢ d
Spares c (force_releases d) = c ≢ d
Spares c (extends d n) = Unit {0}
Spares c (tick n) = Unit {0}
Spares c (fires i) = Unit {0}
Spares c (expires i) = ⊥

abbrev pub AllSpare : Text → List Event → Type 0
AllSpare c [] = Unit {0}
AllSpare c (e ∷ es) = Spares c e × AllSpare c es

Allowed-held :
    (c : Text) (e : Event) (w : Option Text) → Spares c e → Allowed (some c) e w → w ≡ some c
Allowed-held c (acquires d) w s h = h
Allowed-held c (releases d) w s h = ground (arith, text_eq_iff c d)
Allowed-held c (force_releases d) w s h = ground (arith, text_eq_iff c d)
Allowed-held c (extends d n) w s h = h
Allowed-held c (tick n) w s h = h
Allowed-held c (fires i) w s h = h
Allowed-held c (expires i) w s h = absurd s

held-step :
    (a : Arbiter) (c : Text) (e : Event)
    → holder a ≡ some c
    → Spares c e
    → holder (step a e) ≡ some c
held-step a c e h s =
    Allowed-held c e (holder (step a e)) s
      (subst (λ (v : Option Text). Allowed v e (holder (step a e))) h (step_refines a e))

-- While its holder does not release it and no callback runs, the lock stays with its holder through
-- all other calls, and any further `Acquire`, the holder's own included, is refused.
pub held_exclusive :
    (a : Arbiter) (c : Text) (es : List Event)
    → holder a ≡ some c
    → AllSpare c es
    → (holder (run a es) ≡ some c)
      × ((d : Text) → acquire (run a es) d ≡ (run a es, false, some lock_already_held))
unfolding run acquire
held_exclusive a c [] h s = (h, λ d. ground arith)
held_exclusive a c (e ∷ es) h s = held_exclusive (step a e) c es (held-step a c e h s.0) s.1

-- `Acquire` succeeds exactly on a lock without a holder, `Release` and `ExtendTimeout` exactly for its
-- holder; a call that does not succeed changes nothing.
pub refused_unchanged :
    (a : Arbiter) (c : Text) (d : ℕ)
    → (((acquire a c).2 ≡ none) ↔ (holder a ≡ none))
      × (((release a c).1 ≡ none) ↔ (holder a ≡ some c))
      × (((extend_timeout a c d).1 ≡ none) ↔ (holder a ≡ some c))
      × (((acquire a c).2 ≡ none) ⊎ ((acquire a c).0 ≡ a))
      × (((release a c).1 ≡ none) ⊎ ((release a c).0 ≡ a))
      × (((extend_timeout a c d).1 ≡ none) ⊎ ((extend_timeout a c d).0 ≡ a))
unfolding acquire release extend_timeout
refused_unchanged a c d = (
  (λ h. ground arith, λ h. ground arith),
  (λ h. ground (arith, text_eq_iff a.owner c), λ h. ground (arith, text_eq_iff a.owner c)),
  (λ h. ground (arith, text_eq_iff a.owner c), λ h. ground (arith, text_eq_iff a.owner c)),
  ground arith,
  ground arith,
  ground arith,
)

-- A client that takes a free lock can release it, which leaves the lock free, without an owner, and
-- the timer that was armed for it stopped.
release-acquire :
    (a : Arbiter) (c : Text)
    → a.locked ≡ false
    → let (b, err) = release (acquire a c).0 c in
      (err ≡ none)
      × (b.locked ≡ false)
      × (b.owner ≡ [])
      × (b.expire_timer ≡ some a.runtime.next_id)
      × (find a.runtime.next_id b.runtime.armed ≡ none)
unfolding acquire release arm freed
release-acquire a c l = (
  ground (arith, text_eq_refl c),
  ground (arith, text_eq_refl c),
  ground (arith, text_eq_refl c),
  ground (arith, text_eq_refl c),
  ground (
    arith,
    text_eq_refl c,
    find-remove a.runtime.next_id a.runtime.next_id ((acquire a c).0.runtime.armed),
  ),
)
