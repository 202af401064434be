-- ===== src/Arbiter/Invariant.antt =====
-- pkg/arbiter/arbiter.go: what holds of every arbiter that events can reach.
use share_serial.Base.{
  ℕ, ◌≡◌, refl, subst, inl, inr, Bool, true, false, Option, some, [], Text, text_eq, text_eq_iff,
  if_cases, not, ◌&&◌, leb, ◌==◌, ==_iff, Bool-cases, Option-cases, arith, List,
}
use share_serial.Arbiter.{
  Error, Timer, Arbiter, new_arbiter, find, remove, stop_timer, arm, freed, acquire, release,
  force_release, extend_timeout, expire, Event, acquires, releases, force_releases, extends, tick,
  fires, expires, fire, run_callback, step, run, ◌∷◌,
}
use share_serial.Arbiter.Pending.{
  Pending, IsFresh, find-find_id, Pending-later, Pending-fire, fire-IsFresh, Pending-remove,
  stop_timer-IsFresh, remove-IsFresh, arm_runtime, arm_runtime-IsFresh, arm_runtime-Pending,
  Pending-client,
}

pub record Inv (a : Arbiter) : Type 0 where
  pub fresh : IsFresh a.runtime
  pub free_unowned : a.locked ≡ false → a.owner ≡ []
  pub guarded :
      a.locked ≡ true → (i : ℕ) × (a.expire_timer ≡ some i) × Pending a.runtime i a.owner a.timeout

pub new_arbiter-Inv : (timeout : ℕ) → Inv (new_arbiter timeout)
unfolding new_arbiter find
new_arbiter-Inv timeout = record {
  fresh = record { armed_below = λ i h. refl; fired_below = λ i h. refl };
  free_unowned = λ _. refl;
  guarded = λ h. cc;
}

-- A lock that is armed for its owner satisfies the invariant.
arm-Inv :
    (a : Arbiter) (c : Text) (d : ℕ)
    → IsFresh a.runtime
    → a.locked ≡ true
    → a.owner ≡ c
    → a.timeout ≡ d
    → Inv (arm a c d)
unfolding arm
arm-Inv a c d f l o t =
    let r = stop_timer a.expire_timer a.runtime in
    let f' = stop_timer-IsFresh a.expire_timer a.runtime f in
    record {
      fresh = unfold arm_runtime in arm_runtime-IsFresh r c d f';
      free_unowned = λ h. cc;
      guarded =
          λ h. (r.next_id, refl, rw (o, t) (unfold arm_runtime in arm_runtime-Pending r c d f'));
    }

freed-Inv : (a : Arbiter) → IsFresh a.runtime → Inv (freed a)
unfolding freed
freed-Inv a f = record {
  fresh = stop_timer-IsFresh a.expire_timer a.runtime f;
  free_unowned = λ _. refl;
  guarded = λ h. cc;
}

acquire-Inv : (a : Arbiter) (c : Text) → Inv a → Inv (acquire a c).0
unfolding acquire
acquire-Inv a c v =
    if_cases (λ (r : Arbiter × Bool × Option Error). Inv r.0) a.locked _ _ (λ _. v)
      λ _. arm-Inv (record a { owner = c; locked = true }) c a.timeout v.fresh refl refl refl

release-Inv : (a : Arbiter) (c : Text) → Inv a → Inv (release a c).0
unfolding release
release-Inv a c v =
    if_cases (λ (r : Arbiter × Option Error). Inv r.0) (not a.locked) _ _ (λ _. v)
      λ _.
        if_cases (λ (r : Arbiter × Option Error). Inv r.0) (not (text_eq a.owner c)) _ _ (λ _. v)
          λ _. freed-Inv a v.fresh

force_release-Inv : (a : Arbiter) (c : Text) → Inv a → Inv (force_release a c)
unfolding force_release
force_release-Inv a c v = if_cases Inv (text_eq a.owner c) _ _ (λ _. freed-Inv a v.fresh) (λ _. v)

extend_timeout-Inv : (a : Arbiter) (c : Text) (d : ℕ) → Inv a → Inv (extend_timeout a c d).0
unfolding extend_timeout
extend_timeout-Inv a c d v =
    if_cases (λ (r : Arbiter × Option Error). Inv r.0) (not a.locked) _ _ (λ _. v)
      λ l.
        if_cases (λ (r : Arbiter × Option Error). Inv r.0) (not (text_eq a.owner c)) _ _ (λ _. v)
          λ o.
            arm-Inv (record a { timeout = d }) c d v.fresh (ground arith)
              (ground (arith, text_eq_iff a.owner c)) refl

fire-Inv : (a : Arbiter) (i : ℕ) → Inv a → Inv (fire a (find i a.runtime.armed))
fire-Inv a i v = elim (Option-cases (find i a.runtime.armed)) [
  | inl e ↦ rw e (unfold fire in v)
  | inr (t, e) ↦ rw e (due t (find-find_id i a.runtime.armed t e))
]
  where
    due : (t : Timer) → find t.id a.runtime.armed ≡ some t → Inv (fire a (some t))
    due t e =
        unfold fire in
        if_cases Inv (leb t.deadline a.runtime.now) _ _
          (λ _. record {
            fresh = fire-IsFresh a.runtime t e v.fresh;
            free_unowned = v.free_unowned;
            guarded = λ l.
                let (j, at, p) = v.guarded l in
                (j, at, Pending-fire a.runtime j a.owner a.timeout t e p);
          })
          (λ _. v)

-- A callback that finds its client in possession frees the lock; any other changes nothing.
expire-Inv :
    (a : Arbiter) (t : Timer)
    → find t.id a.runtime.fired ≡ some t
    → Inv a
    → Inv (run_callback a (some t))
unfolding run_callback expire
expire-Inv a t e v =
    if_cases Inv (text_eq a.owner t.client && a.locked) _ _
      (λ _. record { fresh = fresh; free_unowned = λ _. refl; guarded = λ h. cc })
      λ other. record {
        fresh = fresh;
        free_unowned = v.free_unowned;
        guarded = λ l.
            let (j, at, p) = v.guarded l in
            (j, at, Pending-remove a.runtime j t.id a.owner a.timeout (apart j p l other) p);
      }
  where
    fresh : IsFresh (record (a.runtime) { fired = remove t.id a.runtime.fired })
    fresh = remove-IsFresh a.runtime t.id v.fresh

    apart :
        (j : ℕ)
        → Pending a.runtime j a.owner a.timeout
        → a.locked ≡ true
        → (text_eq a.owner t.client && a.locked) ≡ false
        → (t.id == j) ≡ false
    apart j p l spared = elim (Bool-cases (t.id == j)) [
      | inl same ↦ absurd (own j p l spared ((==_iff t.id j).0 same))
      | inr ne ↦ ne
    ]
      where
        own :
            (k : ℕ)
            → Pending a.runtime k a.owner a.timeout
            → a.locked ≡ true
            → (text_eq a.owner t.client && a.locked) ≡ false
            → t.id ≡ k
            → ⊥
        own k q m spared same = ground (
          arith,
          text_eq_iff a.owner t.client,
          Pending-client a.runtime k a.owner a.timeout t
              (subst (λ (i : ℕ). find i a.runtime.fired ≡ some t) same e) q,
        )

callback-Inv : (a : Arbiter) (i : ℕ) → Inv a → Inv (run_callback a (find i a.runtime.fired))
callback-Inv a i v = elim (Option-cases (find i a.runtime.fired)) [
  | inl e ↦ rw e (unfold run_callback in v)
  | inr (t, e) ↦ rw e (expire-Inv a t (find-find_id i a.runtime.fired t e) v)
]

-- Every call, every timer and every callback keeps the invariant.
pub step-Inv : (a : Arbiter) (e : Event) → Inv a → Inv (step a e)
unfolding step
step-Inv a (acquires c) v = acquire-Inv a c v
step-Inv a (releases c) v = release-Inv a c v
step-Inv a (force_releases c) v = force_release-Inv a c v
step-Inv a (extends c d) v = extend_timeout-Inv a c d v
step-Inv a (tick d) v = record {
  fresh = record { armed_below = v.fresh.armed_below; fired_below = v.fresh.fired_below };
  free_unowned = v.free_unowned;
  guarded =
      λ l. let (j, at, p) = v.guarded l in (j, at, Pending-later a.runtime j a.owner a.timeout d p);
}
step-Inv a (fires i) v = fire-Inv a i v
step-Inv a (expires i) v = callback-Inv a i v

pub run-Inv : (a : Arbiter) (es : List Event) → Inv a → Inv (run a es)
unfolding run
run-Inv a [] v = v
run-Inv a (e ∷ es) v = run-Inv (step a e) es (step-Inv a e v)

-- Every arbiter that calls, timers and callbacks lead to from a new one satisfies the invariant: a
-- free lock has no owner, and a held one has a timer that was made for its owner, is due within the
-- timeout, and has fired or has yet to.
pub reached-Inv : (timeout : ℕ) (es : List Event) → Inv (run (new_arbiter timeout) es)
reached-Inv timeout es = run-Inv (new_arbiter timeout) es (new_arbiter-Inv timeout)
