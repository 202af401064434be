-- ===== src/Arbiter/Expiry.antt =====
-- pkg/arbiter/arbiter.go: a lock that nobody releases, and a callback that comes late.
use share_serial.Base.{
  ℕ, ◌+◌, ◌≤◌, ◌≡◌, true, false, some, [], ◌∷◌, Text, text_eq_iff, text_eq_refl, arith,
}
use share_serial.Arbiter.{
  Arbiter, new_runtime, new_arbiter, find, remove, arm, stop_timer, freed, acquire, release, expire,
  acquires, releases, tick, fires, expires, fire, run_callback, step, run,
}
use share_serial.Arbiter.Pending.{Pending, waits, calls, find-id}
use share_serial.Arbiter.Invariant.{Inv}

Pending-frees :
    (a : Arbiter) (i : ℕ)
    → a.locked ≡ true
    → Pending a.runtime i a.owner a.timeout
    → (run a (tick a.timeout ∷ fires i ∷ expires i ∷ [])).locked ≡ false
unfolding run step fire run_callback expire find
Pending-frees a i l (waits t e n h le) =
    ground (arith, find-id i a.runtime.armed t e, text_eq_iff a.owner t.client)
Pending-frees a i l (calls t n e h) = ground (arith, text_eq_iff a.owner t.client)

-- On an arbiter that satisfies the invariant, a held lock has a timer, and once `timeout` has
-- passed that timer and its callback free it with no client's help.
pub lock_expires :
    (a : Arbiter)
    → Inv a
    → a.locked ≡ true
    → (i : ℕ) × (a.expire_timer ≡ some i)
      × ((run a (tick a.timeout ∷ fires i ∷ expires i ∷ [])).locked ≡ false)
lock_expires a v l = let (i, at, p) = v.guarded l in (i, at, Pending-frees a i l p)

-- A callback that waited for the mutex while its client released and took the lock again frees the
-- new hold at once: the timer that was armed for it is still waiting, with its whole time to run.
pub stale_callback :
    (c : Text) (timeout late : ℕ)
    → timeout ≤ late
    → let b =
        run
          (new_arbiter timeout)
          (acquires c ∷ tick late ∷ fires 0 ∷ releases c ∷ acquires c ∷ expires 0 ∷ []) in
      (b.locked ≡ false)
      × (b.runtime.now ≡ late)
      × (b.runtime.armed ≡ record { id = 1; client = c; deadline = late + timeout } ∷ [])
unfolding run step fire run_callback expire find remove acquire release arm freed stop_timer
    new_arbiter new_runtime
stale_callback c timeout late h =
    (ground (arith, text_eq_refl c), ground (arith, text_eq_refl c), ground (arith, text_eq_refl c))
