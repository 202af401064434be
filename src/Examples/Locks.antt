-- ===== src/Examples/Locks.antt =====
-- pkg/arbiter/arbiter.go at concrete inputs.
use share_serial.Base.{ℕ, ◌≡◌, refl, ◌⊎◌, ◌↔◌, false, none, some, [], ◌∷◌, Text, arith}
use share_serial.Arbiter.{
  lock_already_held, Arbiter, new_arbiter, acquire, release, extend_timeout, acquires, releases,
  tick, fires, expires, step, run,
}
use share_serial.Arbiter.Invariant.{Inv, reached-Inv}
use share_serial.Arbiter.Exclusion.{holder, step_refines, held_exclusive, refused_unchanged}
use share_serial.Arbiter.Expiry.{lock_expires, stale_callback}

abbrev alice : Text
alice = 97 ∷ []

abbrev bob : Text
bob = 98 ∷ []

abbrev held : Arbiter
held = run (new_arbiter 30) (acquires alice ∷ [])

step_refines_example : holder (step held (acquires bob)) ≡ some alice
unfolding step run acquire new_arbiter
step_refines_example = step_refines held (acquires bob)

held_exclusive_example :
    (holder (run held (acquires bob ∷ releases bob ∷ tick 40 ∷ [])) ≡ some alice)
    × ((d : Text)
        → acquire (run held (acquires bob ∷ releases bob ∷ tick 40 ∷ [])) d
          ≡ (run held (acquires bob ∷ releases bob ∷ tick 40 ∷ []), false, some lock_already_held))
unfolding step run acquire new_arbiter
held_exclusive_example =
    held_exclusive held alice (acquires bob ∷ releases bob ∷ tick 40 ∷ []) refl
      (tt, ((λ e. ground arith), (tt, tt)))

reached-Inv_example :
    Inv
      (run (new_arbiter 30) (acquires alice ∷ tick 30 ∷ fires 0 ∷ releases alice ∷ expires 0 ∷ []))
reached-Inv_example =
    reached-Inv 30 (acquires alice ∷ tick 30 ∷ fires 0 ∷ releases alice ∷ expires 0 ∷ [])

lock_expires_example :
    (i : ℕ) × (held.expire_timer ≡ some i)
    × ((run held (tick held.timeout ∷ fires i ∷ expires i ∷ [])).locked ≡ false)
unfolding run step acquire new_arbiter
lock_expires_example = lock_expires held (reached-Inv 30 (acquires alice ∷ [])) refl

stale_callback_example :
    let b =
      run
        (new_arbiter 30)
        (acquires alice ∷ tick 31 ∷ fires 0 ∷ releases alice ∷ acquires alice ∷ expires 0 ∷ []) in
    (b.locked ≡ false)
    × (b.runtime.now ≡ 31)
    × (b.runtime.armed ≡ record { id = 1; client = alice; deadline = 61 } ∷ [])
stale_callback_example = stale_callback alice 30 31 (omega arith)

refused_unchanged_example :
    (((acquire held bob).2 ≡ none) ↔ (holder held ≡ none))
    × (((release held bob).1 ≡ none) ↔ (holder held ≡ some bob))
    × (((extend_timeout held bob 5).1 ≡ none) ↔ (holder held ≡ some bob))
    × (((acquire held bob).2 ≡ none) ⊎ ((acquire held bob).0 ≡ held))
    × (((release held bob).1 ≡ none) ⊎ ((release held bob).0 ≡ held))
    × (((extend_timeout held bob 5).1 ≡ none) ⊎ ((extend_timeout held bob 5).0 ≡ held))
refused_unchanged_example = refused_unchanged held bob 5
