-- ===== src/Arbiter.antt =====
-- pkg/arbiter/arbiter.go: the write lock, its expiry timer, and the part of the Go runtime that runs
-- `time.AfterFunc` callbacks. The proofs are in the modules below this one.
pub mod Pending
pub mod Invariant
pub mod Exclusion
pub mod Expiry
use share_serial.Base.{
  ℕ, suc, ◌+◌, Bool, true, false, not, ◌&&◌, Option, none, some, List, [], ◌∷◌, Text, text_eq, leb,
  ◌==◌, if◌then◌else◌,
}

pub data Error : Type 0 where
  lock_already_held not_lock_owner lock_not_held : Error

-- A call of `time.AfterFunc`: the client that the closure captured, and when it is due.
pub record Timer : Type 0 where
  pub id : ℕ
  pub client : Text
  pub deadline : ℕ

-- `armed` timers have not fired. A `fired` one has started its callback, which may still wait for
-- the mutex: `Stop` no longer reaches it.
pub record Runtime : Type 0 where
  pub now : ℕ
  pub next_id : ℕ
  pub armed : List Timer
  pub fired : List Timer

pub record Arbiter : Type 0 where
  pub owner : Text
  pub timeout : ℕ
  pub expire_timer : Option ℕ
  pub locked : Bool
  pub runtime : Runtime

pub new_runtime : Runtime
new_runtime = record { now = 0; next_id = 0; armed = []; fired = [] }

unfoldable pub new_arbiter : ℕ → Arbiter
unfolding new_runtime
new_arbiter timeout = record {
  owner = [];
  timeout = timeout;
  expire_timer = none;
  locked = false;
  runtime = new_runtime;
}

pub find : ℕ → List Timer → Option Timer
find i [] = none
find i (t ∷ ts) = if t.id == i then some t else find i ts

unfoldable pub remove : ℕ → List Timer → List Timer
remove i [] = []
remove i (t ∷ ts) = let rest = remove i ts in if t.id == i then rest else t ∷ rest

-- `if a.expireTimer != nil { a.expireTimer.Stop() }`
pub stop_timer : Option ℕ → Runtime → Runtime
stop_timer none r = r
stop_timer (some i) r = record r { armed = remove i r.armed }

-- `a.expireTimer = time.AfterFunc(d, …)` behind the stop of the old timer.
unfoldable pub arm : Arbiter → Text → ℕ → Arbiter
unfolding stop_timer
arm a c d =
    let r = stop_timer a.expire_timer a.runtime in
    let t : Timer = record { id = r.next_id; client = c; deadline = r.now + d } in
    record a {
      expire_timer = some r.next_id;
      runtime = record r { next_id = suc r.next_id; armed = t ∷ r.armed };
    }

unfoldable pub acquire : Arbiter → Text → Arbiter × Bool × Option Error
unfolding arm
acquire a c =
    if a.locked
    then (a, false, some lock_already_held)
    else (arm (record a { owner = c; locked = true }) c a.timeout, true, none)

-- Freed, with its timer stopped: the tail of `Release` and of `ForceRelease`.
pub freed : Arbiter → Arbiter
unfolding stop_timer
freed a = record a { locked = false; owner = []; runtime = stop_timer a.expire_timer a.runtime }

unfoldable pub release : Arbiter → Text → Arbiter × Option Error
unfolding freed
release a c =
    if not a.locked
    then (a, some lock_not_held)
    else if not (text_eq a.owner c)
    then (a, some not_lock_owner)
    else (freed a, none)

unfoldable pub force_release : Arbiter → Text → Arbiter
unfolding freed
force_release a c = if text_eq a.owner c then freed a else a

unfoldable pub is_locked : Arbiter → Bool
is_locked a = a.locked

unfoldable pub lock_owner : Arbiter → Text
lock_owner a = a.owner

pub extend_timeout : Arbiter → Text → ℕ → Arbiter × Option Error
unfolding arm
extend_timeout a c d =
    if not a.locked
    then (a, some lock_not_held)
    else if not (text_eq a.owner c)
    then (a, some not_lock_owner)
    else (arm (record a { timeout = d }) c d, none)

-- The body of the timer's closure.
pub expire : Arbiter → Text → Arbiter
expire a c = if text_eq a.owner c && a.locked then record a { locked = false; owner = [] } else a

-- Everything that can happen to an arbiter: a client's call, the passing of time, a due timer that
-- starts its callback, and a callback that gets the mutex.
pub data Event : Type 0 where
  acquires releases force_releases : Text → Event
  extends : Text → ℕ → Event
  tick : ℕ → Event
  fires expires : ℕ → Event

fire : Arbiter → Option Timer → Arbiter
fire a none = a
fire a (some t) =
    let r = a.runtime in
    if leb t.deadline r.now
    then record a { runtime = record r { armed = remove t.id r.armed; fired = t ∷ r.fired } }
    else a

run_callback : Arbiter → Option Timer → Arbiter
unfolding expire
run_callback a none = a
run_callback a (some t) =
    let r = a.runtime in
    expire (record a { runtime = record r { fired = remove t.id r.fired } }) t.client

unfoldable pub step : Arbiter → Event → Arbiter
unfolding acquire release force_release extend_timeout fire run_callback
step a (acquires c) = (acquire a c).0
step a (releases c) = (release a c).0
step a (force_releases c) = force_release a c
step a (extends c d) = (extend_timeout a c d).0
step a (tick d) = let r = a.runtime in record a { runtime = record r { now = r.now + d } }
step a (fires i) = fire a (find i a.runtime.armed)
step a (expires i) = run_callback a (find i a.runtime.fired)

unfoldable pub run : Arbiter → List Event → Arbiter
run a [] = a
run a (e ∷ es) = run (step a e) es
