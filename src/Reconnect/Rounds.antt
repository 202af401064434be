-- ===== src/Reconnect/Rounds.antt =====
-- internal/reconnect/reconnect.go: how often the goroutine of `AutoReconnect` dials, with its errors
-- received or not.
use share_serial.Channel.{Sent}
use share_serial.Base.{
  ℕ, zero, suc, ◌+◌, ◌<◌, ◌≤◌, ◌≡◌, refl, sym, false, Option, none, some, List, [], ◌∷◌, min,
  if_cases, subst, arith,
}
use share_serial.Channel
use share_serial.Channel.{Sent, sent, blocks, panics}
use share_serial.Reconnect.{
  RetryError, ReconnectManager, AutoReconnect, Loop, dialled, try_reconnect, looping, stuck, ended,
  auto_reconnect, round, receive, loop_round, tried, report, stop, resumed, received_from,
}

-- While the server stays away: a round of the goroutine, whose dial fails if it dials, a receive from
-- the error channel, and `Stop`.
pub data Event : Type 0 where
  rounds receives stops : Event

abbrev stopped : AutoReconnect → AutoReconnect
stopped a = elim (stop a.manager) [ none ↦ a | some m ↦ record a { manager = m } ]

pub step : AutoReconnect → Event → AutoReconnect
unfolding round receive
step a rounds = round a none
step a receives = receive a
step a stops = stopped a

pub run : AutoReconnect → List Event → AutoReconnect
unfolding step
run a [] = a
run a (e ∷ es) = run (step a e) es

-- So many attempts past `start` dials, of which those past the limit did not dial.
abbrev Counted : ℕ → ℕ → ReconnectManager → Type 0
Counted start limit m = (m.max_retry ≡ limit) × (m.dials ≡ start + min m.retry_count limit)

try-Counted :
    (start limit : ℕ) (m : ReconnectManager)
    → 0 < limit
    → Counted start limit m
    → Counted start limit (try_reconnect m none).0
unfolding try_reconnect dialled
try-Counted start limit m h k = ground arith

report-manager :
    (a : AutoReconnect) (e : RetryError) (s : Sent RetryError) → (report a e s).manager ≡ a.manager
unfolding report
report-manager a e (sent ch) = refl
report-manager a e blocks = refl
report-manager a e panics = refl

tried-manager :
    (a : AutoReconnect) (t : ReconnectManager × Option RetryError) → (tried a t).manager ≡ t.0
unfolding tried
tried-manager a (m, none) = refl
tried-manager a (m, some e) =
    report-manager (record a { manager = m }) e (Channel.send a.err_chan e)

resumed-manager : (l : Loop) (a : AutoReconnect) → (resumed l a).manager ≡ a.manager
unfolding resumed
resumed-manager looping a = refl
resumed-manager (stuck e) a =
    report-manager (record a { loop = looping }) e (Channel.send a.err_chan e)
resumed-manager ended a = refl

received_from-manager :
    (queue : List RetryError) (a : AutoReconnect) → (received_from queue a).manager ≡ a.manager
unfolding received_from
received_from-manager [] a = refl
received_from-manager (e ∷ rest) a =
    let ch = a.err_chan in
    resumed-manager a.loop (record a { err_chan = record ch { queue = rest } })

round-Counted :
    (start limit : ℕ) (l : Loop) (a : AutoReconnect)
    → 0 < limit
    → Counted start limit a.manager
    → Counted start limit (loop_round l a none).manager
unfolding loop_round
round-Counted start limit looping a h k =
    if_cases (λ (b : AutoReconnect). Counted start limit b.manager) a.manager.stop_closed _ _
      (λ _. k)
      (λ _.
        if_cases (λ (b : AutoReconnect). Counted start limit b.manager) a.manager.connected _ _
          (λ _. k)
          (λ _.
            let next = try_reconnect a.manager none in
            subst (Counted start limit) (sym (tried-manager a next))
              (try-Counted start limit a.manager h k)))
round-Counted start limit (stuck e) a h k = k
round-Counted start limit ended a h k = k

step-Counted :
    (start limit : ℕ) (a : AutoReconnect) (e : Event)
    → 0 < limit
    → Counted start limit a.manager
    → Counted start limit (step a e).manager
unfolding step round stop
step-Counted start limit a rounds h k = round-Counted start limit a.loop a h k
step-Counted start limit a receives h k = rw (receive, received_from-manager a.err_chan.queue a) k
step-Counted start limit a stops h k = ground arith

run-Counted :
    (start limit : ℕ) (a : AutoReconnect) (es : List Event)
    → 0 < limit
    → Counted start limit a.manager
    → Counted start limit (run a es).manager
unfolding run
run-Counted start limit a [] h k = k
run-Counted start limit a (e ∷ es) h k =
    run-Counted start limit (step a e) es h (step-Counted start limit a e h k)

-- Rounds whose errors are received, each before the next.
pub received_rounds : ℕ → AutoReconnect → AutoReconnect
unfolding round receive
received_rounds zero a = a
received_rounds (suc n) a = received_rounds n (receive (round a none))

abbrev IsRetrying : AutoReconnect → Type 0
IsRetrying a =
    (a.loop ≡ looping)
    × (a.manager.stop_closed ≡ false)
    × (a.manager.connected ≡ false)
    × (a.err_chan ≡ Channel.make 1)

one_round :
    (a : AutoReconnect)
    → IsRetrying a
    → receive (round a none) ≡ record a { manager = (try_reconnect a.manager none).0 }
unfolding round receive received_from resumed loop_round tried report try_reconnect dialled
    Channel.make Channel.send
one_round a r = ground arith

try-IsRetrying :
    (a : AutoReconnect)
    → IsRetrying a
    → IsRetrying (record a { manager = (try_reconnect a.manager none).0 })
unfolding try_reconnect dialled
try-IsRetrying a r = (r.0, ground arith, ground arith, r.3)

one_more : (m : ReconnectManager) → (try_reconnect m none).0.retry_count ≡ m.retry_count + 1
unfolding try_reconnect dialled
one_more m = ground arith

received_rounds-retry_count :
    (n : ℕ) (a : AutoReconnect)
    → IsRetrying a
    → let b = received_rounds n a in
      (b.manager.retry_count ≡ a.manager.retry_count + n) × (b.loop ≡ looping)
unfolding received_rounds
received_rounds-retry_count zero a r = (omega arith, r.0)
received_rounds-retry_count (suc n) a r =
    let next = record a { manager = (try_reconnect a.manager none).0 } in
    let (counted, still) = received_rounds-retry_count n next (try-IsRetrying a r) in
    let once : next.manager.retry_count ≡ a.manager.retry_count + 1 = one_more a.manager in
    rw (received_rounds, one_round a r) (omega (arith, counted, once), still)

received_rounds-Counted :
    (start limit n : ℕ) (a : AutoReconnect)
    → 0 < limit
    → Counted start limit a.manager
    → Counted start limit (received_rounds n a).manager
unfolding received_rounds step
received_rounds-Counted start limit zero a h k = k
received_rounds-Counted start limit (suc n) a h k =
    received_rounds-Counted start limit n (receive (round a none)) h
      (step-Counted start limit (step a rounds) receives h (step-Counted start limit a rounds h k))

-- The goroutine of `AutoReconnect`, started on a disconnected manager that was not stopped, has a limit
-- and no retries behind it, while the server stays away. It dials at most as often as the limit says,
-- whatever order its rounds, the receives of its errors and calls of `Stop` come in; and if it is not
-- stopped and the error of each round is received before the next, it dials in each round up to the
-- limit, no more after that, and never ends.
pub auto_retries_bounded :
    (m : ReconnectManager) (es : List Event) (n : ℕ)
    → 0 < m.max_retry
    → m.retry_count ≡ 0
    → m.stop_closed ≡ false
    → m.connected ≡ false
    → ((run (auto_reconnect m) es).manager.dials ≤ m.dials + m.max_retry)
      × ((received_rounds n (auto_reconnect m)).manager.dials ≡ m.dials + min n m.max_retry)
      × ((received_rounds n (auto_reconnect m)).loop ≡ looping)
unfolding auto_reconnect
auto_retries_bounded m es n h z s d =
    let a = auto_reconnect m in
    let begin : Counted m.dials m.max_retry m = (refl, omega (arith, z)) in
    let all = run-Counted m.dials m.max_retry a es h begin in
    let met = received_rounds-Counted m.dials m.max_retry n a h begin in
    let (count, still) = received_rounds-retry_count n a (refl, s, d, refl) in
    (omega (arith, all.1), omega (arith, met.1, count, z), still)
