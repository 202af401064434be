-- ===== src/Reconnect/Retries.antt =====
-- internal/reconnect/reconnect.go: how often the client dials, and what stops it.
use share_serial.Base.{
  ℕ, zero, suc, ◌+◌, ◌<◌, ◌≡◌, ◌⊎◌, inl, inr, true, false, Option, none, some, ◌==◌, min,
  if◌then◌else◌, arith,
}
use share_serial.Reconnect.{
  RetryError, max_retry_exceeded, dial_failed, ReconnectManager, dialled, try_reconnect, looping,
  stuck, auto_reconnect, round, main_select, shut_down,
}

-- `n` attempts in a row whose dial fails.
pub failures : ℕ → ReconnectManager → ReconnectManager
failures zero m = m
failures (suc n) m = failures n (try_reconnect m none).0

failures-dials :
    (n : ℕ) (m : ReconnectManager)
    → 0 < m.max_retry
    → ((failures n m).dials + min m.retry_count m.max_retry
        ≡ m.dials + min (m.retry_count + n) m.max_retry)
      × ((failures n m).retry_count ≡ m.retry_count + n)
      × ((failures n m).max_retry ≡ m.max_retry)
unfolding failures try_reconnect dialled
failures-dials zero m h = omega arith
failures-dials (suc n) m h = ground (arith, failures-dials n (try_reconnect m none).0)

-- With a limit and no retries behind it, attempts in a row that fail dial as often as the limit says and
-- no more; every attempt past the limit fails with its own error, even if the server is back. What
-- keeps the goroutine from an attempt is in Rounds.antt.
pub retries_bounded :
    (n : ℕ) (m : ReconnectManager) (dial : Option ℕ)
    → 0 < m.max_retry
    → m.retry_count ≡ 0
    → ((failures n m).dials ≡ m.dials + min n m.max_retry)
      × ((n < m.max_retry) ⊎ ((try_reconnect (failures n m) dial).1 ≡ some max_retry_exceeded))
unfolding try_reconnect
retries_bounded n m dial h z =
    (omega (arith, failures-dials n m h), ground (arith, failures-dials n m h))

failures-unlimited :
    (n : ℕ) (m : ReconnectManager)
    → m.max_retry ≡ 0
    → ((failures n m).max_retry ≡ 0) × ((failures n m).dials ≡ m.dials + n)
unfolding failures try_reconnect dialled
failures-unlimited zero m h = omega arith
failures-unlimited (suc n) m h = ground (arith, failures-unlimited n (try_reconnect m none).0)

-- A manager that has no retries behind it, after failures that leave attempts or with no limit set,
-- is connected by the first dial that succeeds to what was dialled, with no error, and the count
-- starts anew.
pub reconnects :
    (n c : ℕ) (m : ReconnectManager)
    → m.retry_count ≡ 0
    → (m.max_retry ≡ 0) ⊎ (n < m.max_retry)
    → let (r, err) = try_reconnect (failures n m) (some c) in
      (err ≡ none) × (r.conn ≡ some c) × (r.connected ≡ true) × (r.retry_count ≡ 0)
unfolding try_reconnect dialled
reconnects n c m z (inl none_set) = ground (arith, failures-unlimited n m none_set)
reconnects n c m z (inr left) = ground (arith, failures-dials n m (omega arith))

-- On a disconnected manager that was not stopped and has no retries behind it, the first dial that
-- fails already ends the client: its error is sent whatever attempts are left, and `main` shuts
-- down on any error, while the goroutine is still looping after one attempt.
first_failure_shuts_down :
    (m : ReconnectManager)
    → m.stop_closed ≡ false
    → m.connected ≡ false
    → m.retry_count ≡ 0
    → let a = round (auto_reconnect m) none in
      (main_select a.err_chan ≡ shut_down dial_failed)
      × (a.loop ≡ looping)
      × (a.manager.retry_count ≡ 1)
      × (a.manager.dials ≡ m.dials + 1)
unfolding round main_select auto_reconnect
first_failure_shuts_down m s d z = (ground arith, ground arith, ground arith, ground arith)

-- On a disconnected manager that was not stopped and has no retries behind it, if nobody receives
-- the errors, the second failed attempt blocks the goroutine for good: the next round changes
-- nothing, even if the server is back.
second_failure_blocks :
    (m : ReconnectManager) (dial : Option ℕ)
    → m.stop_closed ≡ false
    → m.connected ≡ false
    → m.retry_count ≡ 0
    → let a = round (round (auto_reconnect m) none) none in
      ((e : RetryError) × (a.loop ≡ stuck e)) × (round a dial ≡ a)
unfolding round auto_reconnect
second_failure_blocks m dial s d z =
    ((if m.max_retry == 1 then max_retry_exceeded else dial_failed, ground arith), ground arith)
