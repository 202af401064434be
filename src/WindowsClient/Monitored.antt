-- ===== src/WindowsClient/Monitored.antt =====
-- The connection manager, the monitor and the local proxy together.
use share_serial.Base.{ℕ, ◌≡◌, refl, Option, none, some, List, [], ◌∷◌, Text, arith, ap, ◌∙◌}
use share_serial.LocalProxy
use share_serial.LocalProxy.{LocalProxy}
use share_serial.WindowsClient.{ReconnectLoop, Monitor, step, update, monitor_round, same_conn}
use share_serial.WindowsClient.Retries.{step_keeps}

-- The goroutines of the program and what they share.
pub record Client : Type 0 where
  pub loop : ReconnectLoop
  pub monitor : Monitor
  pub proxy : LocalProxy

-- A step of `reconnectLoop`, a round of `monitorLoop`, a local connection, a read of its handler, and
-- a read of the remote connection; in both reads `none` is an error.
pub data Event : Type 0 where
  loop_steps : Option ℕ → Event
  monitors : Event
  accepts : ℕ → Event
  reads_local : ℕ → Option Text → Event
  reads_remote : Option Text → Event

pub happens : Client → Event → Client
unfolding step monitor_round LocalProxy.accept LocalProxy.handle_local_read LocalProxy.remote_read
happens s (loop_steps dial) = record s { loop = step s.loop dial }
happens s monitors =
    let seen = monitor_round s.monitor s.proxy s.loop.manager.conn in
    record s { monitor = seen.0; proxy = seen.1 }
happens s (accepts c) = record s { proxy = LocalProxy.accept s.proxy c }
happens s (reads_local c chunk) = record s { proxy = LocalProxy.handle_local_read s.proxy c chunk }
happens s (reads_remote chunk) = record s { proxy = LocalProxy.remote_read s.proxy chunk }

pub happen : Client → List Event → Client
unfolding happens
happen s [] = s
happen s (e ∷ es) = happen (happens s e) es

-- All use the connection `c`.
abbrev pub Uses : ℕ → Client → Type 0
Uses c s =
    (s.loop.manager.conn ≡ some c) × (s.monitor.last_conn ≡ some c) × (s.proxy.remote_conn ≡ some c)

monitor-Uses :
    (w : Monitor) (p : LocalProxy) (c : ℕ)
    → w.last_conn ≡ some c
    → p.remote_conn ≡ some c
    → let seen = monitor_round w p (some c) in
      (seen.0.last_conn ≡ some c) × (seen.1.remote_conn ≡ some c)
unfolding monitor_round update same_conn
monitor-Uses w p c h k = ground arith

happens-Uses : (s : Client) (e : Event) (c : ℕ) → Uses c s → Uses c (happens s e)
unfolding happens LocalProxy.accept LocalProxy.handle_local_read LocalProxy.remote_read
happens-Uses s (loop_steps dial) c u =
    (ap (λ m. m.conn) (step_keeps s.loop c dial u.0) ∙ u.0, u.1, u.2)
happens-Uses s monitors c u =
    let kept = monitor-Uses s.monitor s.proxy c u.1 u.2 in rw u.0 (refl, kept.0, kept.1)
happens-Uses s (accepts d) c u = u
happens-Uses s (reads_local d none) c u = u
happens-Uses s (reads_local d (some chunk)) c u = ground arith
happens-Uses s (reads_remote none) c u = u
happens-Uses s (reads_remote (some [])) c u = u
happens-Uses s (reads_remote (some (b ∷ bs))) c u = u

happens-manager :
    (s : Client) (e : Event) (c : ℕ)
    → s.loop.manager.conn ≡ some c
    → (happens s e).loop.manager ≡ s.loop.manager
unfolding happens
happens-manager s (loop_steps dial) c h = step_keeps s.loop c dial h
happens-manager s monitors c h = refl
happens-manager s (accepts d) c h = refl
happens-manager s (reads_local d chunk) c h = refl
happens-manager s (reads_remote chunk) c h = refl

-- Until it is stopped, whatever happens to the connection that the proxy was started with, read errors
-- included, the program keeps to it: the manager, the monitor and the proxy use it after any events, and
-- the manager does not dial again.
pub keeps_connection :
    (s : Client) (c : ℕ) (es : List Event)
    → Uses c s
    → Uses c (happen s es) × ((happen s es).loop.manager ≡ s.loop.manager)
unfolding happen
keeps_connection s c [] u = (u, refl)
keeps_connection s c (e ∷ es) u =
    let rest = keeps_connection (happens s e) c es (happens-Uses s e c u) in
    (rest.0, rest.1 ∙ happens-manager s e c u.0)
