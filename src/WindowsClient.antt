-- ===== src/WindowsClient.antt =====
-- cmd/client-windows/main.go: `ConnectionManager` and the loop that hands its connection to the local
-- proxy. The proofs are in the modules below this one.
pub mod Retries
pub mod Monitored
use share_serial.Base.{
  ℕ, zero, suc, ◌+◌, Bool, true, false, not, ◌&&◌, Option, none, some, List, [], ◌∷◌, Text, ltb,
  ◌==◌, if◌then◌else◌,
}
use share_serial.LocalProxy
use share_serial.LocalProxy.{LocalProxy}

-- `dials` counts the calls of `net.Dial`. A limit `maxRetry` below 0 means the same as 0.
pub record ConnectionManager : Type 0 where
  pub server_addr : Text
  pub conn : Option ℕ
  pub running : Bool
  pub max_retry : ℕ
  pub stop_closed : Bool
  pub closed_conns : List ℕ
  pub dials : ℕ

unfoldable pub new_connection_manager : Text → ℕ → ConnectionManager
new_connection_manager addr max_retry = record {
  server_addr = addr;
  conn = none;
  running = false;
  max_retry = max_retry;
  stop_closed = false;
  closed_conns = [];
  dials = 0;
}

-- `dial` is what `net.Dial` gives if it is called; the flag tells whether the call succeeded.
unfoldable pub connect : ConnectionManager → Option ℕ → ConnectionManager × Bool
connect m dial = elim m.conn [
  | some c ↦ (m, true)
  | none ↦ elim dial [
    | none ↦ (record m { dials = m.dials + 1 }, false)
    | some c ↦ (record m { conn = some c; dials = m.dials + 1 }, true)
  ]
]

-- The goroutine of `reconnectLoop`: about to look at the manager, about to call `connect`, or returned.
pub data Phase : Type 0 where
  looking connecting ended : Phase

pub record ReconnectLoop : Type 0 where
  pub manager : ConnectionManager
  pub retry_count : ℕ
  pub phase : Phase

unfoldable pub start : ConnectionManager → Option ℕ → ReconnectLoop
unfolding connect
start m dial = record {
  manager = (connect (record m { running = true }) dial).0;
  retry_count = 0;
  phase = looking;
}

pub look : ReconnectLoop → ReconnectLoop
look l =
    let m = l.manager in
    if m.stop_closed
    then record l { phase = ended }
    else if not m.running
    then record l { phase = ended }
    else elim m.conn [
      | some c ↦ l
      | none ↦
          (if ltb 0 m.max_retry && ltb m.max_retry (l.retry_count + 1)
            then record l { retry_count = l.retry_count + 1; phase = ended }
            else record l { retry_count = l.retry_count + 1; phase = connecting })
    ]

pub connected : ReconnectLoop → ConnectionManager × Bool → ReconnectLoop
connected l (m, true) = record l { manager = m; retry_count = 0; phase = looking }
connected l (m, false) = record l { manager = m; phase = looking }

pub step_in : Phase → ReconnectLoop → Option ℕ → ReconnectLoop
unfolding look connect connected
step_in looking l dial = look l
step_in connecting l dial = connected l (connect l.manager dial)
step_in ended l dial = l

-- One step of the goroutine.
unfoldable pub step : ReconnectLoop → Option ℕ → ReconnectLoop
unfolding step_in
step l dial = step_in l.phase l dial

-- The rounds of `WaitForConnection` until its deadline, each with the connection that it sees.
unfoldable wait_for_connection : List (Option ℕ) → Bool
wait_for_connection [] = false
wait_for_connection (none ∷ seen) = wait_for_connection seen
wait_for_connection (some c ∷ seen) = true

unfoldable pub close_conn : Option ℕ → List ℕ → List ℕ
close_conn none closed = closed
close_conn (some c) closed = c ∷ closed

-- `none` is the panic of a second `Stop`.
unfoldable pub stop : ConnectionManager → Option ConnectionManager
unfolding close_conn
stop m =
    if m.stop_closed
    then none
    else some (record m {
      running = false;
      stop_closed = true;
      closed_conns = close_conn m.conn m.closed_conns;
      conn = none;
    })

-- `monitorLoop`, with `lastConn`.
pub record Monitor : Type 0 where
  pub last_conn : Option ℕ
  pub returned : Bool

pub same_conn : Option ℕ → Option ℕ → Bool
same_conn none none = true
same_conn none (some d) = false
same_conn (some c) none = false
same_conn (some c) (some d) = c == d

pub update : Monitor → LocalProxy → Option ℕ → Monitor × LocalProxy
unfolding same_conn LocalProxy.update_remote_connection
update w p none = (w, p)
update w p (some c) =
    if same_conn (some c) w.last_conn
    then (w, p)
    else (record w { last_conn = some c }, LocalProxy.update_remote_connection p c)

-- A round of the loop, which sees the manager's connection.
pub monitor_round : Monitor → LocalProxy → Option ℕ → Monitor × LocalProxy
unfolding update LocalProxy.is_running
monitor_round w p current =
    if w.returned
    then (w, p)
    else if not (LocalProxy.is_running p)
    then (record w { returned = true }, p)
    else update w p current
