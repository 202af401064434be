-- ===== src/WindowsServer.antt =====
-- cmd/server-windows/main.go: `ConnectionMonitor`, which logs the server's state.
use share_serial.Base.{
  ℕ, ◌≡◌, Bool, true, false, not, Option, none, some, ltb, if◌then◌else◌, arith, ◌&&◌,
}
use share_serial.Server
use share_serial.Server.{TcpServer}

pub record ConnectionMonitor : Type 0 where
  pub running : Bool
  pub stop_closed : Bool
  pub returned : Bool

unfoldable new_connection_monitor : ConnectionMonitor
new_connection_monitor = record { running = false; stop_closed = false; returned = false }

unfoldable pub start : ConnectionMonitor → ConnectionMonitor
start m = record m { running = true; returned = false }

-- The number of clients and whether the write lock is held.
abbrev pub Status : Type 0
Status = ℕ × Bool

-- A tick of `monitorLoop`, with the status that it logs. `stopChan` ends the loop when it is chosen; the
-- flag tells whether the `select` chooses it, which it can once it is closed.
pub tick : ConnectionMonitor → TcpServer → Bool → ConnectionMonitor × Option Status
unfolding Server.client_count Server.has_write_lock
tick m s stop_chosen =
    if m.returned
    then (m, none)
    else if m.stop_closed && stop_chosen
    then (record m { returned = true }, none)
    else if not m.running
    then (record m { returned = true }, none)
    else if ltb 0 (Server.client_count s)
    then (m, some (Server.client_count s, Server.has_write_lock s))
    else (m, none)

-- `none` is the panic of a second `Stop`.
unfoldable pub stop : ConnectionMonitor → Option ConnectionMonitor
stop m = if m.stop_closed then none else some (record m { running = false; stop_closed = true })

-- After `Stop` the loop logs nothing more and returns, whichever case its `select` chooses.
stop-tick :
    (m n : ConnectionMonitor) (s : TcpServer) (stop_chosen : Bool)
    → stop m ≡ some n
    → ((tick n s stop_chosen).0.returned ≡ true) × ((tick n s stop_chosen).1 ≡ none)
unfolding tick stop
stop-tick m n s stop_chosen h = ground arith
