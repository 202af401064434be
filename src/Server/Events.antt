-- ===== src/Server/Events.antt =====
-- internal/server/server.go: everything that can happen to a running server, one shared-state action
-- at a time, so that a list of events is an interleaving of its goroutines.
use share_serial.Base.{ℕ, Option, none, some, List, [], ◌∷◌, Text, lookup}
use share_serial.Arbiter
use share_serial.Channel.{Sent, sent, blocks, panics}
use share_serial.Server.{
  Handler, reading, TcpServer, accept, read_result, run_handler, broadcast_round, broadcast_data,
  stop,
}

pub data Event : Type 0 where
  accepts : Text → ℕ → Event
  reads : Text → Option Text → Event
  runs : Text → Event
  lock : Arbiter.Event → Event
  broadcasts : Text → Event
  round : Event
  stops : Event

-- Only a handler that waits in `Read` gets a result from it.
unfoldable pub deliver : TcpServer → Text → Option Text → Option Handler → TcpServer
deliver s id r (some reading) = read_result s id r
deliver s id r _ = s

-- A send that blocks or panics leaves the server as it was.
unfoldable pub after_send : TcpServer → Sent Text → TcpServer
after_send s (sent ch) = record s { broadcast = ch }
after_send s blocks = s
after_send s panics = s

unfoldable pub after_stop : TcpServer → Option TcpServer → TcpServer
after_stop s none = s
after_stop s (some t) = t

unfoldable pub step : TcpServer → Event → TcpServer
unfolding accept deliver read_result run_handler Arbiter.step broadcast_data after_send
    broadcast_round after_stop stop
step s (accepts id conn) = accept s id conn
step s (reads id r) = deliver s id r (lookup id s.handlers)
step s (runs id) = run_handler s id (lookup id s.handlers)
step s (lock e) = record s { arbiter = Arbiter.step s.arbiter e }
step s (broadcasts chunk) = after_send s (broadcast_data s chunk)
step s round = broadcast_round s
step s stops = after_stop s (stop s)

unfoldable pub run : TcpServer → List Event → TcpServer
run s [] = s
run s (e ∷ es) = run (step s e) es
