-- ===== src/Pump.antt =====
-- cmd/server/main.go and cmd/server-windows/main.go: the goroutine that reads the serial port and
-- broadcasts, and the end of `main`. The proofs are in the modules below this one.
pub mod Clients
pub mod Shutdown
use share_serial.Base.{Bool, true, false, Option, none, some, List, [], ◌∷◌, Text, if◌then◌else◌}
use share_serial.Channel.{Channel, Sent, sent, blocks, panics}
use share_serial.Server
use share_serial.Server.{TcpServer}

-- `readSerialAndBroadcast`: at its `select`, in `Read`, about to broadcast what it read, returned, or
-- in a panic.
pub data Reader : Type 0 where
  at_select : Reader
  in_read : Reader
  broadcasting : Text → Reader
  returned : Reader
  panicked : Reader

pub record Program : Type 0 where
  pub server : TcpServer
  pub stop_closed : Bool
  pub reader : Reader

pub after_broadcast : Program → Sent Text → Program
after_broadcast p (sent ch) =
    let s = p.server in record p { server = record s { broadcast = ch }; reader = at_select }
after_broadcast p blocks = p
after_broadcast p panics = record p { reader = panicked }

-- What `Read` on the port gives: `none` is an error, an empty chunk is `n == 0`.
unfoldable pub has_read : Option Text → Reader
has_read none = at_select
has_read (some []) = at_select
has_read (some (b ∷ bs)) = broadcasting (b ∷ bs)

unfoldable pub step_at : Reader → Program → Option Text → Program
unfolding has_read after_broadcast Server.broadcast_data
step_at at_select p got = record p { reader = if p.stop_closed then returned else in_read }
step_at in_read p got = record p { reader = has_read got }
step_at (broadcasting chunk) p got = after_broadcast p (Server.broadcast_data p.server chunk)
step_at returned p got = p
step_at panicked p got = p

-- A step of the goroutine; `got` is what `Read` gives if it returns.
unfoldable pub step : Program → Option Text → Program
unfolding step_at
step p got = step_at p.reader p got

-- The end of `main`: `close(stopChan)`, which is closed once, and `srv.Stop`; `none` is its panic.
unfoldable pub shut_down : Program → Option Program
unfolding Server.stop
shut_down p = elim (Server.stop p.server) [
  | none ↦ none
  | some s ↦ some (record p { server = s; stop_closed = true })
]
