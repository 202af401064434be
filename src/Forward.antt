-- ===== src/Forward.antt =====
-- cmd/client/main.go: the two goroutines that pass bytes between the server and the virtual terminal.
-- The terminal is any implementation of the interface `PTYDevice`. The proofs are in the modules below this one.
pub mod Bytes
pub mod Stale
use share_serial.Base.{
  ℕ, zero, suc, ◌+◌, Bool, true, false, not, ◌&&◌, Option, none, some, List, [], ◌∷◌, ◌++◌, Text,
  if◌then◌else◌, ltb,
}
use share_serial.Reconnect
use share_serial.Reconnect.{ReconnectManager}
use share_serial.Pty.{PtyRead, pty_closed, pty_empty, pty_bytes}
use share_serial.Pty.Terminals.{Terminal}

-- The goroutine from the server to the terminal: at the head of its loop, in `Read` on a connection,
-- about to disconnect after an error, or returned.
pub data Reader : Type 0 where
  at_head : Reader
  in_read : ℕ → Reader
  failed : Reader
  reader_ended : Reader

-- What `Read` on the connection gives.
pub data Received : Type 0 where
  end_of_file read_error : Received
  bytes : Text → Received

module _ (T : Terminal) where
  -- `sent` holds the `Write` calls on connections, `printed` counts the errors that were logged.
  pub record Forwarder : Type 0 where
    pub manager : ReconnectManager
    pub device : T.Device
    pub stop_closed : Bool
    pub reader : Reader
    pub error_count : ℕ
    pub printed : ℕ
    pub writer_ended : Bool
    pub sent : List (ℕ × Text)

  pub at_loop_head : Forwarder → Forwarder
  at_loop_head f =
      if f.stop_closed
      then record f { reader = reader_ended }
      else elim f.manager.conn [ none ↦ f | some c ↦ record f { reader = in_read c } ]

  unfoldable pub received : Forwarder → Received → Forwarder
  received f end_of_file = record f { reader = failed }
  received f read_error =
      let few = ltb f.error_count 3 in
      record f {
        reader = failed;
        error_count = if few then f.error_count + 1 else f.error_count;
        printed = if few then f.printed + 1 else f.printed;
      }
  received f (bytes chunk) = record f {
    reader = at_head;
    error_count = 0;
    device = (T.write f.device chunk).0;
  }

  unfoldable pub step_at : Reader → Forwarder → Received → Forwarder
  unfolding at_loop_head received Reconnect.disconnect
  step_at at_head f got = at_loop_head f
  step_at (in_read c) f got = received f got
  step_at failed f got = record f { reader = at_head; manager = Reconnect.disconnect f.manager }
  step_at reader_ended f got = f

  -- A step of the goroutine from the server to the terminal; `got` is what `Read` gives if it returns.
  pub reader_step : Forwarder → Received → Forwarder
  unfolding step_at
  reader_step f got = step_at f.reader f got

  unfoldable pub to_server : Forwarder → Text → Forwarder
  to_server f chunk = elim f.manager.conn [
    | none ↦ f
    | some c ↦ if f.manager.connected then record f { sent = f.sent ++ (c, chunk) ∷ [] } else f
  ]

  unfoldable pub has_read : Forwarder → T.Device × PtyRead → Forwarder
  unfolding to_server
  has_read f (device, pty_closed) = record f { writer_ended = true }
  has_read f (device, pty_empty) = f
  has_read f (device, pty_bytes chunk) = to_server (record f { device = device }) chunk

  -- A round of the goroutine from the terminal to the server; with `stopChan` closed it closes the
  -- terminal and returns.
  unfoldable pub writer_round : Forwarder → Forwarder
  unfolding has_read
  writer_round f =
      if f.writer_ended
      then f
      else if f.stop_closed
      then record f { writer_ended = true; device = T.close f.device }
      else has_read f (T.read f.device 1024)
