-- ===== src/EndToEnd.antt =====
-- cmd/server/main.go and cmd/client/main.go together: from the serial port to the virtual terminal and
-- back.
pub mod Windows
use share_serial.Base.{
  ℕ, ◌≡◌, ◌++◌, ap, ◌∙◌, ◌*◌, ◌≤◌, true, some, List, Text, has, IsDistinct, length, concat,
  concat-append,
}
use share_serial.Server.{TcpServer}
use share_serial.Server.Delivery.{chunks_for, broadcast_rounds}
use share_serial.Pump.{Program}
use share_serial.Pump.Clients.{AllFilled, HasRoom, reads, port_reaches_clients}
use share_serial.Forward.{Forwarder}
use share_serial.Pty.Terminals.{Terminal, IsTerminal}
use share_serial.Forward.Bytes.{IsRunning, writer_rounds, bytes_to, forwards_typed}
use share_serial.Server.Alone.{MayWrite, serve, serve-serial}
use share_serial.Forward.Stale.{IsReading, receives, forwards_received}

-- The server after its goroutine has read these chunks and `broadcastLoop` has emptied the channel.
abbrev pub broadcasted : Program → List Text → TcpServer
broadcasted p chunks =
    let s = (reads p chunks).server in broadcast_rounds (length s.broadcast.queue) s

-- What the serial port gives is passed on to the client's user, on any terminal that passes on what is
-- written to it (`IsTerminal`: the stand-in does, and a real terminal does if the system's side of it
-- does). A server that is not stopped, whose goroutine is at its `select` and whose channel has room,
-- reads chunks that are not empty; the client `id` is connected, its goroutine reads the connection,
-- its terminal is open, and it has received the bytes that the server has written to it, in any
-- pieces. Then the terminal has passed on, after its earlier bytes, those that were written before,
-- those that waited, and the port's, each once and in order.
pub port_to_terminal :
    {T : Terminal} (is : IsTerminal T) (p : Program) (chunks : List Text) (id : Text)
    (f : Forwarder T) (c : ℕ) (pieces : List Text)
    → AllFilled chunks
    → HasRoom p (length chunks)
    → IsDistinct p.server.clients
    → has id p.server.clients ≡ true
    → IsReading is f c
    → concat pieces ≡ concat (chunks_for id (broadcasted p chunks).outputs)
    → is.shown (receives is f pieces).device
      ≡ is.shown f.device
        ++ concat (chunks_for id p.server.outputs ++ (p.server.broadcast.queue ++ chunks))
port_to_terminal is p chunks id f c pieces filled room distinct connected reading same =
    forwards_received is f c pieces reading
    ∙ ap (λ (t : Text). is.shown f.device ++ t)
        (same ∙ ap concat (port_reaches_clients p chunks id filled room distinct connected).0)

-- What the user types reaches the serial port, from any terminal whose reads give what was typed
-- (`IsTerminal`: the stand-in's do, and a real terminal's do if the system's side of it does). The
-- client runs with an open terminal and is connected; its server's handler has received the bytes
-- that were sent to it, in any pieces; the server has a port, no other thread does anything, and the
-- lock is the client's or nobody's. Then the port is given, behind what it was given before, what was
-- sent before and all that was typed, each byte once and in order. As many rounds as there are bytes
-- are enough.
pub terminal_to_port :
    {T : Terminal} (is : IsTerminal T) (n : ℕ) (f : Forwarder T) (c : ℕ) (s : TcpServer) (id : Text)
    (w pieces : List Text)
    → IsRunning is f
    → f.manager.conn ≡ some c
    → f.manager.connected ≡ true
    → length (is.typed f.device) ≤ n
    → s.serial ≡ some w
    → MayWrite id s
    → concat pieces ≡ bytes_to (writer_rounds n f).sent
    → (v : List Text) × ((serve s id pieces).serial ≡ some v)
      × (concat v ≡ concat w ++ (bytes_to f.sent ++ is.typed f.device))
terminal_to_port is n f c s id w pieces runs conn connected less port may same = (
  w ++ pieces,
  serve-serial s id pieces w port may,
  concat-append w pieces
      ∙ ap (λ (t : Text). concat w ++ t)
          (same ∙ (forwards_typed is n f c runs conn connected less).0),
)
