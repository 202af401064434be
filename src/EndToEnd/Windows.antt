-- ===== src/EndToEnd/Windows.antt =====
-- cmd/server/main.go and cmd/client-windows/main.go together: from the serial port to the programs on
-- the client's computer and back, through internal/localproxy.
use share_serial.Base.{
  ℕ, ◌≡◌, ◌++◌, ap, ◌∙◌, true, some, Option, List, Text, has, IsDistinct, length, concat,
  concat-append, member, subst,
}
use share_serial.EndToEnd.{broadcasted}
use share_serial.Forward.Bytes.{bytes_to}
use share_serial.LocalProxy.{LocalProxy}
use share_serial.LocalProxy.Passed.{
  AllApart, chunks_to, local_reads, local_reads-bytes, remote_reads-sends, typed,
}
use share_serial.LocalProxy.Replay.{Kept, remote_reads, reads-Kept}
use share_serial.Pump.{Program}
use share_serial.Pump.Clients.{AllFilled, HasRoom, port_reaches_clients}
use share_serial.Server.{TcpServer}
use share_serial.Server.Alone.{MayWrite, serve, serve-serial}
use share_serial.Server.Delivery.{chunks_for}

-- What the serial port gives is sent to the programs on the client's computer. A server that is not
-- stopped, whose goroutine is at its `select` and whose channel has room, reads chunks that are not
-- empty; the client `id` is connected, and its proxy has received the bytes that the server has
-- written to it, in any pieces. Then the goroutines that write to a local connection `c`, which is
-- registered once and stays, were started with the bytes that were written before, those that
-- waited, and the port's, each once and in order, behind those they were started with before; and
-- the proxy's buffer is a first part of all that came, and all of it until it is full.
pub port_to_local :
    (p : Program) (chunks : List Text) (id : Text) (q : LocalProxy) (c : ℕ) (came : Text)
    (pieces : List Text)
    → AllFilled chunks
    → HasRoom p (length chunks)
    → IsDistinct p.server.clients
    → has id p.server.clients ≡ true
    → AllApart q.local_conns
    → member c q.local_conns ≡ true
    → Kept q.remote_buffer came
    → concat pieces ≡ concat (chunks_for id (broadcasted p chunks).outputs)
    → let given = concat (chunks_for id p.server.outputs ++ (p.server.broadcast.queue ++ chunks)) in
      (concat (chunks_to c (remote_reads q pieces).sends) ≡ concat (chunks_to c q.sends) ++ given)
      × Kept (remote_reads q pieces).remote_buffer (came ++ given)
port_to_local p chunks id q c came pieces filled room distinct connected apart registered kept
      same =
    let all =
      same ∙ ap concat (port_reaches_clients p chunks id filled room distinct connected).0 in
    (
      remote_reads-sends q c pieces apart registered
          ∙ ap (λ (t : Text). concat (chunks_to c q.sends) ++ t) all,
      subst (λ (t : Text). Kept (remote_reads q pieces).remote_buffer (came ++ t)) all
          (reads-Kept q came pieces kept),
    )

-- What the programs on the client's computer write reaches the serial port. The proxy has a remote
-- connection, and reads from local connections in some order, with errors between; its server's
-- handler has received the bytes that were written to the remote connection, in any pieces; the
-- server has a port, no other thread does anything, and the lock is the client's or
-- nobody's. Then the port is given, behind what it was given before, what was written before and all
-- that was read, each byte once and in the order of the reads.
pub local_to_port :
    (q : LocalProxy) (r : ℕ) (reads : List (ℕ × Option Text)) (s : TcpServer) (id : Text)
    (w pieces : List Text)
    → q.remote_conn ≡ some r
    → s.serial ≡ some w
    → MayWrite id s
    → concat pieces ≡ bytes_to (local_reads q reads).to_remote
    → (v : List Text) × ((serve s id pieces).serial ≡ some v)
      × (concat v ≡ concat w ++ (bytes_to q.to_remote ++ typed reads))
local_to_port q r reads s id w pieces remote port may same = (
  w ++ pieces,
  serve-serial s id pieces w port may,
  concat-append w pieces
      ∙ ap (λ (t : Text). concat w ++ t) (same ∙ local_reads-bytes q r reads remote),
)
