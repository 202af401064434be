-- ===== src/Pump/Clients.antt =====
-- From the serial port to the clients.
use share_serial.Base.{
  ℕ, suc, ◌+◌, ◌≤◌, ◌≡◌, refl, sym, ap, ◌∙◌, true, false, none, some, List, [], ◌∷◌, ◌++◌, Text,
  arith, has, IsDistinct, length, length-append, append_assoc, append-nil,
}
use share_serial.Channel
use share_serial.Server
use share_serial.Server.{TcpServer}
use share_serial.Server.Delivery.{chunks_for, broadcast_rounds, rounds-deliver}
use share_serial.Pump.{Program, at_select, step, step_at, has_read, after_broadcast}

-- The goroutine's steps while the port gives these chunks: to the read, to the broadcast, and back.
abbrev pub reads : Program → List Text → Program
reads p [] = p
reads p (chunk ∷ chunks) = reads (step (step (step p none) (some chunk)) none) chunks

abbrev pub AllFilled : List Text → Type 0
AllFilled [] = Unit {0}
AllFilled ([] ∷ chunks) = ⊥
AllFilled ((b ∷ bs) ∷ chunks) = AllFilled chunks

abbrev queued : Program → Text → Program
queued p chunk =
    let s = p.server in
    let ch = s.broadcast in
    record p { server = record s { broadcast = record ch { queue = ch.queue ++ chunk ∷ [] } } }

three_steps :
    (p : Program) (b : ℕ) (bs : Text)
    → p.reader ≡ at_select
    → p.stop_closed ≡ false
    → p.server.broadcast.closed ≡ false
    → suc (length p.server.broadcast.queue) ≤ p.server.broadcast.capacity
    → step (step (step p none) (some (b ∷ bs))) none ≡ queued p (b ∷ bs)
unfolding step step_at has_read after_broadcast Server.broadcast_data Channel.send
three_steps p b bs h s o room = ground arith

-- A goroutine at its `select`, before the server stops, with room for so many chunks in the channel.
abbrev pub HasRoom : Program → ℕ → Type 0
HasRoom p n =
    (p.reader ≡ at_select)
    × (p.stop_closed ≡ false)
    × (p.server.broadcast.closed ≡ false)
    × (n + length p.server.broadcast.queue ≤ p.server.broadcast.capacity)

queued-HasRoom :
    (p : Program) (n : ℕ) (chunk : Text) → HasRoom p (suc n) → HasRoom (queued p chunk) n
queued-HasRoom p n chunk (h, s, o, room) =
    (h, s, o, rw (length-append p.server.broadcast.queue (chunk ∷ [])) (omega arith))

has_place : (m n k : ℕ) → suc m + n ≤ k → suc n ≤ k
has_place m n k h = omega arith

abbrev with_queue : TcpServer → List Text → TcpServer
with_queue s queue = let ch = s.broadcast in record s { broadcast = record ch { queue = queue } }

-- The server with these chunks behind those that wait.
abbrev holding : TcpServer → List Text → TcpServer
holding s chunks =
    let ch = s.broadcast in record s { broadcast = record ch { queue = ch.queue ++ chunks } }

reads-holding :
    (p : Program) (chunks : List Text)
    → AllFilled chunks
    → HasRoom p (length chunks)
    → (reads p chunks).server ≡ holding p.server chunks
reads-holding p [] filled room =
    ap (with_queue p.server) (sym (append-nil p.server.broadcast.queue))
reads-holding p ([] ∷ chunks) filled room = elim filled [ ]
reads-holding p ((b ∷ bs) ∷ chunks) filled room =
    ap (λ q. (reads q chunks).server)
      (three_steps p b bs room.0 room.1 room.2 (
        has_place (length chunks) (length p.server.broadcast.queue) p.server.broadcast.capacity
          room.3))
    ∙ reads-holding (queued p (b ∷ bs)) chunks filled
        (queued-HasRoom p (length chunks) (b ∷ bs) room)
    ∙ ap (with_queue p.server) (append_assoc p.server.broadcast.queue ((b ∷ bs) ∷ []) chunks)

-- What the serial port gives reaches every connected client, each chunk once and in order, after
-- what waits for it, on a server that is not stopped, whose goroutine is at its `select` and whose
-- clients are distinct: chunks that are not empty, as many as the channel has room for, are read
-- and broadcast, and then as many rounds of `broadcastLoop` as chunks wait empty the channel.
pub port_reaches_clients :
    (p : Program) (chunks : List Text) (id : Text)
    → AllFilled chunks
    → HasRoom p (length chunks)
    → IsDistinct p.server.clients
    → has id p.server.clients ≡ true
    → let s = (reads p chunks).server in
      let t = broadcast_rounds (length s.broadcast.queue) s in
      (chunks_for id t.outputs
        ≡ chunks_for id p.server.outputs ++ (p.server.broadcast.queue ++ chunks))
      × (t.broadcast.queue ≡ [])
port_reaches_clients p chunks id filled room distinct connected =
    rw (reads-holding p chunks filled room)
      (rounds-deliver _ (holding p.server chunks) id refl distinct connected)
