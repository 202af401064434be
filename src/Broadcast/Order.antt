-- ===== src/Broadcast/Order.antt =====
-- internal/broadcast/broadcast.go: each send is a goroutine, so chunks may overtake one another.
use share_serial.Base.{
  ℕ, ◌+◌, ◌<◌, ◌≡◌, refl, false, some, [], ◌∷◌, ◌++◌, append_assoc, length-append, Text, length,
  arith, ◌≤◌, ◌∙◌, ap,
}
use share_serial.Channel
use share_serial.Channel.{Channel}
use share_serial.Broadcast.{
  Broadcaster, MockClient, process_round, finish_send, sends_to, nth, without, send,
}

-- A send that finds room puts its chunk behind those that wait.
finish_send_lem :
    (bc : Broadcaster) (i r : ℕ) (chunk : Text)
    → nth i bc.sends ≡ some (r, chunk)
    → (bc.heap r).send_queue.closed ≡ false
    → length (bc.heap r).send_queue.queue < (bc.heap r).send_queue.capacity
    → ((finish_send bc i).sends ≡ without i bc.sends)
      × (((finish_send bc i).heap r).send_queue
          ≡ record ((bc.heap r).send_queue) { queue = (bc.heap r).send_queue.queue ++ chunk ∷ [] })
unfolding finish_send send Channel.send
finish_send_lem bc i r chunk e open_ room = (ground arith, ground arith)

-- One client is registered, and two chunks wait in the input channel.
abbrev pub two_waiting : (ℕ → MockClient) → ℕ → Text → ℕ → Text → Text → Broadcaster
two_waiting heap capacity id r x y = record {
  clients = (id, r) ∷ [];
  input = record { capacity = capacity; queue = x ∷ y ∷ []; closed = false };
  heap = heap;
  sends = [];
}

-- With one client registered whose queue is open and has room for two more, two chunks that were
-- broadcast in one order can reach that queue in the other: only the scheduler orders the two
-- goroutines that send them.
chunks_overtake :
    (heap : ℕ → MockClient) (capacity : ℕ) (id : Text) (r : ℕ) (x y : Text)
    → (heap r).send_queue.closed ≡ false
    → length (heap r).send_queue.queue + 2 ≤ (heap r).send_queue.capacity
    → let bc = two_waiting heap capacity id r x y in
      let late = finish_send (finish_send (process_round (process_round bc)) 1) 0 in
      (late.sends ≡ []) × ((late.heap r).send_queue.queue ≡ (heap r).send_queue.queue ++ y ∷ x ∷ [])
unfolding process_round sends_to nth without
chunks_overtake heap capacity id r x y open_ room =
    let bc = process_round (process_round (two_waiting heap capacity id r x y)) in
    let (sends, queue) = finish_send_lem bc 1 r y refl open_ (omega arith) in
    let (sends', queue') =
      finish_send_lem (finish_send bc 1) 0 r x (rw sends refl) (rw queue open_)
        (rw queue (omega (arith, length-append (heap r).send_queue.queue (y ∷ [])))) in
    (
      sends' ∙ rw sends refl,
      ap (λ (ch : Channel Text). ch.queue) queue'
          ∙ rw queue (append_assoc (heap r).send_queue.queue (y ∷ []) (x ∷ [])),
    )
