-- ===== src/Server/Delivery.antt =====
-- internal/server/server.go: what `broadcastLoop` writes to each client.
use share_serial.Base.{
  ℕ, zero, suc, ◌≡◌, refl, sym, ap, ◌∙◌, inl, inr, true, false, Option, none, some, List, [], ◌∷◌,
  ◌++◌, append-nil, append_assoc, Text, text_eq, text_eq_iff, Dict, has, IsDistinct,
  insert-IsDistinct, delete-IsDistinct, lookup, Bool-cases, length, if◌then◌else◌, arith,
}
use share_serial.Server.{
  TcpServer, Handler, reading, testing, acquiring, retrying, checking, writing, gone, advance,
  read_result, run_handler, started, writes_to, broadcast_round, stop, broadcast_data,
}
use share_serial.Server.Events.{
  Event, accepts, reads, runs, lock, broadcasts, round, stops, deliver, after_send, after_stop,
  step, run,
}

-- The chunks written to one client, in order.
unfoldable pub chunks_for : Text → List (Text × Text) → List Text
chunks_for id [] = []
chunks_for id ((j, c) ∷ w) = if text_eq j id then c ∷ chunks_for id w else chunks_for id w

pub chunks_for-append :
    (id : Text) (v w : List (Text × Text))
    → chunks_for id (v ++ w) ≡ chunks_for id v ++ chunks_for id w
unfolding chunks_for
chunks_for-append id [] w = refl
chunks_for-append id ((j, c) ∷ v) w = ground (arith, chunks_for-append id v w)

pub chunks_for_absent :
    (id c : Text) (m : Dict ℕ) → has id m ≡ false → chunks_for id (writes_to m c) ≡ []
unfolding chunks_for writes_to
chunks_for_absent id c [] h = refl
chunks_for_absent id c ((j, n) ∷ m) h = ground (arith, chunks_for_absent id c m)

pub chunks_for_round :
    (id c : Text) (m : Dict ℕ)
    → IsDistinct m
    → has id m ≡ true
    → chunks_for id (writes_to m c) ≡ c ∷ []
unfolding chunks_for writes_to
chunks_for_round id c [] d h = cc
chunks_for_round id c ((j, n) ∷ m) d h =
    ground (arith, text_eq_iff j id, chunks_for_absent id c m, chunks_for_round id c m d.1)

-- The rounds of the loop, while no client comes or goes.
unfoldable pub broadcast_rounds : ℕ → TcpServer → TcpServer
broadcast_rounds zero s = s
broadcast_rounds (suc n) s = broadcast_rounds n (broadcast_round s)

round-delivers :
    (c : Text) (q : List Text) (s : TcpServer) (id : Text)
    → s.broadcast.queue ≡ c ∷ q
    → IsDistinct s.clients
    → has id s.clients ≡ true
    → ((broadcast_round s).broadcast.queue ≡ q)
      × ((broadcast_round s).clients ≡ s.clients)
      × (chunks_for id (broadcast_round s).outputs ≡ chunks_for id s.outputs ++ c ∷ [])
unfolding broadcast_round
round-delivers c q s id e d h =
    rw (e, broadcast_round)
      (
        refl,
        refl,
        chunks_for-append id s.outputs (writes_to s.clients c)
            ∙ ap (λ (w : List Text). chunks_for id s.outputs ++ w)
                (chunks_for_round id c s.clients d h),
      )

pub rounds-deliver :
    (q : List Text) (s : TcpServer) (id : Text)
    → s.broadcast.queue ≡ q
    → IsDistinct s.clients
    → has id s.clients ≡ true
    → (chunks_for id (broadcast_rounds (length q) s).outputs ≡ chunks_for id s.outputs ++ q)
      × ((broadcast_rounds (length q) s).broadcast.queue ≡ [])
unfolding broadcast_rounds
rounds-deliver [] s id e d h = (sym (append-nil _), e)
rounds-deliver (c ∷ q) s id e d h =
    let (queue, same, chunks) = round-delivers c q s id e d h in
    let (all, empty) = rounds-deliver q (broadcast_round s) id queue (rw same d) (rw same h) in
    (all ∙ rw (chunks, append_assoc) refl, empty)

clients-advance : (s : TcpServer) (id : Text) (h : Handler) → (advance s id h).0.clients ≡ s.clients
unfolding advance
clients-advance s id reading = refl
clients-advance s id (testing c) = refl
clients-advance s id (acquiring c) = refl
clients-advance s id (retrying zero c) = refl
clients-advance s id (retrying (suc k) c) = refl
clients-advance s id (checking c) = ground arith
clients-advance s id (writing c) = ground arith
clients-advance s id gone = refl

clients-run_handler :
    (s : TcpServer) (id : Text) (h : Option Handler) → (run_handler s id h).clients ≡ s.clients
unfolding run_handler
clients-run_handler s id none = refl
clients-run_handler s id (some h) = clients-advance s id h

read_result-IsDistinct :
    (s : TcpServer) (id : Text) (r : Option Text)
    → IsDistinct s.clients
    → IsDistinct (read_result s id r).clients
unfolding read_result
read_result-IsDistinct s id none d = delete-IsDistinct id s.clients d
read_result-IsDistinct s id (some []) d = d
read_result-IsDistinct s id (some (b ∷ bs)) d = d

deliver-IsDistinct :
    (s : TcpServer) (id : Text) (r : Option Text) (h : Option Handler)
    → IsDistinct s.clients
    → IsDistinct (deliver s id r h).clients
unfolding deliver
deliver-IsDistinct s id r none d = d
deliver-IsDistinct s id r (some reading) d = read_result-IsDistinct s id r d
deliver-IsDistinct s id r (some _) d = d

clients-after_send :
    (s : TcpServer) (c : Text) → (after_send s (broadcast_data s c)).clients ≡ s.clients
unfolding after_send broadcast_data
clients-after_send s c = ground arith

clients-round : (s : TcpServer) → (broadcast_round s).clients ≡ s.clients
unfolding broadcast_round
clients-round s = ground arith

clients_of_stop :
    (s : TcpServer) → IsDistinct s.clients → IsDistinct (after_stop s (stop s)).clients
unfolding after_stop stop
clients_of_stop s d = elim (Bool-cases s.running) [
  | inr off ↦ rw off d
  | inl on ↦ elim (Bool-cases s.broadcast.closed) [
    | inl shut ↦ rw (on, shut) d
    | inr open_ ↦ rw (on, open_) tt
  ]
]

step-IsDistinct : (s : TcpServer) (e : Event) → IsDistinct s.clients → IsDistinct (step s e).clients
unfolding step
step-IsDistinct s (accepts id conn) d = insert-IsDistinct id conn s.clients d
step-IsDistinct s (reads id r) d = deliver-IsDistinct s id r (lookup id s.handlers) d
step-IsDistinct s (runs id) d = rw (clients-run_handler s id (lookup id s.handlers)) d
step-IsDistinct s (lock e) d = d
step-IsDistinct s (broadcasts c) d = rw (clients-after_send s c) d
step-IsDistinct s round d = rw (clients-round s) d
step-IsDistinct s stops d = clients_of_stop s d

run-IsDistinct :
    (s : TcpServer) (es : List Event) → IsDistinct s.clients → IsDistinct (run s es).clients
unfolding run
run-IsDistinct s [] d = d
run-IsDistinct s (e ∷ es) d = run-IsDistinct (step s e) es (step-IsDistinct s e d)

-- On a started server that any events have led to, and while no client comes or goes, `broadcastLoop`
-- writes the chunks that wait to every connected client: each of them once, in the order of
-- `Broadcast`.
pub broadcast_in_order :
    (w : List Text) (addr : Text) (es : List Event) (id : Text)
    → has id (run (started w addr) es).clients ≡ true
    → let s = run (started w addr) es in
      let t = broadcast_rounds (length s.broadcast.queue) s in
      (chunks_for id t.outputs ≡ chunks_for id s.outputs ++ s.broadcast.queue)
      × (t.broadcast.queue ≡ [])
broadcast_in_order w addr es id h =
    rounds-deliver _ (run (started w addr) es) id refl
      (run-IsDistinct (started w addr) es (unfold started in tt)) h
