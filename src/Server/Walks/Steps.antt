-- ===== src/Server/Walks/Steps.antt =====
-- internal/server/server.go: what clients are sent does not depend on the order in which Go walks the
-- map of clients.
use share_serial.Base.{
  member, member-append, ℕ, zero, suc, ◌≡◌, refl, sym, ◌∙◌, inl, inr, Option, none, some, List, [],
  ◌∷◌, ◌++◌, Text, Dict, lookup, insert, delete, IsDistinct, lookup-insert, lookup-delete,
  insert-IsDistinct, delete-IsDistinct, Bool-cases, arith, ap,
}
use share_serial.Server.{
  started, TcpServer, Handler, reading, testing, acquiring, retrying, checking, writing, gone,
  advance, read_result, run_handler, writes_to, conns_of, disconnect, accept, broadcast_round,
  broadcast_data, stop,
}
use share_serial.Server.Delivery.{chunks_for, chunks_for-append}
use share_serial.Server.Events.{
  Event, accepts, reads, runs, lock, broadcasts, round, stops, deliver, step, run, after_send,
  after_stop,
}
use share_serial.Server.Walks.{
  Action, happens, reorders, act, run_walks, events_of, AllAllowed, same_chunks, same_conns,
}

-- The server with its map of clients in another order, and with what was written and closed in the
-- orders that come of it.
abbrev with_walk : TcpServer → Dict ℕ → List (Text × Text) → List ℕ → TcpServer
with_walk s m o ds = record s { clients = m; outputs = o; closed_conns = ds }

record View (s : TcpServer) (m : Dict ℕ) (o : List (Text × Text)) (ds : List ℕ) : Type 0 where
  distinct : IsDistinct s.clients
  reordered : IsDistinct m
  clients : (id : Text) → lookup id m ≡ lookup id s.clients
  outputs : (id : Text) → chunks_for id o ≡ chunks_for id s.outputs
  closed : (c : ℕ) → member c ds ≡ member c s.closed_conns

-- Two servers that differ in these orders only.
abbrev LooksLike : TcpServer → TcpServer → Type 0
LooksLike s t =
    (m : Dict ℕ) × (o : List (Text × Text)) × (ds : List ℕ) × (t ≡ with_walk s m o ds)
    × View s m o ds

advance-with_walk :
    (s : TcpServer) (m : Dict ℕ) (o : List (Text × Text)) (ds : List ℕ) (id : Text) (h : Handler)
    → advance (with_walk s m o ds) id h ≡ (with_walk (advance s id h).0 m o ds, (advance s id h).1)
unfolding advance
advance-with_walk s m o ds id reading = refl
advance-with_walk s m o ds id (testing c) = refl
advance-with_walk s m o ds id (acquiring c) = refl
advance-with_walk s m o ds id (retrying zero c) = refl
advance-with_walk s m o ds id (retrying (suc k) c) = refl
advance-with_walk s m o ds id (checking c) = ground arith
advance-with_walk s m o ds id (writing c) = ground arith
advance-with_walk s m o ds id gone = refl

run_handler-with_walk :
    (s : TcpServer) (m : Dict ℕ) (o : List (Text × Text)) (ds : List ℕ) (id : Text)
    (h : Option Handler)
    → run_handler (with_walk s m o ds) id h ≡ with_walk (run_handler s id h) m o ds
unfolding run_handler
run_handler-with_walk s m o ds id none = refl
run_handler-with_walk s m o ds id (some h) = rw (advance-with_walk s m o ds id h) refl

advance_keeps :
    (s : TcpServer) (id : Text) (h : Handler)
    → ((advance s id h).0.clients ≡ s.clients)
      × ((advance s id h).0.outputs ≡ s.outputs)
      × ((advance s id h).0.closed_conns ≡ s.closed_conns)
unfolding advance
advance_keeps s id (retrying zero c) = (refl, refl, refl)
advance_keeps s id h = ground arith

module _ (m : Dict ℕ) (o : List (Text × Text)) (ds : List ℕ) where
  -- A step that changes neither the clients nor what was written or closed.
  View-kept :
      (s u : TcpServer)
      → u.clients ≡ s.clients
      → u.outputs ≡ s.outputs
      → u.closed_conns ≡ s.closed_conns
      → View s m o ds
      → View u m o ds
  View-kept s u ec eo ed v = record {
    distinct = rw ec v.distinct;
    reordered = v.reordered;
    clients = rw ec v.clients;
    outputs = rw eo v.outputs;
    closed = rw ed v.closed;
  }

  accept-LooksLike :
      (s : TcpServer) (id : Text) (conn : ℕ)
      → View s m o ds
      → LooksLike (accept s id conn) (accept (with_walk s m o ds) id conn)
  unfolding accept
  accept-LooksLike s id conn v = (
    insert id conn m,
    o,
    ds,
    refl,
    record {
      distinct = insert-IsDistinct id conn s.clients v.distinct;
      reordered = insert-IsDistinct id conn m v.reordered;
      clients = λ j.
          lookup-insert id j conn m ∙ rw (v.clients j) (sym (lookup-insert id j conn s.clients));
      outputs = v.outputs;
      closed = v.closed;
    },
  )

  disconnect-LooksLike :
      (s : TcpServer) (id : Text)
      → View s m o ds
      → LooksLike (disconnect s id) (disconnect (with_walk s m o ds) id)
  unfolding disconnect
  disconnect-LooksLike s id v = (
    delete id m,
    o,
    ds,
    refl,
    record {
      distinct = delete-IsDistinct id s.clients v.distinct;
      reordered = delete-IsDistinct id m v.reordered;
      clients = λ j. lookup-delete id j m ∙ rw (v.clients j) (sym (lookup-delete id j s.clients));
      outputs = v.outputs;
      closed = v.closed;
    },
  )

  read_result-LooksLike :
      (s : TcpServer) (id : Text) (r : Option Text)
      → View s m o ds
      → LooksLike (read_result s id r) (read_result (with_walk s m o ds) id r)
  unfolding read_result
  read_result-LooksLike s id none v = disconnect-LooksLike s id v
  read_result-LooksLike s id (some []) v = (m, o, ds, refl, v)
  read_result-LooksLike s id (some (b ∷ bs)) v =
      (m, o, ds, refl, View-kept s (read_result s id (some (b ∷ bs))) refl refl refl v)

  deliver-LooksLike :
      (s : TcpServer) (id : Text) (r : Option Text) (h : Option Handler)
      → View s m o ds
      → LooksLike (deliver s id r h) (deliver (with_walk s m o ds) id r h)
  unfolding deliver
  deliver-LooksLike s id r none v = (m, o, ds, refl, v)
  deliver-LooksLike s id r (some reading) v = read_result-LooksLike s id r v
  deliver-LooksLike s id r (some _) v = (m, o, ds, refl, v)

  run_handler-LooksLike :
      (s : TcpServer) (id : Text) (h : Option Handler)
      → View s m o ds
      → LooksLike (run_handler s id h) (run_handler (with_walk s m o ds) id h)
  run_handler-LooksLike s id none v =
      (m, o, ds, unfold run_handler in refl, unfold run_handler in v)
  run_handler-LooksLike s id (some h) v =
      let (ec, eo, ed) = advance_keeps s id h in
      (
        m,
        o,
        ds,
        run_handler-with_walk s m o ds id (some h),
        View-kept s (run_handler s id (some h)) (unfold run_handler in ec)
            (unfold run_handler in eo) (unfold run_handler in ed) v,
      )

  after_send-LooksLike :
      (s : TcpServer) (c : Text)
      → View s m o ds
      → LooksLike
          (after_send s (broadcast_data s c))
          (after_send (with_walk s m o ds) (broadcast_data (with_walk s m o ds) c))
  after_send-LooksLike s c v =
      let t = after_send s (broadcast_data s c) in
      (
        m,
        o,
        ds,
        unfold after_send broadcast_data in ground arith,
        View-kept s t (unfold after_send broadcast_data in ground arith)
            (unfold after_send broadcast_data in ground arith)
            (unfold after_send broadcast_data in ground arith) v,
      )

  -- Every client is written the chunk once, wherever it stands in the map.
  round_at :
      (s : TcpServer) (q : List Text)
      → s.broadcast.queue ≡ q
      → View s m o ds
      → LooksLike (broadcast_round s) (broadcast_round (with_walk s m o ds))
  unfolding broadcast_round
  round_at s [] e v = (m, o, ds, rw e refl, View-kept s _ (rw e refl) (rw e refl) (rw e refl) v)
  round_at s (c ∷ q) e v = (
    m,
    o ++ writes_to m c,
    ds,
    rw e refl,
    rw e (record {
      distinct = v.distinct;
      reordered = v.reordered;
      clients = v.clients;
      outputs = λ id.
          chunks_for-append id o (writes_to m c)
          ∙ rw (v.outputs id) (
              ap (λ (w : List Text). chunks_for id s.outputs ++ w)
                (same_chunks id c m s.clients v.reordered v.distinct (v.clients id)))
          ∙ sym (chunks_for-append id s.outputs (writes_to s.clients c));
      closed = v.closed;
    }),
  )

  stopped-View :
      (s u : TcpServer)
      → u.clients ≡ []
      → u.outputs ≡ s.outputs
      → u.closed_conns ≡ conns_of s.clients ++ s.closed_conns
      → View s m o ds
      → View u [] o (conns_of m ++ ds)
  stopped-View s u ec eo ed v = record {
    distinct = rw ec tt;
    reordered = tt;
    clients = rw ec (λ id. refl);
    outputs = rw eo v.outputs;
    closed = rw ed (λ c.
        member-append c (conns_of m) ds
        ∙ rw (same_conns c m s.clients v.reordered v.distinct v.clients, v.closed c)
            (sym (member-append c (conns_of s.clients) s.closed_conns)));
  }

  stop-LooksLike :
      (s : TcpServer)
      → View s m o ds
      → LooksLike
          (after_stop s (stop s))
          (after_stop (with_walk s m o ds) (stop (with_walk s m o ds)))
  unfolding after_stop stop
  stop-LooksLike s v = elim (Bool-cases s.running) [
    | inr off ↦ (m, o, ds, rw off refl, View-kept s _ (rw off refl) (rw off refl) (rw off refl) v)
    | inl on ↦ elim (Bool-cases s.broadcast.closed) [
      | inl shut ↦ (
        m,
        o,
        ds,
        rw (on, shut) refl,
        View-kept s _ (rw (on, shut) refl) (rw (on, shut) refl) (rw (on, shut) refl) v,
      )
      | inr open_ ↦ (
        [],
        o,
        conns_of m ++ ds,
        rw (on, open_) refl,
        stopped-View s _ (rw (on, open_) refl) (rw (on, open_) refl) (rw (on, open_) refl) v,
      )
    ]
  ]

step-View :
    (s : TcpServer) (m : Dict ℕ) (o : List (Text × Text)) (ds : List ℕ) (e : Event)
    → View s m o ds
    → LooksLike (step s e) (step (with_walk s m o ds) e)
unfolding step
step-View s m o ds (accepts id conn) v = accept-LooksLike m o ds s id conn v
step-View s m o ds (reads id r) v = deliver-LooksLike m o ds s id r (lookup id s.handlers) v
step-View s m o ds (runs id) v = run_handler-LooksLike m o ds s id (lookup id s.handlers) v
step-View s m o ds (lock e) v =
    (m, o, ds, refl, View-kept m o ds s (record s { arbiter = _ }) refl refl refl v)
step-View s m o ds (broadcasts c) v = after_send-LooksLike m o ds s c v
step-View s m o ds round v = round_at m o ds s s.broadcast.queue refl v
step-View s m o ds stops v = stop-LooksLike m o ds s v

started-View :
    (w : List Text) (addr : Text)
    → let s = started w addr in View s s.clients s.outputs s.closed_conns
unfolding started
started-View w addr = record {
  distinct = tt;
  reordered = tt;
  clients = λ id. refl;
  outputs = λ id. refl;
  closed = λ c. refl;
}

run-LooksLike :
    (s t : TcpServer) (as' : List Action)
    → AllAllowed t as'
    → LooksLike s t
    → LooksLike (run s (events_of as')) (run_walks t as')
unfolding run run_walks act
run-LooksLike s t [] ok v = v
run-LooksLike s t (happens e ∷ as') ok (m, o, ds, same, v) =
    run-LooksLike (step s e) (step t e) as' ok.1 (rw same (step-View s m o ds e v))
run-LooksLike s t (reorders n ∷ as') ok (m, o, ds, same, v) =
    run-LooksLike s (record t { clients = n }) as' ok.1
      (
        n,
        o,
        ds,
        ap (λ (u : TcpServer). record u { clients = n }) same,
        record {
          distinct = v.distinct;
          reordered = ok.0.0;
          clients =
              λ id. ok.0.1 id ∙ ap (λ (u : TcpServer). lookup id u.clients) same ∙ v.clients id;
          outputs = v.outputs;
          closed = v.closed;
        },
      )

-- What a server does for its clients does not depend on the order in which Go walks the map of
-- clients, nor on a change of that order between any two events: the connected clients and their
-- connections, the chunks written to each client, the connections that were closed, the handlers, the
-- lock, the serial port and the channel are those of the run in which the order is never changed.
pub walk_order_unseen :
    (w : List Text) (addr : Text) (as' : List Action)
    → AllAllowed (started w addr) as'
    → let s = run (started w addr) (events_of as') in
      let t = run_walks (started w addr) as' in
      ((id : Text) → lookup id t.clients ≡ lookup id s.clients)
      × ((id : Text) → chunks_for id t.outputs ≡ chunks_for id s.outputs)
      × ((c : ℕ) → member c t.closed_conns ≡ member c s.closed_conns)
      × (t.handlers ≡ s.handlers)
      × (t.arbiter ≡ s.arbiter)
      × (t.serial ≡ s.serial)
      × (t.broadcast ≡ s.broadcast)
      × (t.running ≡ s.running)
walk_order_unseen w addr as' ok =
    let s0 = started w addr in
    let (m, o, ds, same, v) =
      run-LooksLike s0 s0 as' ok
        (s0.clients, s0.outputs, s0.closed_conns, refl, started-View w addr) in
    rw same (v.clients, v.outputs, v.closed, refl, refl, refl, refl, refl)
