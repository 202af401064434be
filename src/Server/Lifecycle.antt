-- ===== src/Server/Lifecycle.antt =====
-- internal/server/server.go: `Start`, `Stop`, and the channel that `Stop` closes.
use share_serial.Base.{
  ◌≡◌, refl, true, false, none, some, [], ◌++◌, Text, text_eq_iff, has, lookup, lookup-insert,
  arith, has-delete_self, text_eq_refl,
}
use share_serial.Arbiter
use share_serial.Arbiter.{Arbiter}
use share_serial.Arbiter.Exclusion.{holder, leave_lock}
use share_serial.Channel.{panics}
use share_serial.Server.{
  TcpServer, gone, start, stop, disconnect, broadcast_data, client_count, conns_of,
}

-- A second `Stop` does nothing. After `Start` and a first `Stop` of a server whose broadcast channel
-- is open, no client is left, every connection is closed, and `Broadcast` panics.
stop-start :
    (s : TcpServer) (a chunk : Text)
    → s.broadcast.closed ≡ false
    → (t : TcpServer) × (stop (start s (some a)).0 ≡ some t)
      × (stop t ≡ some t)
      × (client_count t ≡ 0)
      × (t.closed_conns ≡ conns_of s.clients ++ s.closed_conns)
      × (broadcast_data t chunk ≡ panics)
unfolding stop start broadcast_data client_count
stop-start s a chunk open_ = (
  record s {
    closed_conns = conns_of s.clients ++ s.closed_conns;
    clients = [];
    addr = a;
    listening = false;
    broadcast = record (s.broadcast) { closed = true };
    running = false;
  },
  ground arith,
  refl,
  refl,
  refl,
  refl,
)

-- The channel stays closed, so a server that was stopped can be started again, and its next `Stop`
-- panics: it closes the channel a second time.
restart_panics :
    (s t : TcpServer) (a b : Text)
    → stop (start s (some a)).0 ≡ some t
    → ((start t (some b)).1 ≡ true) × (stop (start t (some b)).0 ≡ none)
unfolding stop start
restart_panics s t a b e = (refl, ground arith)

-- A client whose `Read` fails is no longer connected, its handler has returned, and it does not hold
-- the lock, while another holder keeps it.
disconnect_frees :
    (s : TcpServer) (id : Text)
    → (has id (disconnect s id).clients ≡ false)
      × (lookup id (disconnect s id).handlers ≡ some gone)
      × (holder (disconnect s id).arbiter ≡ leave_lock (holder s.arbiter) id)
unfolding disconnect Arbiter.lock_owner Arbiter.force_release
disconnect_frees s id = (
  has-delete_self id s.clients,
  ground (arith, lookup-insert id id gone s.handlers, text_eq_refl id),
  ground (arith, text_eq_iff s.arbiter.owner id),
)
