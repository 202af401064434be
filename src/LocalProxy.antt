-- ===== src/LocalProxy.antt =====
-- internal/localproxy/proxy.go: the local TCP port of the Windows client. The proofs are in the
-- modules below this one.
pub mod Replay
pub mod Passed
pub mod Lifecycle
use share_serial.Base.{
  ℕ, zero, suc, ◌+◌, ◌*◌, ◌-◌, Bool, true, false, not, Option, none, some, List, [], ◌∷◌, ◌++◌,
  Text, length, drop, ltb, ◌==◌, if◌then◌else◌,
}

-- `sends` are the goroutines that write to local connections and have not finished; `replayed` and
-- `to_remote` hold the chunks written to local connections and to the remote one.
pub record LocalProxy : Type 0 where
  pub remote_conn : Option ℕ
  pub local_port : ℕ
  pub listening : Bool
  pub running : Bool
  pub stop_closed : Bool
  pub local_conns : List ℕ
  pub remote_buffer : Text
  pub sends : List (ℕ × Text)
  pub replayed : List (ℕ × Text)
  pub to_remote : List (ℕ × Text)
  pub closed_conns : List ℕ

unfoldable pub new_local_proxy : ℕ → LocalProxy
new_local_proxy port = record {
  remote_conn = none;
  local_port = port;
  listening = false;
  running = false;
  stop_closed = false;
  local_conns = [];
  remote_buffer = [];
  sends = [];
  replayed = [];
  to_remote = [];
  closed_conns = [];
}

-- `listened` tells whether `net.Listen` succeeds. The remote connection is set before it is called.
unfoldable pub start : LocalProxy → ℕ → Bool → LocalProxy × Bool
start p remote listened =
    let q = record p { remote_conn = some remote } in
    if listened then (record q { listening = true; running = true }, true) else (q, false)

unfoldable pub remove : ℕ → List ℕ → List ℕ
remove c [] = []
remove c (d ∷ ds) = let rest = remove c ds in if d == c then rest else d ∷ rest

-- `p.localConns[localConn] = true`
unfoldable pub accept : LocalProxy → ℕ → LocalProxy
unfolding remove
accept p c = record p { local_conns = c ∷ remove c p.local_conns }

-- 64 * 1024
abbrev pub replay_limit : ℕ
replay_limit = 64 * 1024

pub send_buffered_data : LocalProxy → ℕ → LocalProxy
send_buffered_data p c =
    let buffer = p.remote_buffer in
    let begin : ℕ = if ltb replay_limit (length buffer) then length buffer - replay_limit else 0 in
    if ltb 0 (length buffer)
    then record p { replayed = p.replayed ++ (c, drop begin buffer) ∷ [] }
    else p

-- A read of `handleLocalConnection`: an error ends it, a chunk goes to the remote connection.
unfoldable pub handle_local_read : LocalProxy → ℕ → Option Text → LocalProxy
unfolding remove
handle_local_read p c none = record p {
  local_conns = remove c p.local_conns;
  closed_conns = c ∷ p.closed_conns;
}
handle_local_read p c (some chunk) = elim p.remote_conn [
  | none ↦ p
  | some r ↦ record p { to_remote = p.to_remote ++ (r, chunk) ∷ [] }
]

-- 1024 * 1024
abbrev pub buffer_limit : ℕ
buffer_limit = 1024 * 1024

unfoldable pub sends_to : List ℕ → Text → List (ℕ × Text)
sends_to [] chunk = []
sends_to (c ∷ cs) chunk = (c, chunk) ∷ sends_to cs chunk

-- A round of `remoteReadLoop` with a remote connection: `none` is a read error, after which the loop
-- tries again.
unfoldable pub remote_read : LocalProxy → Option Text → LocalProxy
unfolding sends_to
remote_read p none = p
remote_read p (some []) = p
remote_read p (some (b ∷ bs)) =
    let chunk = b ∷ bs in
    record p {
      remote_buffer =
          if ltb (length p.remote_buffer) buffer_limit
          then p.remote_buffer ++ chunk
          else p.remote_buffer;
      sends = p.sends ++ sends_to p.local_conns chunk;
    }

unfoldable pub close_conn : Option ℕ → List ℕ → List ℕ
close_conn none closed = closed
close_conn (some c) closed = c ∷ closed

unfoldable pub update_remote_connection : LocalProxy → ℕ → LocalProxy
unfolding close_conn
update_remote_connection p c = record p {
  remote_conn = some c;
  closed_conns = close_conn p.remote_conn p.closed_conns;
}

-- `none` is a panic: `close` of a closed channel.
unfoldable pub stop : LocalProxy → Option LocalProxy
unfolding close_conn
stop p =
    if not p.running
    then some p
    else if p.stop_closed
    then none
    else some (record p {
      running = false;
      stop_closed = true;
      closed_conns = close_conn p.remote_conn (p.local_conns ++ p.closed_conns);
      local_conns = [];
      listening = false;
    })

unfoldable pub is_running : LocalProxy → Bool
is_running p = p.running

unfoldable connection_count : LocalProxy → ℕ
connection_count p = length p.local_conns

unfoldable pub buffer_size : LocalProxy → ℕ
buffer_size p = length p.remote_buffer

unfoldable clear_buffer : LocalProxy → LocalProxy
clear_buffer p = record p { remote_buffer = [] }
