-- ===== src/LocalProxy/Replay.antt =====
-- internal/localproxy/proxy.go: the buffer of remote data, and its replay to a new connection.
use share_serial.Base.{
  ℕ, ◌+◌, ◌-◌, ◌≤◌, ◌≡◌, refl, sym, ◌∙◌, ap, inl, inr, ◌⊎◌, true, some, List, [], ◌∷◌, ◌++◌,
  append-nil, append_assoc, Text, concat, length, length-append, last, ltb, lt→ltb, ltb→lt,
  drop_none, subst, le→not-ltb, Bool-cases, if_cases, if◌then◌else◌, arith, subst,
}
use share_serial.LocalProxy.{
  LocalProxy, accept, remote_read, send_buffered_data, buffer_size, remove, buffer_limit,
  replay_limit, sends_to,
}

unfoldable pub remote_reads : LocalProxy → List Text → LocalProxy
remote_reads p [] = p
remote_reads p (c ∷ cs) = remote_reads (remote_read p (some c)) cs

-- How the buffer stands to the data that came: it is a first part of it, and all of it until it is
-- full.
pub record Kept (buffer came : Text) : Type 0 where
  pub missed : Text
  pub split : buffer ++ missed ≡ came
  pub full : (missed ≡ []) ⊎ (buffer_limit ≤ length buffer)

-- While there is room nothing was missed.
extended-Kept :
    (buffer came chunk : Text)
    → ltb (length buffer) buffer_limit ≡ true
    → Kept buffer came
    → Kept (buffer ++ chunk) (came ++ chunk)
extended-Kept buffer came chunk room k = record {
  missed = [];
  split =
      append-nil (buffer ++ chunk)
      ∙ ap (λ (t : Text). t ++ chunk) (complete k.missed k.split k.full);
  full = inl refl;
}
  where
    complete :
        (m : Text) → buffer ++ m ≡ came → (m ≡ []) ⊎ (buffer_limit ≤ length buffer) → buffer ≡ came
    complete m e (inl none_missed) =
        sym (append-nil buffer) ∙ ap (λ (t : Text). buffer ++ t) (sym none_missed) ∙ e
    complete m e (inr filled) = absurd (ground arith)

read-Kept :
    (p : LocalProxy) (came chunk : Text)
    → Kept p.remote_buffer came
    → Kept (remote_read p (some chunk)).remote_buffer (came ++ chunk)
unfolding remote_read
read-Kept p came [] k = record {
  missed = k.missed;
  split = k.split ∙ sym (append-nil came);
  full = k.full;
}
read-Kept p came (b ∷ bs) k =
    if_cases (λ (t : Text). Kept t (came ++ b ∷ bs)) (ltb (length p.remote_buffer) buffer_limit) _ _
      (λ room. extended-Kept p.remote_buffer came (b ∷ bs) room k)
      λ no_room. record {
        missed = k.missed ++ b ∷ bs;
        split =
            sym (append_assoc p.remote_buffer k.missed (b ∷ bs))
            ∙ ap (λ (t : Text). t ++ b ∷ bs) k.split;
        full = inr (ground arith);
      }

pub reads-Kept :
    (p : LocalProxy) (came : Text) (cs : List Text)
    → Kept p.remote_buffer came
    → Kept (remote_reads p cs).remote_buffer (came ++ concat cs)
unfolding remote_reads
reads-Kept p came [] k = record {
  missed = k.missed;
  split = k.split ∙ sym (append-nil came);
  full = k.full;
}
reads-Kept p came (c ∷ cs) k =
    subst (Kept (remote_reads (remote_read p (some c)) cs).remote_buffer)
      (append_assoc came c (concat cs))
      (reads-Kept (remote_read p (some c)) (came ++ c) cs (read-Kept p came c k))

-- What a proxy whose buffer is empty keeps of the remote data that then comes: a first part of it,
-- and all of it unless 1 MB was reached.
pub remote_reads-Kept :
    (p : LocalProxy) (cs : List Text)
    → p.remote_buffer ≡ []
    → Kept (remote_reads p cs).remote_buffer (concat cs)
remote_reads-Kept p cs e =
    reads-Kept p [] cs (record { missed = []; split = rw e refl; full = inl refl })

-- Every read of `remoteReadLoop` is into 4096 bytes.
abbrev pub AllShort : List Text → Type 0
AllShort [] = Unit {0}
AllShort (c ∷ cs) = (length c ≤ 4096) × AllShort cs

read-bounded :
    (q : LocalProxy) (d : Text)
    → length d ≤ 4096
    → buffer_size q ≤ buffer_limit + 4095
    → buffer_size (remote_read q (some d)) ≤ buffer_limit + 4095
unfolding remote_read buffer_size
read-bounded q [] short k = k
read-bounded q (b ∷ bs) short k =
    if_cases (λ (t : Text). length t ≤ buffer_limit + 4095)
      (ltb (length q.remote_buffer) buffer_limit) _ _
      (λ room. omega (arith, length-append q.remote_buffer (b ∷ bs), ltb→lt _ _ room)) (λ _. k)

-- If no chunk has more than 4096 bytes, which is the size of the buffer that `remoteReadLoop` reads
-- into, the proxy's buffer never passes its limit of 1 MB by more than 4095 bytes, if it did not do
-- so before.
pub buffer_bounded :
    (p : LocalProxy) (cs : List Text)
    → AllShort cs
    → buffer_size p ≤ buffer_limit + 4095
    → buffer_size (remote_reads p cs) ≤ buffer_limit + 4095
unfolding remote_reads
buffer_bounded p [] s h = h
buffer_bounded p (c ∷ cs) s h =
    buffer_bounded (remote_read p (some c)) cs s.1 (read-bounded p c s.0 h)

-- A new connection is sent the last 64 KB of the buffer in one write, or nothing if it is empty.
replay_last :
    (p : LocalProxy) (c : ℕ)
    → (send_buffered_data p c).replayed ≡ (
        if ltb 0 (buffer_size p)
        then p.replayed ++ (c, last replay_limit p.remote_buffer) ∷ []
        else p.replayed)
unfolding send_buffered_data buffer_size
replay_last p c = elim (Bool-cases (ltb replay_limit (length p.remote_buffer))) [
  | inl long ↦ rw long (ground arith)
  | inr short ↦
      rw (short, drop_none (length p.remote_buffer - replay_limit) p.remote_buffer (ground arith))
        (ground arith)
]

read_frozen :
    (p : LocalProxy) (chunk : Text)
    → buffer_limit ≤ length p.remote_buffer
    → (remote_read p (some chunk)).remote_buffer ≡ p.remote_buffer
unfolding remote_read
read_frozen p [] h = refl
read_frozen p (b ∷ bs) h = rw (le→not-ltb (length p.remote_buffer) buffer_limit h)

reads_frozen :
    (p : LocalProxy) (cs : List Text)
    → buffer_limit ≤ length p.remote_buffer
    → (remote_reads p cs).remote_buffer ≡ p.remote_buffer
unfolding remote_reads
reads_frozen p [] h = refl
reads_frozen p (c ∷ cs) h =
    let e = read_frozen p c h in reads_frozen (remote_read p (some c)) cs (rw e h) ∙ e

-- A full buffer is frozen: whatever the remote side sends after it reached 1 MB, a new local
-- connection is sent the same old bytes, not the most recent ones.
full_frozen :
    (p : LocalProxy) (cs : List Text) (c : ℕ)
    → buffer_limit ≤ buffer_size p
    → let q = remote_reads p cs in
      (send_buffered_data q c).replayed ≡ q.replayed ++ (c, last replay_limit p.remote_buffer) ∷ []
unfolding buffer_size
full_frozen p cs c h =
    let q = remote_reads p cs in
    let e = reads_frozen p cs h in
    replay_last q c ∙ rw (buffer_size, e, lt→ltb 0 (length p.remote_buffer) (omega arith)) refl

-- A connection is registered before the buffer is replayed to it: a chunk that comes between the two,
-- and fits the buffer and the replay, is sent to it twice.
chunk_sent_twice :
    (p : LocalProxy) (c b : ℕ) (bs : Text)
    → length (p.remote_buffer ++ b ∷ bs) ≤ replay_limit
    → let q = send_buffered_data (remote_read (accept p c) (some (b ∷ bs))) c in
      (q.replayed ≡ p.replayed ++ (c, p.remote_buffer ++ b ∷ bs) ∷ [])
      × (q.sends ≡ p.sends ++ (c, b ∷ bs) ∷ sends_to (remove c p.local_conns) (b ∷ bs))
unfolding accept remote_read send_buffered_data sends_to
chunk_sent_twice p c b bs h =
    let buffer = p.remote_buffer in
    let sum = length-append buffer (b ∷ bs) in
    let room = lt→ltb (length buffer) buffer_limit (omega (arith, sum)) in
    let short = le→not-ltb replay_limit (length (buffer ++ b ∷ bs)) h in
    let some_data = lt→ltb 0 (length (buffer ++ b ∷ bs)) (omega (arith, sum)) in
    rw (room, short, some_data) (refl, refl)
