-- ===== src/LocalProxy/Passed.antt =====
-- internal/localproxy/proxy.go: what passes between the remote connection and the local ones.
use share_serial.Base.{
  ℕ, ◌≡◌, refl, sym, ap, ◌∙◌, true, false, Option, none, some, List, [], ◌∷◌, ◌++◌, append-nil,
  append_assoc, Text, concat, ◌==◌, if◌then◌else◌, arith, concat-append, member,
}
use share_serial.Forward.Bytes.{bytes_to, bytes_to-append}
use share_serial.LocalProxy.{LocalProxy, handle_local_read, remote_read, sends_to}
use share_serial.LocalProxy.Replay.{remote_reads}

-- The chunks for one connection.
abbrev pub chunks_to : ℕ → List (ℕ × Text) → List Text
chunks_to c [] = []
chunks_to c ((d, chunk) ∷ sends) =
    let rest = chunks_to c sends in if d == c then chunk ∷ rest else rest

chunks_to-append :
    (c : ℕ) (s t : List (ℕ × Text)) → chunks_to c (s ++ t) ≡ chunks_to c s ++ chunks_to c t
chunks_to-append c [] t = refl
chunks_to-append c ((d, chunk) ∷ s) t = ground (arith, chunks_to-append c s t)

-- No connection stands twice, as in a Go map.
abbrev pub AllApart : List ℕ → Type 0
AllApart [] = Unit {0}
AllApart (d ∷ ds) = (member d ds ≡ false) × AllApart ds

sends_to_absent :
    (c : ℕ) (ds : List ℕ) (chunk : Text)
    → member c ds ≡ false
    → chunks_to c (sends_to ds chunk) ≡ []
unfolding sends_to
sends_to_absent c [] chunk h = refl
sends_to_absent c (d ∷ ds) chunk h = ground (arith, sends_to_absent c ds chunk)

sends_to_one :
    (c : ℕ) (ds : List ℕ) (chunk : Text)
    → AllApart ds
    → member c ds ≡ true
    → chunks_to c (sends_to ds chunk) ≡ chunk ∷ []
unfolding sends_to
sends_to_one c [] chunk apart h = cc
sends_to_one c (d ∷ ds) chunk apart h =
    ground (arith, sends_to_absent c ds chunk, sends_to_one c ds chunk apart.1)

one_read :
    (p : LocalProxy) (c : ℕ) (chunk : Text)
    → AllApart p.local_conns
    → member c p.local_conns ≡ true
    → concat (chunks_to c (remote_read p (some chunk)).sends)
      ≡ concat (chunks_to c p.sends) ++ chunk
unfolding remote_read
one_read p c [] apart h = sym (append-nil (concat (chunks_to c p.sends)))
one_read p c (b ∷ bs) apart h =
    ap concat (
      chunks_to-append c p.sends (sends_to p.local_conns (b ∷ bs))
      ∙ ap (λ (t : List Text). chunks_to c p.sends ++ t)
          (sends_to_one c p.local_conns (b ∷ bs) apart h))
    ∙ concat-append (chunks_to c p.sends) ((b ∷ bs) ∷ [])
    ∙ ap (λ (t : Text). concat (chunks_to c p.sends) ++ t) (append-nil (b ∷ bs))

same_conns :
    (p : LocalProxy) (chunk : Text) → (remote_read p (some chunk)).local_conns ≡ p.local_conns
unfolding remote_read
same_conns p [] = refl
same_conns p (b ∷ bs) = refl

-- What comes from the remote side while a connection stays is to be sent to it, in order.
pub remote_reads-sends :
    (p : LocalProxy) (c : ℕ) (chunks : List Text)
    → AllApart p.local_conns
    → member c p.local_conns ≡ true
    → concat (chunks_to c (remote_reads p chunks).sends)
      ≡ concat (chunks_to c p.sends) ++ concat chunks
unfolding remote_reads
remote_reads-sends p c [] apart h = sym (append-nil (concat (chunks_to c p.sends)))
remote_reads-sends p c (chunk ∷ chunks) apart h =
    let e = same_conns p chunk in
    remote_reads-sends (remote_read p (some chunk)) c chunks (rw e apart) (rw e h)
    ∙ ap (λ (t : Text). t ++ concat chunks) (one_read p c chunk apart h)
    ∙ append_assoc (concat (chunks_to c p.sends)) chunk (concat chunks)

-- What reads of local connections give, in their order; `none` is an error.
abbrev pub typed : List (ℕ × Option Text) → Text
typed [] = []
typed ((c, none) ∷ reads) = typed reads
typed ((c, some chunk) ∷ reads) = chunk ++ typed reads

unfoldable pub local_reads : LocalProxy → List (ℕ × Option Text) → LocalProxy
unfolding handle_local_read
local_reads p [] = p
local_reads p ((c, r) ∷ reads) = local_reads (handle_local_read p c r) reads

one_local :
    (p : LocalProxy) (c r : ℕ) (chunk : Text)
    → p.remote_conn ≡ some r
    → handle_local_read p c (some chunk) ≡ record p { to_remote = p.to_remote ++ (r, chunk) ∷ [] }
unfolding handle_local_read
one_local p c r chunk h = rw h refl

-- All that the local connections give goes to the remote one, in order.
pub local_reads-bytes :
    (p : LocalProxy) (r : ℕ) (reads : List (ℕ × Option Text))
    → p.remote_conn ≡ some r
    → bytes_to (local_reads p reads).to_remote ≡ bytes_to p.to_remote ++ typed reads
unfolding local_reads handle_local_read
local_reads-bytes p r [] h = sym (append-nil (bytes_to p.to_remote))
local_reads-bytes p r ((c, none) ∷ reads) h =
    local_reads-bytes (handle_local_read p c none) r reads h
local_reads-bytes p r ((c, some chunk) ∷ reads) h =
    let q = record p { to_remote = p.to_remote ++ (r, chunk) ∷ [] } in
    ap (λ (s : LocalProxy). bytes_to (local_reads s reads).to_remote) (one_local p c r chunk h)
    ∙ local_reads-bytes q r reads h
    ∙ ap (λ (t : Text). t ++ typed reads)
        (bytes_to-append p.to_remote ((r, chunk) ∷ [])
          ∙ ap (λ (t : Text). bytes_to p.to_remote ++ t) (append-nil chunk))
    ∙ append_assoc (bytes_to p.to_remote) chunk (typed reads)
