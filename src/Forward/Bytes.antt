-- ===== src/Forward/Bytes.antt =====
-- The bytes that the two goroutines pass on.
use share_serial.Base.{
  ℕ, zero, suc, ◌≤◌, ◌≡◌, refl, true, false, some, List, [], ◌∷◌, ◌++◌, Text, arith, length,
  length-append, append_assoc, ap, ◌∙◌, sym, append-nil, ◌⊎◌, inl, inr,
}
use share_serial.Forward.{Forwarder, writer_round, has_read, to_server}
use share_serial.Pty.Terminals.{Terminal, IsTerminal, Given}

-- The bytes of the calls on a connection.
abbrev pub bytes_to : List (ℕ × Text) → Text
bytes_to [] = []
bytes_to ((c, chunk) ∷ sent) = chunk ++ bytes_to sent

pub bytes_to-append : (s t : List (ℕ × Text)) → bytes_to (s ++ t) ≡ bytes_to s ++ bytes_to t
bytes_to-append [] t = refl
bytes_to-append ((c, chunk) ∷ s) t =
    ap (λ u. chunk ++ u) (bytes_to-append s t) ∙ sym (append_assoc chunk (bytes_to s) (bytes_to t))

list_cases : (t : Text) → (t ≡ []) ⊎ ((b : ℕ) × (bs : Text) × (t ≡ b ∷ bs))
list_cases [] = inl refl
list_cases (b ∷ bs) = inr (b, bs, refl)

added_none : (s t : Text) → t ≡ [] → s ≡ s ++ t
added_none s t e = rw e (sym (append-nil s))

no_bytes : (t : Text) → length t ≤ 0 → t ≡ []
no_bytes [] h = refl
no_bytes (b ∷ bs) h = ground arith

fewer_bytes :
    (n b : ℕ) (bs rest t : Text) → (b ∷ bs) ++ rest ≡ t → length t ≤ suc n → length rest ≤ n
fewer_bytes n b bs rest t e h =
    let sum = length-append (b ∷ bs) rest in
    let same : length ((b ∷ bs) ++ rest) ≡ length t = ap length e in omega (arith, sum, same, h)

block_parts :
    (sent : List (ℕ × Text)) (c : ℕ) (block rest t : Text)
    → block ++ rest ≡ t
    → bytes_to (sent ++ (c, block) ∷ []) ++ rest ≡ bytes_to sent ++ t
block_parts sent c block rest t e =
    ap (λ u. u ++ rest) (bytes_to-append sent ((c, block) ∷ []))
    ∙ append_assoc (bytes_to sent) (block ++ []) rest
    ∙ ap (λ u. bytes_to sent ++ u) (ap (λ u. u ++ rest) (append-nil block) ∙ e)

to_server-connected :
    (T : Terminal) (f : Forwarder T) (c : ℕ) (chunk : Text)
    → f.manager.conn ≡ some c
    → f.manager.connected ≡ true
    → to_server T f chunk ≡ record f { sent = f.sent ++ (c, chunk) ∷ [] }
unfolding to_server
to_server-connected T f c chunk h k = ground arith

to_server-disconnected :
    (T : Terminal) (f : Forwarder T) (chunk : Text)
    → f.manager.connected ≡ false
    → to_server T f chunk ≡ f
unfolding to_server
to_server-disconnected T f chunk k = ground arith

unfoldable pub writer_rounds : {T : Terminal} → ℕ → Forwarder T → Forwarder T
writer_rounds zero f = f
writer_rounds {T} (suc n) f = writer_rounds n (writer_round T f)

module _ {T : Terminal} (is : IsTerminal T) where
  -- A forwarder that runs, on an open terminal.
  abbrev pub IsRunning : Forwarder T → Type 0
  IsRunning f = (f.writer_ended ≡ false) × (f.stop_closed ≡ false) × (is.opens f.device ≡ true)

  round_reads :
      (f : Forwarder T) → IsRunning f → writer_round T f ≡ has_read T f (T.read f.device 1024)
  unfolding writer_round
  round_reads f r = ground arith

  writer_round-empty :
      (f : Forwarder T) → IsRunning f → is.typed f.device ≡ [] → writer_round T f ≡ f
  unfolding has_read
  writer_round-empty f r h = round_reads f r ∙ ap (has_read T f) (is.read_waits f.device 1024 r.2 h)

  -- What a read of what was typed gives.
  abbrev Block : Forwarder T → Type 0
  Block f = Given T is.opens is.typed f.device 1024

  writer_round-given :
      (f : Forwarder T) (g : Block f)
      → IsRunning f
      → writer_round T f ≡ to_server T (record f { device = g.next }) (g.first ∷ g.others)
  unfolding has_read
  writer_round-given f g r = round_reads f r ∙ ap (has_read T f) g.gives

  rounds-round :
      (n : ℕ) (f g : Forwarder T)
      → writer_round T f ≡ g
      → writer_rounds (suc n) f ≡ writer_rounds n g
  unfolding writer_rounds
  rounds-round n f g e = ap (writer_rounds n) e

  rounds_empty :
      (n : ℕ) (f : Forwarder T) → IsRunning f → is.typed f.device ≡ [] → writer_rounds n f ≡ f
  rounds_empty zero f r h = unfold writer_rounds in refl
  rounds_empty (suc n) f r h = rounds-round n f f (writer_round-empty f r h) ∙ rounds_empty n f r h

  -- While the client runs with an open terminal and is connected, what the user has typed reaches the
  -- server's connection, from any terminal whose reads give what was typed (`IsTerminal`: the
  -- stand-in's do, and a real terminal's do if the system's side of it does): after as many rounds as
  -- there are bytes, the calls of `Write` have passed on every byte, in order, and none waits. A read
  -- may give as few of the bytes as it likes, but one.
  pub forwards_typed :
      (n : ℕ) (f : Forwarder T) (c : ℕ)
      → IsRunning f
      → f.manager.conn ≡ some c
      → f.manager.connected ≡ true
      → length (is.typed f.device) ≤ n
      → let g = writer_rounds n f in
        (bytes_to g.sent ≡ bytes_to f.sent ++ is.typed f.device) × (is.typed g.device ≡ [])
  unfolding writer_rounds
  forwards_typed zero f c r h k less =
      let none_left = no_bytes (is.typed f.device) less in
      (added_none (bytes_to f.sent) (is.typed f.device) none_left, none_left)
  forwards_typed (suc n) f c r h k less = elim (list_cases (is.typed f.device)) [
    | inl e ↦
        rw (rounds_empty (suc n) f r e) (added_none (bytes_to f.sent) (is.typed f.device) e, e)
    | inr (b, bs, e) ↦
        let g = is.read_gives f.device 1024 b bs r.2 (omega arith) e in
        let chunk = g.first ∷ g.others in
        let next = record f { device = g.next; sent = f.sent ++ (c, chunk) ∷ [] } in
        let (all, none_left) =
          forwards_typed n next c (r.0, r.1, g.stays_open) h k
            (fewer_bytes n g.first g.others (is.typed g.next) (is.typed f.device) g.rest less) in
        rw
          (rounds-round n f next (
            writer_round-given f g r
            ∙ to_server-connected T (record f { device = g.next }) c chunk h k))
          (all ∙ block_parts f.sent c chunk (is.typed g.next) (is.typed f.device) g.rest, none_left)
  ]

  -- While the client is disconnected, what the user types is read from the terminal and thrown away.
  drops_typed :
      (n : ℕ) (f : Forwarder T)
      → IsRunning f
      → f.manager.connected ≡ false
      → length (is.typed f.device) ≤ n
      → let g = writer_rounds n f in (g.sent ≡ f.sent) × (is.typed g.device ≡ [])
  unfolding writer_rounds
  drops_typed zero f r k less = (refl, no_bytes (is.typed f.device) less)
  drops_typed (suc n) f r k less = elim (list_cases (is.typed f.device)) [
    | inl e ↦ rw (rounds_empty (suc n) f r e) (refl, e)
    | inr (b, bs, e) ↦
        let g = is.read_gives f.device 1024 b bs r.2 (omega arith) e in
        let next = record f { device = g.next } in
        rw
          (rounds-round n f next
            (writer_round-given f g r ∙ to_server-disconnected T next (g.first ∷ g.others) k))
          (drops_typed n next (r.0, r.1, g.stays_open) k
            (fewer_bytes n g.first g.others (is.typed g.next) (is.typed f.device) g.rest less))
  ]
