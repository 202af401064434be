-- ===== src/Pty/TwoWay.antt =====
-- internal/pty/pty.go: the two directions of the terminal.
use share_serial.Base.{
  ℕ, ◌≡◌, refl, sym, ap, ◌∙◌, true, List, [], ◌∷◌, ◌++◌, append-nil, append_assoc, Text,
  take-append-drop, arith,
}
use share_serial.Pty.{
  MockPty, PtyRead, pty_closed, pty_empty, pty_bytes, read_pty, read_from_slave, write_pty,
  inject_external_data,
}

-- What the user and the program do, with the sizes of their buffers.
pub data Op : Type 0 where
  types : Text → Op
  receives : ℕ → Op
  prints : Text → Op
  shows : ℕ → Op

-- The terminal, what the program has received, and what the user has been shown.
pub record Session : Type 0 where
  pub pty : MockPty
  pub received : Text
  pub shown : Text

text_of : PtyRead → Text
text_of pty_closed = []
text_of pty_empty = []
text_of (pty_bytes t) = t

pub step : Session → Op → Session
unfolding text_of
step s (types t) = record s { pty = inject_external_data s.pty t }
step s (receives n) =
    let (m, r) = read_pty s.pty n in record s { pty = m; received = s.received ++ text_of r }
step s (prints t) = record s { pty = (write_pty s.pty t).0 }
step s (shows n) =
    let (m, r) = read_from_slave s.pty n in record s { pty = m; shown = s.shown ++ text_of r }

pub run : Session → List Op → Session
run s [] = s
run s (op ∷ ops) = run (step s op) ops

abbrev pub typed : List Op → Text
typed [] = []
typed (types t ∷ ops) = t ++ typed ops
typed (receives n ∷ ops) = typed ops
typed (prints t ∷ ops) = typed ops
typed (shows n ∷ ops) = typed ops

abbrev pub printed : List Op → Text
printed [] = []
printed (types t ∷ ops) = printed ops
printed (receives n ∷ ops) = printed ops
printed (prints t ∷ ops) = t ++ printed ops
printed (shows n ∷ ops) = printed ops

-- What a call takes from its buffer, with the rest, is the buffer; the other buffer stays.
read_pty_parts :
    (m : MockPty) (n : ℕ) (t : Text)
    → m.is_open ≡ true
    → m.external_data ≡ t
    → (text_of (read_pty m n).1 ++ (read_pty m n).0.external_data ≡ m.external_data)
      × ((read_pty m n).0.is_open ≡ true)
      × ((read_pty m n).0.slave_buffer ≡ m.slave_buffer)
unfolding read_pty text_of
read_pty_parts m n [] o e = (ground (arith, e), ground (arith, e), ground (arith, e))
read_pty_parts m n (b ∷ bs) o e =
    (ground (arith, e, take-append-drop n (b ∷ bs)), ground (arith, e), ground (arith, e))

read_from_slave_parts :
    (m : MockPty) (n : ℕ) (t : Text)
    → m.is_open ≡ true
    → m.slave_buffer ≡ t
    → (text_of (read_from_slave m n).1 ++ (read_from_slave m n).0.slave_buffer ≡ m.slave_buffer)
      × ((read_from_slave m n).0.is_open ≡ true)
      × ((read_from_slave m n).0.external_data ≡ m.external_data)
unfolding read_from_slave text_of
read_from_slave_parts m n [] o e = (ground (arith, e), ground (arith, e), ground (arith, e))
read_from_slave_parts m n (b ∷ bs) o e =
    (ground (arith, e, take-append-drop n (b ∷ bs)), ground (arith, e), ground (arith, e))

write_pty_parts :
    (m : MockPty) (t : Text)
    → m.is_open ≡ true
    → ((write_pty m t).0.external_data ≡ m.external_data)
      × ((write_pty m t).0.is_open ≡ true)
      × ((write_pty m t).0.slave_buffer ≡ m.slave_buffer ++ t)
unfolding write_pty
write_pty_parts m t o = (ground arith, ground arith, ground arith)

-- On an open terminal, however the calls alternate and whatever the buffers' sizes, the program
-- receives what the user types, and the user is shown what the program prints, each byte once and in
-- order: what was taken, followed by what waits, is what was there and what came.
pub two_way :
    (s : Session) (ops : List Op)
    → s.pty.is_open ≡ true
    → let t = run s ops in
      (t.received ++ t.pty.external_data ≡ (s.received ++ s.pty.external_data) ++ typed ops)
      × (t.shown ++ t.pty.slave_buffer ≡ (s.shown ++ s.pty.slave_buffer) ++ printed ops)
unfolding run step inject_external_data
two_way s [] o = (sym (append-nil _), sym (append-nil _))
two_way s (types t ∷ ops) o =
    let (a, b) = two_way (step s (types t)) ops o in (a ∙ simp append_assoc, b)
two_way s (receives n ∷ ops) o =
    let (parts, still, same) = read_pty_parts s.pty n _ o refl in
    let (a, b) = two_way (step s (receives n)) ops still in
    (
      a
          ∙ ap (λ (x : Text). x ++ typed ops)
              (append_assoc s.received _ _ ∙ ap (λ (x : Text). s.received ++ x) parts),
      b ∙ ap (λ (x : Text). (s.shown ++ x) ++ printed ops) same,
    )
two_way s (prints t ∷ ops) o =
    let (same, still, parts) = write_pty_parts s.pty t o in
    let (a, b) = two_way (step s (prints t)) ops still in
    (
      a ∙ ap (λ (x : Text). (s.received ++ x) ++ typed ops) same,
      b ∙ ap (λ (x : Text). (s.shown ++ x) ++ printed ops) parts ∙ simp append_assoc,
    )
two_way s (shows n ∷ ops) o =
    let (parts, still, same) = read_from_slave_parts s.pty n _ o refl in
    let (a, b) = two_way (step s (shows n)) ops still in
    (
      a ∙ ap (λ (x : Text). (s.received ++ x) ++ typed ops) same,
      b
          ∙ ap (λ (x : Text). x ++ printed ops)
              (append_assoc s.shown _ _ ∙ ap (λ (x : Text). s.shown ++ x) parts),
    )
