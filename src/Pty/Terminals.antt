-- ===== src/Pty/Terminals.antt =====
-- internal/pty/pty.go: the interface `PTYDevice`, as far as the client calls it, with what the client
-- relies on; and its two implementations, `MockPTY` and the `RealPTYDevice` of real_pty_linux.go.
use share_serial.Base.{
  ℕ, zero, suc, ap, ◌∙◌, ◌<◌, ◌≡◌, refl, sym, Bool, true, false, not, [], ◌∷◌, ◌++◌, Text, take,
  drop, take-append-drop, if◌then◌else◌, arith,
}
use share_serial.Pty.{
  MockPty, PtyRead, pty_closed, pty_empty, pty_bytes, read_pty, write_pty, close_pty,
}
use share_serial.Pty.Real.{System, World, RealPty, close_real_pty}

-- The flag of `write` tells whether the write was accepted.
pub record Terminal : Type 1 where
  pub Device : Type 0
  pub read : Device → ℕ → Device × PtyRead
  pub write : Device → Text → Device × Bool
  pub close : Device → Device

-- What a read gives that finds these bytes: some first bytes, and it leaves the others.
pub record Given (T : Terminal) (opens : T.Device → Bool) (typed : T.Device → Text) (d : T.Device)
    (n : ℕ) : Type 0 where
  pub next : T.Device
  pub first : ℕ
  pub others : Text
  pub gives : T.read d n ≡ (next, pty_bytes (first ∷ others))
  pub rest : (first ∷ others) ++ typed next ≡ typed d
  pub stays_open : opens next ≡ true

-- A terminal between the program and its user: `shown` is what it has passed on to the user, `typed`
-- what the user has typed and the program has not read.
pub record IsTerminal (T : Terminal) : Type 0 where
  pub opens : T.Device → Bool
  pub shown : T.Device → Text
  pub typed : T.Device → Text
  pub write_shown :
      (d : T.Device) (buf : Text) → opens d ≡ true → shown (T.write d buf).0 ≡ shown d ++ buf
  pub write_opens : (d : T.Device) (buf : Text) → opens d ≡ true → opens (T.write d buf).0 ≡ true
  pub read_waits :
      (d : T.Device) (n : ℕ) → opens d ≡ true → typed d ≡ [] → T.read d n ≡ (d, pty_empty)
  pub read_gives :
      (d : T.Device) (n b : ℕ) (bs : Text)
      → opens d ≡ true
      → 0 < n
      → typed d ≡ b ∷ bs
      → Given T opens typed d n

abbrev pub mock_terminal : Terminal
mock_terminal = record { Device = MockPty; read = read_pty; write = write_pty; close = close_pty }

pub write_pty-shown :
    (d : MockPty) (buf : Text)
    → d.is_open ≡ true
    → (write_pty d buf).0.slave_buffer ≡ d.slave_buffer ++ buf
unfolding write_pty
write_pty-shown d buf h = ground arith

pub write_pty-opens :
    (d : MockPty) (buf : Text) → d.is_open ≡ true → (write_pty d buf).0.is_open ≡ true
unfolding write_pty
write_pty-opens d buf h = ground arith

pub mock_waits :
    (d : MockPty) (n : ℕ) → d.is_open ≡ true → d.external_data ≡ [] → read_pty d n ≡ (d, pty_empty)
unfolding read_pty
mock_waits d n o e = ground arith

read_pty-given :
    (d : MockPty) (n b : ℕ) (bs : Text)
    → d.is_open ≡ true
    → d.external_data ≡ b ∷ bs
    → read_pty d (suc n) ≡ (record d { external_data = drop n bs }, pty_bytes (b ∷ take n bs))
unfolding read_pty
read_pty-given d n b bs o e = ground arith

pub mock_gives :
    (d : MockPty) (n b : ℕ) (bs : Text)
    → d.is_open ≡ true
    → 0 < n
    → d.external_data ≡ b ∷ bs
    → Given mock_terminal (λ d. d.is_open) (λ d. d.external_data) d n
mock_gives d zero b bs o h e = absurd (omega (arith, h))
mock_gives d (suc n) b bs o h e = record {
  next = record d { external_data = drop n bs };
  first = b;
  others = take n bs;
  gives = read_pty-given d n b bs o e;
  rest = ap (◌∷◌ b) (take-append-drop n bs) ∙ sym e;
  stays_open = o;
}

-- The stand-in is a terminal whose user types by `InjectExternalData` and sees the slave's buffer.
unfoldable pub mock_laws : IsTerminal mock_terminal
mock_laws = record {
  opens = λ d. d.is_open;
  shown = λ d. d.slave_buffer;
  typed = λ d. d.external_data;
  write_shown = write_pty-shown;
  write_opens = write_pty-opens;
  read_waits = mock_waits;
  read_gives = mock_gives;
}

-- The system's side of a real terminal in raw mode, from its master.
pub record Line : Type 1 where
  pub State : Type 0
  pub read_master : State → ℕ → State × PtyRead
  pub write_master : State → Text → State × Bool

-- What the system documents of it: what is written to the master is what the slave reads, and a read of
-- the master gives bytes that were written to the slave, in order, and waits for one.
pub record IsRaw (line : Line) : Type 0 where
  pub shown : line.State → Text
  pub typed : line.State → Text
  pub write_shown :
      (s : line.State) (buf : Text) → shown (line.write_master s buf).0 ≡ shown s ++ buf
  pub read_waits : (s : line.State) (n : ℕ) → typed s ≡ [] → line.read_master s n ≡ (s, pty_empty)
  pub read_gives :
      (s : line.State) (n b : ℕ) (bs : Text)
      → 0 < n
      → typed s ≡ b ∷ bs
      → (t : line.State) × (c : ℕ) × (cs : Text) × (line.read_master s n ≡ (t, pty_bytes (c ∷ cs)))
        × ((c ∷ cs) ++ typed t ≡ typed s)

-- A `RealPTYDevice`, the files and links of the system, and the terminal's line.
pub record RealTerminal (line : Line) : Type 0 where
  pub world : World
  pub device : RealPty
  pub state : line.State

module _ (line : Line) where
  unfoldable pub read_real : RealTerminal line → ℕ → RealTerminal line × PtyRead
  read_real d n =
      let (s, got) = line.read_master d.state n in
      if not d.device.is_open then (d, pty_closed) else (record d { state = s }, got)

  unfoldable pub write_real : RealTerminal line → Text → RealTerminal line × Bool
  write_real d buf =
      let (s, done) = line.write_master d.state buf in
      if not d.device.is_open then (d, false) else (record d { state = s }, done)

  unfoldable pub close_terminal : System → RealTerminal line → RealTerminal line
  unfolding close_real_pty
  close_terminal sys d =
      let (w, r) = close_real_pty sys d.world d.device in record d { world = w; device = r }

  abbrev pub real_terminal : System → Terminal
  real_terminal sys = record {
    Device = RealTerminal line;
    read = read_real;
    write = write_real;
    close = close_terminal sys;
  }

module _ (line : Line) (raw : IsRaw line) (sys : System) where
  pub real_gives :
      (d : RealTerminal line) (n b : ℕ) (bs : Text)
      → d.device.is_open ≡ true
      → 0 < n
      → raw.typed d.state ≡ b ∷ bs
      → Given (real_terminal line sys) (λ d. d.device.is_open) (λ d. raw.typed d.state) d n
  unfolding read_real
  real_gives d n b bs o h e =
      let (t, c, cs, gives, rest) = raw.read_gives d.state n b bs h e in
      record {
        next = record d { state = t };
        first = c;
        others = cs;
        gives = rw (o, gives) refl;
        rest = rest;
        stays_open = o;
      }

  -- A real terminal whose line behaves as the system documents.
  unfoldable pub real_laws : IsTerminal (real_terminal line sys)
  unfolding read_real write_real
  real_laws = record {
    opens = λ d. d.device.is_open;
    shown = λ d. raw.shown d.state;
    typed = λ d. raw.typed d.state;
    write_shown = λ d buf h. rw h (raw.write_shown d.state buf);
    write_opens = λ d buf h. rw h refl;
    read_waits = λ d n h e. rw (h, raw.read_waits d.state n e) refl;
    read_gives = real_gives;
  }
