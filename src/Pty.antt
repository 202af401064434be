-- ===== src/Pty.antt =====
-- internal/pty/pty.go: the stand-in for a virtual terminal. The proofs are in the module below this
-- one.
pub mod TwoWay
pub mod Real
pub mod Opened
pub mod Held
pub mod Terminals
use share_serial.Base.{
  ℕ, Bool, true, false, not, List, [], ◌∷◌, ◌++◌, Text, length, take, drop, if◌then◌else◌,
}
use share_serial.Serial.{Parity, parity_none}

pub record TermiosConfig : Type 0 where
  pub baud_rate : ℕ
  pub data_bits : ℕ
  pub stop_bits : ℕ
  pub parity : Parity

-- The channel `dataReady` only wakes a `Read` that waits.
pub record MockPty : Type 0 where
  pub symlink_path : Text
  pub master_buffer : Text
  pub slave_buffer : Text
  pub external_data : Text
  pub is_open : Bool
  pub termios : TermiosConfig

-- What a call gives: the error of a closed terminal, no data (`Read` waits, `ReadFromSlave` fails), or
-- bytes.
pub data PtyRead : Type 0 where
  pty_closed pty_empty : PtyRead
  pty_bytes : Text → PtyRead

unfoldable pub create_mock_pty : Text → MockPty
create_mock_pty path = record {
  symlink_path = path;
  master_buffer = [];
  slave_buffer = [];
  external_data = [];
  is_open = true;
  termios = record { baud_rate = 115200; data_bits = 8; stop_bits = 1; parity = parity_none };
}

-- `Read` into a buffer of `n` bytes.
unfoldable pub read_pty : MockPty → ℕ → MockPty × PtyRead
read_pty m n = elim m.external_data [
  | [] ↦ (m, if m.is_open then pty_empty else pty_closed)
  | b ∷ bs ↦
      if not m.is_open
      then (m, pty_closed)
      else (record m { external_data = drop n (b ∷ bs) }, pty_bytes (take n (b ∷ bs)))
]

pub read_from_slave : MockPty → ℕ → MockPty × PtyRead
read_from_slave m n = elim m.slave_buffer [
  | [] ↦ (m, if m.is_open then pty_empty else pty_closed)
  | b ∷ bs ↦
      if not m.is_open
      then (m, pty_closed)
      else (record m { slave_buffer = drop n (b ∷ bs) }, pty_bytes (take n (b ∷ bs)))
]

-- The flag tells whether the write was accepted.
unfoldable pub write_pty : MockPty → Text → MockPty × Bool
write_pty m buf = if not m.is_open then (m, false) else (
  record m { slave_buffer = m.slave_buffer ++ buf; master_buffer = m.master_buffer ++ buf },
  true,
)

unfoldable pub inject_external_data : MockPty → Text → MockPty
inject_external_data m chunk = record m { external_data = m.external_data ++ chunk }

unfoldable get_slave_data : MockPty → Text
get_slave_data m = m.slave_buffer

unfoldable pub close_pty : MockPty → MockPty
close_pty m = record m { is_open = false }

unfoldable set_termios : MockPty → TermiosConfig → MockPty
set_termios m config = record m { termios = config }
