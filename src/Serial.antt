-- ===== src/Serial.antt =====
-- pkg/serial: the serial port that stands in for a device, the handler in front of a port, and the
-- choice between a real device and its stand-in (pkg/serial/real_serial_linux.go). The proofs are in
-- the modules below this one.
pub mod Fifo
pub mod Real
pub mod Scanners
pub mod Locked
use share_serial.Base.{
  ℕ, Bool, true, false, not, Option, none, some, List, [], ◌∷◌, ◌++◌, Text, text_eq, length, take,
  drop, min, if◌then◌else◌,
}

pub data Parity : Type 0 where
  parity_none parity_odd parity_even : Parity

pub record Config : Type 0 where
  pub baud_rate : ℕ
  pub data_bits : ℕ
  pub stop_bits : ℕ
  pub parity : Parity
  pub read_timeout : ℕ

pub default_config : Config
default_config = record {
  baud_rate = 115200;
  data_bits = 8;
  stop_bits = 1;
  parity = parity_none;
  read_timeout = 0;
}

pub data PortError : Type 0 where
  eof port_not_open write_lock_not_held device_error : PortError

-- The bytes that a call read, or its error.
pub data ReadResult : Type 0 where
  bytes : Text → ReadResult
  read_error : PortError → ReadResult

pub record MockSerialPort : Type 0 where
  pub is_open : Bool
  pub path : Text
  pub input_buffer : Text
  pub output_buffer : Text

unfoldable pub new_mock_serial_port : MockSerialPort
new_mock_serial_port = record { is_open = false; path = []; input_buffer = []; output_buffer = [] }

pub open_mock : MockSerialPort → Text → MockSerialPort
open_mock m path = record m { is_open = true; path = path }

unfoldable close_mock : MockSerialPort → MockSerialPort
close_mock m = record m { is_open = false }

-- `Read` into a buffer of `n` bytes.
pub read_mock : MockSerialPort → ℕ → MockSerialPort × ReadResult
read_mock m n = elim m.input_buffer [
  | [] ↦ (m, read_error eof)
  | b ∷ bs ↦ (record m { input_buffer = drop n (b ∷ bs) }, bytes (take n (b ∷ bs)))
]

-- `Write` returns the number of bytes written.
write_mock : MockSerialPort → Text → MockSerialPort × ℕ
write_mock m buf = (record m { output_buffer = m.output_buffer ++ buf }, length buf)

pub inject_input : MockSerialPort → Text → MockSerialPort
inject_input m chunk = record m { input_buffer = m.input_buffer ++ chunk }

-- A handler on such a port, which `NewHandler` always makes.
pub record Handler : Type 0 where
  pub port : MockSerialPort
  pub config : Config
  pub write_owner : Text

unfoldable new_handler : Text → Config → Handler
unfolding open_mock new_mock_serial_port
new_handler path config = record {
  port = open_mock new_mock_serial_port path;
  config = config;
  write_owner = [];
}

unfoldable pub read : Handler → ℕ → Handler × ReadResult
unfolding read_mock
read h n = let (m, r) = read_mock h.port n in (record h { port = m }, r)

pub write : Handler → Text → Handler × ℕ
unfolding write_mock
write h buf = let (m, n) = write_mock h.port buf in (record h { port = m }, n)

unfoldable write_with_lock : Handler → Text → Text → Handler × Option PortError
unfolding write
write_with_lock h client buf =
    if not (text_eq h.write_owner client)
    then (h, some write_lock_not_held)
    else ((write h buf).0, none)

unfoldable set_write_lock_owner : Handler → Text → Handler
set_write_lock_owner h client = record h { write_owner = client }

unfoldable clear_write_lock : Handler → Handler
clear_write_lock h = record h { write_owner = [] }

unfoldable close : Handler → Handler
unfolding close_mock
close h = record h { port = close_mock h.port }
