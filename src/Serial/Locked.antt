-- ===== src/Serial/Locked.antt =====
-- pkg/serial/real_serial_windows.go and real_serial_darwin.go, which have the same code: the port of
-- real_serial_linux.go with a mutex around every method.
use share_serial.Base.{
  ◌⊎◌, ℕ, ◌≡◌, refl, true, not, Option, none, some, List, [], ◌∷◌, Text, if◌then◌else◌,
}
use share_serial.Guarded
use share_serial.Guarded.{Guarded, Event, delivers}
use share_serial.Serial.{Config}
use share_serial.Serial.Real.{SerialLibrary, RealSerialPort, open_real, close_real, set_config}

module _ (lib : SerialLibrary) where
  -- The methods with their arguments; a read has the size of its buffer.
  pub data Call : Type 0 where
    call_open : Text → Call
    call_close : Call
    call_read : ℕ → Call
    call_write : Text → Call
    call_is_open : Call
    call_set_config : Config → Call
    call_get_path : Call

  abbrev pub Port : Type 0
  Port = RealSerialPort lib

  -- A read or a write of an open port waits for its device, which answers it with `deliver`; the other
  -- calls return.
  unfoldable pub finish : Port → Call → Option Port
  unfolding open_real close_real set_config
  finish r (call_open path) = some (open_real lib r path).0
  finish r call_close = some (close_real lib r)
  finish r (call_read n) = elim r.port [
    | none ↦ some r
    | some d ↦ if not r.is_open then some r else none
  ]
  finish r (call_write buf) = elim r.port [
    | none ↦ some r
    | some d ↦ if not r.is_open then some r else none
  ]
  finish r call_is_open = some r
  finish r (call_set_config config) = some (set_config lib r config).0
  finish r call_get_path = some r

  unfoldable pub deliver : Port → Call → Text → Option Port
  deliver r (call_open path) chunk = none
  deliver r call_close chunk = none
  deliver r (call_read n) chunk = some r
  deliver r (call_write buf) chunk = some r
  deliver r call_is_open chunk = none
  deliver r (call_set_config config) chunk = none
  deliver r call_get_path chunk = none

  -- On Windows and macOS, while a `Read` of the open port waits, no other call is served, `Write` and
  -- `Close` included: whatever happens begins with the device answering the reader.
  read_locks_out :
      (r : Port) (d : lib.Device) (n : ℕ) (es : List (Event Call)) (h : Guarded Port Call)
      → r.port ≡ some d
      → r.is_open ≡ true
      → Guarded.run finish deliver (record { state = r; inside = some (call_read n) }) es ≡ some h
      → (es ≡ []) ⊎ ((chunk : Text) × (rest : List (Event Call)) × (es ≡ delivers chunk ∷ rest))
  unfolding finish
  read_locks_out r d n es h port open_port ran =
      Guarded.waits finish deliver (record { state = r; inside = some (call_read n) }) h
        (call_read n) es refl (rw (port, open_port) refl) ran
