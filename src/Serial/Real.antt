-- ===== src/Serial/Real.antt =====
-- pkg/serial/real_serial_linux.go: the real port, over the serial library, and `NewPort`.
use share_serial.Base.{
  ◌⊎◌, ℕ, ◌≡◌, refl, inl, inr, Bool, true, false, not, Option, none, some, List, [], ◌∷◌, Text,
  if◌then◌else◌, Option-cases, arith,
}
use share_serial.Serial.{Config, default_config, MockSerialPort, open_mock, new_mock_serial_port}

-- The library's port: what `serial.Open` gives for a path and a rate, and its calls. `none` is an error.
pub record SerialLibrary : Type 1 where
  pub Device : Type 0
  pub open_device : Text → ℕ → Option Device
  pub read_device : Device → ℕ → Option Text
  pub write_device : Device → Text → Option ℕ
  pub set_mode : Device → ℕ → Bool

module _ (lib : SerialLibrary) where
  open lib use {Device, open_device, read_device, write_device, set_mode}

  -- `closed_devices` holds the devices whose `Close` was called.
  pub record RealSerialPort : Type 0 where
    pub port : Option Device
    pub is_open : Bool
    pub path : Text
    pub config : Config
    pub closed_devices : List Device

  unfoldable pub new_real_serial_port : RealSerialPort
  unfolding default_config
  new_real_serial_port = record {
    port = none;
    is_open = false;
    path = [];
    config = default_config;
    closed_devices = [];
  }

  -- The flag tells whether the call succeeded.
  unfoldable pub open_real : RealSerialPort → Text → RealSerialPort × Bool
  open_real r path = elim (open_device path (r.config.baud_rate)) [
    | none ↦ (r, false)
    | some d ↦ (record r { port = some d; path = path; is_open = true }, true)
  ]

  unfoldable device_closed : Option Device → List Device → List Device
  device_closed none closed = closed
  device_closed (some d) closed = d ∷ closed

  unfoldable pub close_real : RealSerialPort → RealSerialPort
  unfolding device_closed
  close_real r = record r {
    is_open = false;
    closed_devices = device_closed r.port r.closed_devices;
  }

  -- What a call on the port gives: the port is not open, the device fails, or a value.
  pub data Outcome (A : Type 0) : Type 0 where
    not_open : Outcome A
    device_failed : Outcome A
    done : A → Outcome A

  from_device : {A : Type 0} → Option A → Outcome A
  from_device none = device_failed
  from_device (some a) = done a

  unfoldable read_real : RealSerialPort → ℕ → Outcome Text
  unfolding from_device
  read_real r n = elim r.port [
    | none ↦ not_open
    | some d ↦ if not r.is_open then not_open else from_device (read_device d n)
  ]

  unfoldable write_real : RealSerialPort → Text → Outcome ℕ
  unfolding from_device
  write_real r buf = elim r.port [
    | none ↦ not_open
    | some d ↦ if not r.is_open then not_open else from_device (write_device d buf)
  ]

  -- The configuration is set even if the device refuses the mode.
  unfoldable pub set_config : RealSerialPort → Config → RealSerialPort × Bool
  set_config r config = elim r.port [
    | none ↦ (record r { config = config }, true)
    | some d ↦ (record r { config = config }, set_mode d (config.baud_rate))
  ]

  pub data Port : Type 0 where
    real : RealSerialPort → Port
    mock : MockSerialPort → Port

  fall_back : Text → RealSerialPort × Bool → Option Port
  unfolding open_mock new_mock_serial_port
  fall_back path (r, true) = some (real r)
  fall_back path (r, false) = some (mock (open_mock new_mock_serial_port path))

  -- `NewPort`; opening the stand-in does not fail, so its own error branch is not there.
  unfoldable pub new_port : Text → Option Port
  unfolding fall_back open_real new_real_serial_port
  new_port path = fall_back path (open_real new_real_serial_port path)

  abbrev pub port_is_open : Port → Bool
  port_is_open (real r) = r.is_open
  port_is_open (mock m) = m.is_open

  -- `NewPort` never fails: it gives an open port for every path, real exactly if the library opens the
  -- device at 115200 baud. So the fallback that `main` has for its error is never taken.
  new_port_total :
      (path : Text)
      → (p : Port) × (new_port path ≡ some p)
        × (port_is_open p ≡ true)
        × (((open_device path 115200 ≡ none)
              × (p
                  ≡ mock (record {
                    is_open = true;
                    path = path;
                    input_buffer = [];
                    output_buffer = [];
                  })))
            ⊎ ((d : Device) × (open_device path 115200 ≡ some d)
                × (p
                    ≡ real (record {
                      port = some d;
                      is_open = true;
                      path = path;
                      config = default_config;
                      closed_devices = [];
                    }))))
  unfolding new_port fall_back open_real default_config
  new_port_total path = elim (Option-cases (open_device path 115200)) [
    | inl e ↦ (mock (open_mock new_mock_serial_port path), ground arith, refl, inl (e, refl))
    | inr (d, e) ↦ (
      real (record {
        port = some d;
        is_open = true;
        path = path;
        config = default_config;
        closed_devices = [];
      }),
      ground arith,
      refl,
      inr (d, e, refl),
    )
  ]
