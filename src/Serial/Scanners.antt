-- ===== src/Serial/Scanners.antt =====
-- pkg/serial/scanner_linux.go, scanner_darwin.go and scanner_windows.go: the search for serial ports.
-- The proofs are in the module below this one.
pub mod Found
use share_serial.Base.{
  ℕ, zero, suc, ◌+◌, Bool, true, false, ◌&&◌, ◌||◌, Option, none, some, List, [], ◌∷◌, ◌++◌, map,
  Text, codes, has_prefix, decimal, if◌then◌else◌,
}
use share_serial.Serial.Real.{SerialLibrary, RealSerialPort, open_real, new_real_serial_port}

pub record ScannerLinux : Type 0 where
  pub search_paths : List Text

abbrev pub usb_pattern : Text
usb_pattern = codes "/dev/ttyUSB*"

abbrev pub acm_pattern : Text
acm_pattern = codes "/dev/ttyACM*"

abbrev pub legacy_pattern : Text
legacy_pattern = codes "/dev/ttyS*"

pub new_scanner_linux : ScannerLinux
new_scanner_linux = record { search_paths = usb_pattern ∷ acm_pattern ∷ legacy_pattern ∷ [] }

unfoldable set_search_paths : ScannerLinux → List Text → ScannerLinux
set_search_paths s paths = record s { search_paths = paths }

unfoldable add_search_path : ScannerLinux → Text → ScannerLinux
add_search_path s pattern = record s { search_paths = s.search_paths ++ pattern ∷ [] }

-- What `GetDeviceType` gives.
pub data DeviceType : Type 0 where
  usb_serial acm_serial legacy_serial usb_serial_ftdi usb_modem unknown : DeviceType

pub get_device_type : Text → DeviceType
unfolding has_prefix
get_device_type path =
    if has_prefix path (codes "/dev/ttyUSB")
    then usb_serial
    else if has_prefix path (codes "/dev/ttyACM")
    then acm_serial
    else if has_prefix path (codes "/dev/ttyS")
    then legacy_serial
    else unknown

unfoldable get_device_type_darwin : Text → DeviceType
unfolding has_prefix
get_device_type_darwin path =
    if has_prefix path (codes "/dev/tty.usbserial") || has_prefix path (codes "/dev/cu.usbserial")
    then usb_serial_ftdi
    else if has_prefix path (codes "/dev/tty.usbmodem")
        || has_prefix path (codes "/dev/cu.usbmodem")
    then usb_modem
    else unknown

pub record PortInfo : Type 0 where
  pub path : Text
  pub device_type : DeviceType
  pub vendor : Text
  pub product : Text

pub port_info : Text → PortInfo
unfolding get_device_type
port_info path = record {
  path = path;
  device_type = get_device_type path;
  vendor = [];
  product = [];
}

abbrev pub tty_patterns : List Text
tty_patterns = codes "/dev/tty.usbserial*" ∷ codes "/dev/tty.usbmodem*" ∷ []

abbrev pub cu_patterns : List Text
cu_patterns = codes "/dev/cu.usbserial*" ∷ codes "/dev/cu.usbmodem*" ∷ []

-- The search paths of `NewScannerDarwin`.
abbrev pub darwin_patterns : List Text
darwin_patterns =
    codes "/dev/tty.usbserial*"
    ∷ codes "/dev/tty.usbmodem*"
    ∷ codes "/dev/cu.usbserial*"
    ∷ codes "/dev/cu.usbmodem*"
    ∷ []

pub record ScannerDarwin : Type 0 where
  pub search_paths : List Text

unfoldable pub new_scanner_darwin : ScannerDarwin
new_scanner_darwin = record { search_paths = darwin_patterns }

-- `read_file` tells whether `ioutil.ReadFile` succeeds, `glob` is `filepath.Glob`; `none` is an error.
module _ (lib : SerialLibrary) (read_file : Text → Bool) (glob : Text → Option (List Text)) where
  pub opens : Text → Bool
  unfolding open_real new_real_serial_port
  opens path = (open_real lib (new_real_serial_port lib) path).1

  is_accessible : Text → Bool
  unfolding opens
  is_accessible path = read_file path && opens path

  pub accessible : List Text → List Text
  unfolding is_accessible
  accessible [] = []
  accessible (path ∷ paths) =
      let rest = accessible paths in if is_accessible path then path ∷ rest else rest

  unfoldable pub is_port_available_unix : Text → Bool
  unfolding is_accessible
  is_port_available_unix path = is_accessible path

  -- The loops of `Scan`, `ScanTTY` and `ScanCU`: a pattern with an error is passed over.
  pub scan_patterns : List Text → List Text
  unfolding accessible
  scan_patterns [] = []
  scan_patterns (pattern ∷ patterns) = elim (glob pattern) [
    | none ↦ scan_patterns patterns
    | some matches ↦ accessible matches ++ scan_patterns patterns
  ]

  pub scan : ScannerLinux → List Text
  unfolding scan_patterns
  scan s = scan_patterns s.search_paths

  pub scan_pattern : Text → Option (List Text)
  unfolding accessible
  scan_pattern pattern = elim (glob pattern) [
    | none ↦ none
    | some matches ↦ some (accessible matches)
  ]

  pub scan_usb : Option (List Text)
  unfolding scan_pattern
  scan_usb = scan_pattern usb_pattern

  pub scan_acm : Option (List Text)
  unfolding scan_pattern
  scan_acm = scan_pattern acm_pattern

  pub scan_legacy : Option (List Text)
  unfolding scan_pattern
  scan_legacy = scan_pattern legacy_pattern

  pub scan_detailed : ScannerLinux → List PortInfo
  unfolding scan port_info
  scan_detailed s = map port_info (scan s)

  pub scan_darwin : ScannerDarwin → List Text
  unfolding scan_patterns
  scan_darwin s = scan_patterns s.search_paths

  pub scan_tty : List Text
  unfolding scan_patterns
  scan_tty = scan_patterns tty_patterns

  pub scan_cu : List Text
  unfolding scan_patterns
  scan_cu = scan_patterns cu_patterns

-- `maxPort`; a number below 0 means the same as 0.
pub record ScannerWindows : Type 0 where
  pub max_port : ℕ

unfoldable new_scanner_windows : ScannerWindows
new_scanner_windows = record { max_port = 30 }

unfoldable set_max_port : ScannerWindows → ℕ → ScannerWindows
set_max_port s max = record s { max_port = max }

-- `fmt.Sprintf("COM%d", i)`
port_name : ℕ → Text
port_name i = codes "COM" ++ decimal i

-- Windows has no file to read first: a port is tried by opening it.
module _ (lib : SerialLibrary) where
  is_port_available : Text → Bool
  unfolding open_real new_real_serial_port
  is_port_available name = (open_real lib (new_real_serial_port lib) name).1

  -- The loop of `Scan` over so many ports, from `i`.
  pub scan_ports : ℕ → ℕ → List Text
  unfolding is_port_available port_name
  scan_ports zero i = []
  scan_ports (suc n) i =
      let rest = scan_ports n (suc i) in
      if is_port_available (port_name i) then port_name i ∷ rest else rest

  pub scan_windows : ScannerWindows → List Text
  unfolding scan_ports
  scan_windows s = scan_ports s.max_port 1

  -- The scanner keeps the wider range.
  unfoldable scan_extended : ScannerWindows → ScannerWindows × List Text
  unfolding scan_windows
  scan_extended s = let wide = record s { max_port = 255 } in (wide, scan_windows wide)

  -- `late` tells which ports take longer to open than the timeout.
  pub scan_ports_until : (Text → Bool) → ℕ → ℕ → List Text
  unfolding is_port_available port_name
  scan_ports_until late zero i = []
  scan_ports_until late (suc n) i =
      let rest = scan_ports_until late n (suc i) in
      if late (port_name i)
      then rest
      else if is_port_available (port_name i)
      then port_name i ∷ rest
      else rest

  pub scan_with_timeout : (Text → Bool) → ScannerWindows → List Text
  unfolding scan_ports_until
  scan_with_timeout late s = scan_ports_until late s.max_port 1
