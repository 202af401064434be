-- ===== src/Examples/Devices.antt =====
-- Serial ports and terminals at concrete inputs: pkg/serial and internal/pty.
use share_serial.Base.{
  ◌≡◌, refl, Bool, true, false, Option, none, some, List, [], ◌∷◌, ◌++◌, map, Text, codes, text_eq,
  if◌then◌else◌, has_prefix, arith,
}
use share_serial.Serial.Real.{SerialLibrary}
use share_serial.Serial.Scanners.{
  scan_usb, scan_acm, scan_legacy, scan_detailed, new_scanner_linux, usb_serial, acm_serial,
  legacy_serial,
}
use share_serial.Serial.Scanners.Found.{found, typed, scan_detailed-typed, GlobsPrefix}
use share_serial.Serial.{parity_none}
use share_serial.Pty.Real.{
  System, World, RealPty, create_real_pty, create_real_pty_darwin, close_real_pty,
}
use share_serial.Pty.Opened.{Result, created, closed, links_to}

-- A library that opens every path.
abbrev open_library : SerialLibrary
open_library = record {
  Device = Text;
  open_device = λ path rate. some path;
  read_device = λ d n. some (codes "ok");
  write_device = λ d buf. some 2;
  set_mode = λ d rate. true;
}

-- There is one USB port, and one legacy port that cannot be read.
abbrev usb_port : Text
usb_port = codes "/dev/ttyUSB0"

abbrev can_read : Text → Bool
can_read path = text_eq path usb_port

abbrev glob : Text → Option (List Text)
glob pattern =
    if text_eq pattern (codes "/dev/ttyUSB*")
    then some (usb_port ∷ [])
    else if text_eq pattern (codes "/dev/ttyS*")
    then some (codes "/dev/ttyS0" ∷ [])
    else if text_eq pattern (codes "/dev/ttyACM*")
    then some []
    else none

globs_usb : GlobsPrefix glob (codes "/dev/ttyUSB")
unfolding text_eq has_prefix
globs_usb matches e = ground arith

globs_acm : GlobsPrefix glob (codes "/dev/ttyACM")
unfolding text_eq has_prefix
globs_acm matches e = ground arith

globs_legacy : GlobsPrefix glob (codes "/dev/ttyS")
unfolding text_eq has_prefix
globs_legacy matches e = ground arith

scan_detailed-typed_example :
    scan_detailed open_library can_read glob new_scanner_linux
    ≡ map (typed usb_serial) (found (scan_usb open_library can_read glob))
      ++ (map (typed acm_serial) (found (scan_acm open_library can_read glob))
          ++ map (typed legacy_serial) (found (scan_legacy open_library can_read glob)))
scan_detailed-typed_example =
    scan_detailed-typed open_library can_read glob globs_usb globs_acm globs_legacy

-- A system that gives the descriptors 4 for the master and 5 for everything else.
abbrev system : System
system = record {
  open_path = λ path. some (if text_eq path (codes "/dev/ptmx") then 4 else 5);
  unlock = λ f. true;
  slave_id = λ f. some 7;
  get_termios = λ f. none;
  can_link = λ target path. true;
  can_remove = λ path. true;
}

abbrev world : World
world = record { open_files = 3 ∷ []; links = []; settings = [] }

created_example :
    Result world (codes "/tmp/v") (create_real_pty system world (codes "/tmp/v"))
    × Result world (codes "/tmp/v") (create_real_pty_darwin system world (codes "/tmp/v"))
created_example = created system world (codes "/tmp/v")

abbrev device : RealPty
device = elim (create_real_pty system world (codes "/tmp/v")).1 [
  | none ↦ record {
    master = 0;
    slave = 0;
    slave_path = [];
    symlink_path = [];
    is_open = false;
    files_open = false;
    termios = record { baud_rate = 0; data_bits = 0; stop_bits = 0; parity = parity_none };
  }
  | some r ↦ r
]

closed_example :
    let v = (create_real_pty system world (codes "/tmp/v")).0 in
    let after = close_real_pty system v device in
    (after.0.open_files ≡ world.open_files)
    × (links_to after.0 (codes "/tmp/v") ≡ none)
    × (close_real_pty system after.0 after.1 ≡ after)
unfolding create_real_pty
closed_example =
    closed system system system world (create_real_pty system world (codes "/tmp/v")).0
      (codes "/tmp/v") device refl
