-- ===== src/Serial/Scanners/Found.antt =====
-- What the scanners find.
use share_serial.Base.{
  ℕ, zero, suc, ◌≡◌, refl, Bool, true, Option, none, some, List, [], ◌∷◌, ◌++◌, inl, inr,
  append-nil, append_assoc, Text, Option-cases, arith, if◌then◌else◌, sym, has_prefix, map, codes,
  has_prefix-apart, map-append,
}
use share_serial.Serial.Real.{SerialLibrary}
use share_serial.Serial.Scanners.{
  scan_patterns, tty_patterns, cu_patterns, usb_pattern, acm_pattern, legacy_pattern, scan,
  scan_pattern, scan_usb, scan_acm, scan_legacy, accessible, new_scanner_linux, new_scanner_darwin,
  scan_darwin, scan_tty, scan_cu, scan_ports, scan_ports_until, scan_windows, scan_with_timeout,
  ScannerWindows, DeviceType, port_info, get_device_type, scan_detailed, PortInfo, usb_serial,
  acm_serial, legacy_serial,
}

abbrev pub found : Option (List Text) → List Text
found none = []
found (some paths) = paths

module _ (lib : SerialLibrary) (read_file : Text → Bool) (glob : Text → Option (List Text)) where
  scan_patterns-cons :
      (pattern : Text) (patterns : List Text)
      → scan_patterns lib read_file glob (pattern ∷ patterns)
        ≡ found (scan_pattern lib read_file glob pattern)
          ++ scan_patterns lib read_file glob patterns
  unfolding scan_patterns scan_pattern
  scan_patterns-cons pattern patterns = ground arith

  scan_patterns-append :
      (ps qs : List Text)
      → scan_patterns lib read_file glob (ps ++ qs)
        ≡ scan_patterns lib read_file glob ps ++ scan_patterns lib read_file glob qs
  unfolding scan_patterns
  scan_patterns-append [] qs = refl
  scan_patterns-append (p ∷ ps) qs =
      rw (scan_patterns-cons p (ps ++ qs), scan_patterns-cons p ps, scan_patterns-append ps qs)
        (sym (
          append_assoc (found (scan_pattern lib read_file glob p))
            (scan_patterns lib read_file glob ps) (scan_patterns lib read_file glob qs)))

  -- The ports that a new Linux scanner finds are the USB ports, then the ACM ports, then the legacy
  -- ports that the special scans find; `Scan` passes over a pattern for which those return an error.
  pub scan-parts :
      scan lib read_file glob new_scanner_linux
      ≡ found (scan_usb lib read_file glob)
        ++ (found (scan_acm lib read_file glob) ++ found (scan_legacy lib read_file glob))
  unfolding scan scan_usb scan_acm scan_legacy new_scanner_linux
  scan-parts =
      rw
        (
          scan_patterns-cons usb_pattern (acm_pattern ∷ legacy_pattern ∷ []),
          scan_patterns-cons acm_pattern (legacy_pattern ∷ []),
          scan_patterns-cons legacy_pattern [],
        )
        (rw (append-nil (found (scan_pattern lib read_file glob legacy_pattern))) refl)

  -- The ports that a new macOS scanner finds are the tty ports, then the cu ports.
  scan-tty_cu :
      scan_darwin lib read_file glob new_scanner_darwin
      ≡ scan_tty lib read_file glob ++ scan_cu lib read_file glob
  unfolding scan_darwin scan_tty scan_cu new_scanner_darwin
  scan-tty_cu = scan_patterns-append tty_patterns cu_patterns

-- The description with a given type.
abbrev pub typed : DeviceType → Text → PortInfo
typed t path = record { path = path; device_type = t; vendor = []; product = [] }

abbrev pub All {ℓ} : {A : Type ℓ} → (A → Type 0) → List A → Type 0
All P [] = Unit {0}
All P (a ∷ rest) = P a × All P rest

-- What `filepath.Glob` gives for a pattern that ends in its only `*` starts with the pattern before it.
abbrev pub GlobsPrefix : (Text → Option (List Text)) → Text → Type 0
GlobsPrefix glob p =
    (matches : List Text)
    → glob (p ++ b'*' ∷ []) ≡ some matches
    → All (λ path. has_prefix path p ≡ true) matches

module _ (lib : SerialLibrary) (read_file : Text → Bool) (glob : Text → Option (List Text)) where
  kind_of_accessible :
      (t : DeviceType) (p : Text)
      → ((path : Text) → has_prefix path p ≡ true → get_device_type path ≡ t)
      → (paths : List Text) → All (λ path. has_prefix path p ≡ true) paths
      → map port_info (accessible lib read_file glob paths)
        ≡ map (typed t) (accessible lib read_file glob paths)
  unfolding accessible port_info
  kind_of_accessible t p known [] h = refl
  kind_of_accessible t p known (path ∷ paths) h =
      ground (arith, known path h.0, kind_of_accessible t p known paths h.1)

  kind_of_matches :
      (t : DeviceType) (p : Text)
      → ((path : Text) → has_prefix path p ≡ true → get_device_type path ≡ t)
      → GlobsPrefix glob p
      → map port_info (found (scan_pattern lib read_file glob (p ++ b'*' ∷ [])))
        ≡ map (typed t) (found (scan_pattern lib read_file glob (p ++ b'*' ∷ [])))
  unfolding scan_pattern
  kind_of_matches t p known globs = elim (Option-cases (glob (p ++ b'*' ∷ []))) [
    | inl e ↦ rw (e, scan_pattern) refl
    | inr (matches, e) ↦
        rw (e, scan_pattern) (kind_of_accessible t p known matches (globs matches e))
  ]

  known_usb :
      (path : Text)
      → has_prefix path (codes "/dev/ttyUSB") ≡ true
      → get_device_type path ≡ usb_serial
  unfolding get_device_type
  known_usb path h = ground arith

  known_acm :
      (path : Text)
      → has_prefix path (codes "/dev/ttyACM") ≡ true
      → get_device_type path ≡ acm_serial
  unfolding get_device_type
  known_acm path h =
      ground (arith, has_prefix-apart path (codes "/dev/ttyUSB") (codes "/dev/ttyACM") refl)

  known_legacy :
      (path : Text)
      → has_prefix path (codes "/dev/ttyS") ≡ true
      → get_device_type path ≡ legacy_serial
  unfolding get_device_type
  known_legacy path h = ground (
    arith,
    has_prefix-apart path (codes "/dev/ttyUSB") (codes "/dev/ttyS") refl,
    has_prefix-apart path (codes "/dev/ttyACM") (codes "/dev/ttyS") refl,
  )

  -- A new Linux scanner describes the USB ports as USB, the ACM ports as ACM and the legacy ports as
  -- legacy, in this order, and nothing as unknown, if `filepath.Glob` gives paths that match.
  pub scan_detailed-typed :
      GlobsPrefix glob (codes "/dev/ttyUSB")
      → GlobsPrefix glob (codes "/dev/ttyACM")
      → GlobsPrefix glob (codes "/dev/ttyS")
      → scan_detailed lib read_file glob new_scanner_linux
        ≡ map (typed usb_serial) (found (scan_usb lib read_file glob))
          ++ (map (typed acm_serial) (found (scan_acm lib read_file glob))
              ++ map (typed legacy_serial) (found (scan_legacy lib read_file glob)))
  unfolding scan_detailed scan_usb scan_acm scan_legacy
  scan_detailed-typed usb acm legacy =
      rw
        (
          scan-parts lib read_file glob,
          map-append port_info (found (scan_usb lib read_file glob))
              (found (scan_acm lib read_file glob) ++ found (scan_legacy lib read_file glob)),
          map-append port_info (found (scan_acm lib read_file glob))
              (found (scan_legacy lib read_file glob)),
          kind_of_matches usb_serial (codes "/dev/ttyUSB") known_usb usb,
          kind_of_matches acm_serial (codes "/dev/ttyACM") known_acm acm,
          kind_of_matches legacy_serial (codes "/dev/ttyS") known_legacy legacy,
        )
        refl

module _ (lib : SerialLibrary) (late : Text → Bool) where
  abbrev in_time : List Text → List Text
  in_time [] = []
  in_time (name ∷ names) = let rest = in_time names in if late name then rest else name ∷ rest

  scan_ports_until-in_time :
      (n i : ℕ) → scan_ports_until lib late n i ≡ in_time (scan_ports lib n i)
  unfolding scan_ports scan_ports_until
  scan_ports_until-in_time zero i = refl
  scan_ports_until-in_time (suc n) i = ground (arith, scan_ports_until-in_time n (suc i))

  -- With a timeout the Windows scanner finds the ports that `Scan` finds, less those that take too
  -- long to open.
  scan_with_timeout-scan :
      (s : ScannerWindows) → scan_with_timeout lib late s ≡ in_time (scan_windows lib s)
  unfolding scan_with_timeout scan_windows
  scan_with_timeout-scan s = scan_ports_until-in_time s.max_port 1
