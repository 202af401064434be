-- ===== src/Startup/Servers.antt =====
-- cmd/server/main.go and cmd/server-windows/main.go: `main` up to the goroutine that reads the port.
use share_serial.Base.{
  ℕ, Bool, false, not, Option, none, some, List, [], ◌∷◌, Text, codes, ℤ, if◌then◌else◌, ◌++◌, ◌&&◌,
  decimal, ◌+◌,
}
use share_serial.Config.{ServerConfig, default_server_config, text_or, int_or}
use share_serial.Config.Loader.{load_server}
use share_serial.Config.Ports.{listen_address}
use share_serial.Pump.{Program, at_select}
use share_serial.Serial.{open_mock, new_mock_serial_port}
use share_serial.Serial.Real.{SerialLibrary, Port, mock, new_port}
use share_serial.Server.{new_tcp_server, set_serial, start}
use share_serial.Startup.{or_default, Startup, version_shown, ports_shown, fatal, runs}

pub record ServerFlags : Type 0 where
  pub config_path : Text
  pub serial_path : Text
  pub port : ℤ
  pub show_version : Bool

pub override_server_config : ServerFlags → ServerConfig → ServerConfig
unfolding text_or int_or
override_server_config flags cfg =
    let s = cfg.serial in
    let a = cfg.server in
    record cfg {
      serial = record s { path = text_or flags.serial_path s.path };
      server = record a { port = int_or flags.port a.port };
    }

-- The configuration of both servers; `unmarshal` is the YAML library and `fs` the file system.
unfoldable pub server_config :
    (Text → Option ServerConfig) → (Text → Option Text) → ServerFlags → ServerConfig
unfolding or_default override_server_config
server_config unmarshal fs flags =
    override_server_config flags
      (or_default default_server_config (load_server unmarshal fs flags.config_path))

module _ (lib : SerialLibrary) where
  -- `NewPort`, or the stand-in if it returns an error.
  pub open_port : Option (Port lib) → Text → Port lib
  open_port none path = mock (open_mock new_mock_serial_port path)
  open_port (some p) path = p

  pub record RunningServer : Type 0 where
    pub cfg : ServerConfig
    pub port : Port lib
    pub program : Program

  -- `listen` is `net.Listen`, with the listener's address.
  unfoldable pub server_main :
      (Text → Option ServerConfig)
      → (Text → Option Text)
      → (Text → Option Text)
      → ServerFlags
      → Startup RunningServer
  unfolding server_config open_port
  server_main unmarshal fs listen flags =
      let cfg = server_config unmarshal fs flags in
      let port = open_port (new_port lib cfg.serial.path) cfg.serial.path in
      let (srv, started) = start (set_serial new_tcp_server []) (listen (listen_address cfg)) in
      if flags.show_version
      then version_shown
      else if not started
      then fatal
      else runs (record {
        cfg = cfg;
        port = port;
        program = record { server = srv; stop_closed = false; reader = at_select };
      })

-- `scanPorts` of cmd/server-windows/main.go: the lines that it prints. `ports` is what `Scan` gives.
numbered : ℕ → List Text → List Text
numbered i [] = []
numbered i (port ∷ ports) =
    (codes "  [" ++ (decimal i ++ (codes "] " ++ port))) ∷ numbered (i + 1) ports

scan_ports : Option (List Text) → List Text
unfolding numbered
scan_ports none = []
scan_ports (some []) =
    codes "\nTips:"
    ∷ codes "  - Check if device is connected"
    ∷ codes "  - Install proper drivers (e.g., FTDI, CH340)"
    ∷ codes "  - Run as Administrator for permission issues"
    ∷ []
scan_ports (some (port ∷ ports)) = codes "\nAvailable COM ports:" ∷ numbered 1 (port ∷ ports)

-- The Windows server has one more flag, `--scan`.
module _ (lib : SerialLibrary) where
  pub windows_server_main :
      (Text → Option ServerConfig)
      → (Text → Option Text)
      → (Text → Option Text)
      → Option (List Text)
      → Bool
      → ServerFlags
      → Startup (RunningServer lib)
  unfolding scan_ports
  windows_server_main unmarshal fs listen ports scan flags =
      if flags.show_version
      then version_shown
      else if scan
      then ports_shown (scan_ports ports)
      else server_main lib unmarshal fs listen flags

-- An address of a network interface, as `getLocalIP` looks at it.
pub record InterfaceAddr : Type 0 where
  pub is_ip_net : Bool
  pub is_loopback : Bool
  pub is_v4 : Bool
  pub text : Text

first_ip : List InterfaceAddr → Text
first_ip [] = codes "127.0.0.1"
first_ip (a ∷ addrs) =
    let rest = first_ip addrs in
    if a.is_ip_net && not a.is_loopback then (if a.is_v4 then a.text else rest) else rest

-- `addrs` is what `net.InterfaceAddrs` gives.
pub get_local_ip : Option (List InterfaceAddr) → Text
unfolding first_ip
get_local_ip none = codes "127.0.0.1"
get_local_ip (some addrs) = first_ip addrs
