-- ===== src/Examples/Startups.antt =====
-- The beginnings of cmd/server, cmd/client and cmd/client-windows at concrete inputs.
use share_serial.Base.{
  ℕ, true, List, ◌≡◌, refl, false, Option, none, some, [], ◌∷◌, ◌++◌, Text, codes, pos, Lacks,
  Lacks-member, cut, arith, has_prefix, after_prefix,
}
use share_serial.Config.Ports.{listen_address, server_address, override_server, int_to_string}
use share_serial.Config.{default_server_config, default_client_config}
use share_serial.Serial.{open_mock, new_mock_serial_port}
use share_serial.Serial.Real.{SerialLibrary, mock, new_port}
use share_serial.Server.{started, start}
use share_serial.Config.Loader.{load_server, load_client}
use share_serial.Pump.{at_select}
use share_serial.Reconnect
use share_serial.Reconnect.{new_reconnect_manager, auto_reconnect}
use share_serial.Startup.Servers.{ServerFlags, RunningServer, server_config, server_main}
use share_serial.Startup.Clients.{ClientFlags, RunningClient, client_config, client_main}
use share_serial.Startup.Meeting.{client_meets_server}
use share_serial.Startup.Clients.{RunningWindowsClient, windows_client_main, waited, proxy_started}
use share_serial.Startup.Windows.{Gave, program, windows_client_keeps_server}
use share_serial.WindowsClient
use share_serial.WindowsClient.{new_connection_manager}
use share_serial.WindowsClient.Monitored.{happen, Uses, reads_remote, monitors}
use share_serial.LocalProxy
use share_serial.LocalProxy.{new_local_proxy}

-- A library for which no device is there.
abbrev no_devices : SerialLibrary
no_devices = record {
  Device = Text;
  open_device = λ path rate. none;
  read_device = λ d n. none;
  write_device = λ d buf. none;
  set_mode = λ d rate. false;
}

abbrev server_flags : ServerFlags
server_flags = record {
  config_path = [];
  serial_path = codes "/dev/ttyACM0";
  port = pos 7800;
  show_version = false;
}

abbrev client_flags : ClientFlags
client_flags = record {
  config_path = [];
  server_addr = codes "0.0.0.0:7800";
  pty_path = [];
  max_retry = pos 0;
  retry_interval = pos 0;
  show_version = false;
}

abbrev no_files : Text → Option Text
no_files path = none

abbrev split : Text → Option (Text × Text)
split s = cut s (codes ":")

split-Splits : (host t : Text) → Lacks b':' host → split (host ++ (b':' ∷ t)) ≡ some (host, t)
unfolding cut has_prefix after_prefix
split-Splits [] t h = refl
split-Splits (c ∷ host) t h = ground (arith, split-Splits host t h.1)

abbrev running_server : RunningServer no_devices
running_server = record {
  cfg = server_config (λ t. none) no_files server_flags;
  port = mock (open_mock new_mock_serial_port (codes "/dev/ttyACM0"));
  program = record {
    server = started [] (codes "0.0.0.0:7800");
    stop_closed = false;
    reader = at_select;
  };
}

abbrev running_client : RunningClient Text
running_client = record {
  cfg = client_config (λ t. none) no_files split client_flags;
  device = codes "/tmp/vttyShare0";
  reconn =
      auto_reconnect
        (Reconnect.connect (new_reconnect_manager (codes "0.0.0.0:7800") 10) (some 1)).0;
}

client_meets_server_example :
    (some (listen_address running_server.cfg) ≡ some (codes "0.0.0.0:7800"))
    × (running_client.reconn.manager.server_addr ≡ listen_address running_server.cfg)
    × (running_client.reconn.manager.conn ≡ some 1)
unfolding server_main client_main start started load_server load_client listen_address new_port
    default_server_config default_client_config server_address cut Reconnect.connect override_server
    has_prefix after_prefix
client_meets_server_example =
    client_meets_server no_devices (λ t. none) no_files (λ a. some a) server_flags (λ t. none)
      no_files split (λ path. some path) (λ a. some 1) client_flags running_server running_client
      7800 (λ host n colon left right. split-Splits host (int_to_string (pos n)) colon) refl refl
      refl (omega arith) (Lacks-member b':' (codes "0.0.0.0") refl)
      (Lacks-member b'[' (codes "0.0.0.0") refl) (Lacks-member b']' (codes "0.0.0.0") refl) refl

-- The first call fails, and the second step of the goroutine calls again.
abbrev windows_dials : List (Text → Option ℕ)
windows_dials = (λ a. none) ∷ (λ a. some 1) ∷ []

abbrev running_windows_client : RunningWindowsClient
running_windows_client = record {
  cfg = client_config (λ t. none) no_files split client_flags;
  proxy = (LocalProxy.start (new_local_proxy 8888) 1 true).0;
  conn_mgr =
      waited (WindowsClient.start (new_connection_manager (codes "0.0.0.0:7800") 10) none)
        windows_dials;
  monitor = record { last_conn = some 1; returned = false };
}

windows_client_keeps_server_example :
    let after =
      happen
        (program running_windows_client)
        (reads_remote (some (codes "hi")) ∷ reads_remote none ∷ monitors ∷ []) in
    (some (listen_address running_server.cfg) ≡ some (codes "0.0.0.0:7800"))
    × (after.loop.manager.server_addr ≡ listen_address running_server.cfg)
    × ((c : ℕ) × Gave (listen_address running_server.cfg) c ((λ a. none) ∷ windows_dials)
        × Uses c after)
unfolding server_main windows_client_main start started load_server load_client listen_address
    new_port default_server_config default_client_config server_address cut override_server
    has_prefix after_prefix new_connection_manager new_local_proxy waited proxy_started
    LocalProxy.start WindowsClient.start WindowsClient.step
windows_client_keeps_server_example =
    windows_client_keeps_server no_devices (λ t. none) no_files (λ a. some a) server_flags
      (λ t. none) no_files split (λ a. none) windows_dials true 8888 client_flags running_server
      running_windows_client 7800
      (reads_remote (some (codes "hi")) ∷ reads_remote none ∷ monitors ∷ [])
      (λ host n colon left right. split-Splits host (int_to_string (pos n)) colon) refl refl refl
      (omega arith) (Lacks-member b':' (codes "0.0.0.0") refl)
      (Lacks-member b'[' (codes "0.0.0.0") refl) (Lacks-member b']' (codes "0.0.0.0") refl) refl
