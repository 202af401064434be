-- ===== src/Startup/Clients.antt =====
-- cmd/client/main.go and cmd/client-windows/main.go: `main` up to the goroutines that pass bytes on.
use share_serial.Base.{
  ℕ, Bool, true, false, Option, none, some, List, [], ◌∷◌, Text, ℤ, pos, negsuc, if◌then◌else◌,
}
use share_serial.Config.{ClientConfig, default_client_config, text_or, int_or}
use share_serial.Config.Loader.{load_client}
use share_serial.Config.Ports.{server_address, override_server}
use share_serial.LocalProxy
use share_serial.LocalProxy.{LocalProxy, new_local_proxy}
use share_serial.Reconnect
use share_serial.Reconnect.{ReconnectManager, AutoReconnect, new_reconnect_manager, auto_reconnect}
use share_serial.WindowsClient
use share_serial.WindowsClient.{ReconnectLoop, ConnectionManager, Monitor, new_connection_manager}
use share_serial.Startup.{or_default, Startup, version_shown, fatal, runs}

pub record ClientFlags : Type 0 where
  pub config_path : Text
  pub server_addr : Text
  pub pty_path : Text
  pub max_retry : ℤ
  pub retry_interval : ℤ
  pub show_version : Bool

-- `split` is `net.SplitHostPort`. The Windows client has no flag for a terminal.
unfoldable pub override_client_config :
    (Text → Option (Text × Text)) → ClientFlags → ClientConfig → ClientConfig
unfolding text_or int_or
override_client_config split flags cfg =
    let c = override_server cfg flags.server_addr (split flags.server_addr) in
    let p = c.pty in
    let r = c.reconnect in
    record c {
      pty = record p { path = text_or flags.pty_path p.path };
      reconnect = record r {
        max_retry = int_or flags.max_retry r.max_retry;
        interval = int_or flags.retry_interval r.interval;
      };
    }

unfoldable pub client_config :
    (Text → Option ClientConfig)
    → (Text → Option Text)
    → (Text → Option (Text × Text))
    → ClientFlags
    → ClientConfig
unfolding or_default override_client_config
client_config unmarshal fs split flags =
    override_client_config split flags
      (or_default default_client_config (load_client unmarshal fs flags.config_path))

-- A limit of attempts below 0 is none.
pub limit : ℤ → ℕ
limit (pos n) = n
limit (negsuc n) = 0

pub record RunningClient (Device : Type 0) : Type 0 where
  pub cfg : ClientConfig
  pub device : Device
  pub reconn : AutoReconnect

module _ {Device : Type 0} where
  unfoldable pub connected :
      ClientConfig
      → Device
      → ReconnectManager × Option Reconnect.RetryError
      → Startup (RunningClient Device)
  connected cfg device (m, some err) = fatal
  connected cfg device (m, none) =
      runs (record { cfg = cfg; device = device; reconn = auto_reconnect m })

  -- `create` is `pty.CreatePTY`, and `dial` is `net.Dial` on an address.
  unfoldable pub client_main :
      (Text → Option ClientConfig)
      → (Text → Option Text)
      → (Text → Option (Text × Text))
      → (Text → Option Device)
      → (Text → Option ℕ)
      → ClientFlags
      → Startup (RunningClient Device)
  unfolding client_config connected limit
  client_main unmarshal fs split create dial flags =
      let cfg = client_config unmarshal fs split flags in
      let m = new_reconnect_manager (server_address cfg) (limit cfg.reconnect.max_retry) in
      let opened : Startup (RunningClient Device) = elim (create cfg.pty.path) [
        | none ↦ fatal
        | some device ↦ connected cfg device (Reconnect.connect m (dial (server_address cfg)))
      ] in
      if flags.show_version then version_shown else opened

pub record RunningWindowsClient : Type 0 where
  pub cfg : ClientConfig
  pub proxy : LocalProxy
  pub conn_mgr : ReconnectLoop
  pub monitor : Monitor

-- The steps of the manager's goroutine while `main` waits for a connection.
unfoldable pub waited : ReconnectLoop → List (Text → Option ℕ) → ReconnectLoop
waited l [] = l
waited l (dial ∷ dials) = waited (WindowsClient.step l (dial l.manager.server_addr)) dials

unfoldable pub proxy_started :
    ClientConfig → ReconnectLoop → ℕ → LocalProxy × Bool → Startup RunningWindowsClient
proxy_started cfg l conn (proxy, false) = fatal
proxy_started cfg l conn (proxy, true) = runs (record {
  cfg = cfg;
  proxy = proxy;
  conn_mgr = l;
  monitor = record { last_conn = some conn; returned = false };
})

-- `dial` is `net.Dial` on an address, `dials` the same at the steps of the goroutine before the deadline
-- of `WaitForConnection`; `listened` tells whether the proxy can listen.
unfoldable pub windows_client_main :
    (Text → Option ClientConfig)
    → (Text → Option Text)
    → (Text → Option (Text × Text))
    → (Text → Option ℕ)
    → List (Text → Option ℕ)
    → Bool
    → ℕ
    → ClientFlags
    → Startup RunningWindowsClient
unfolding client_config limit waited proxy_started
windows_client_main unmarshal fs split dial dials listened local_port flags =
    let cfg = client_config unmarshal fs split flags in
    let m = new_connection_manager (server_address cfg) (limit cfg.reconnect.max_retry) in
    let l = waited (WindowsClient.start m (dial (server_address cfg))) dials in
    let served : Startup RunningWindowsClient = elim l.manager.conn [
      | none ↦ fatal
      | some c ↦ proxy_started cfg l c (LocalProxy.start (new_local_proxy local_port) c listened)
    ] in
    if flags.show_version then version_shown else served
