-- ===== src/Config.antt =====
-- internal/config: the configuration, its defaults, and how it is looked for. The proofs, and the
-- printing and reading of ports, are in the modules below this one.
pub mod Defaults
pub mod Loader
pub mod Ports
pub mod Sources
pub mod Saved
use share_serial.Base.{
  ℕ, Bool, true, false, List, [], ◌∷◌, Text, codes, ℤ, pos, negsuc, is_zero, if◌then◌else◌,
}

pub record SerialSection : Type 0 where
  pub path : Text
  pub baud_rate : ℤ
  pub data_bits : ℤ
  pub stop_bits : ℤ
  pub parity : Text

pub record AddressSection : Type 0 where
  pub address : Text
  pub port : ℤ

pub record ArbiterSection : Type 0 where
  pub timeout : ℤ
  pub auto_release : Bool

pub record LogSection : Type 0 where
  pub level : Text
  pub file : Text

pub record PtySection : Type 0 where
  pub path : Text
  pub baud_rate : ℤ

pub record ReconnectSection : Type 0 where
  pub enabled : Bool
  pub interval : ℤ
  pub max_retry : ℤ

pub record ServerConfig : Type 0 where
  pub serial : SerialSection
  pub server : AddressSection
  pub arbiter : ArbiterSection
  pub log : LogSection

pub record ClientConfig : Type 0 where
  pub server : AddressSection
  pub pty : PtySection
  pub reconnect : ReconnectSection
  pub log : LogSection

unfoldable pub default_server_config : ServerConfig
default_server_config = record {
  serial = record {
    path = codes "/dev/ttyUSB0";
    baud_rate = pos 115200;
    data_bits = pos 8;
    stop_bits = pos 1;
    parity = codes "none";
  };
  server = record { port = pos 7700; address = codes "0.0.0.0" };
  arbiter = record { timeout = pos 30; auto_release = true };
  log = record { level = codes "info"; file = [] };
}

unfoldable pub default_client_config : ClientConfig
default_client_config = record {
  server = record { address = codes "127.0.0.1"; port = pos 7700 };
  pty = record { path = codes "/tmp/vttyShare0"; baud_rate = pos 115200 };
  reconnect = record { enabled = true; interval = pos 5; max_retry = pos 10 };
  log = record { level = codes "info"; file = [] };
}

-- `if v == "" { v = d }`
unfoldable pub text_or : Text → Text → Text
text_or [] d = d
text_or (b ∷ bs) d = b ∷ bs

-- `if v == 0 { v = d }`
unfoldable pub int_or : ℤ → ℤ → ℤ
int_or v d = if is_zero v then d else v

pub apply_defaults : ServerConfig → ServerConfig
unfolding text_or int_or default_server_config
apply_defaults cfg =
    let d = default_server_config in
    let s = cfg.serial in
    let a = cfg.arbiter in
    let l = cfg.log in
    record {
      serial = record {
        path = text_or s.path d.serial.path;
        baud_rate = int_or s.baud_rate d.serial.baud_rate;
        data_bits = int_or s.data_bits d.serial.data_bits;
        stop_bits = int_or s.stop_bits d.serial.stop_bits;
        parity = text_or s.parity d.serial.parity;
      };
      server = record {
        port = int_or cfg.server.port d.server.port;
        address = text_or cfg.server.address d.server.address;
      };
      arbiter = record a { timeout = int_or a.timeout d.arbiter.timeout };
      log = record l { level = text_or l.level d.log.level };
    }

pub apply_client_defaults : ClientConfig → ClientConfig
unfolding text_or int_or default_client_config
apply_client_defaults cfg =
    let d = default_client_config in
    let r = cfg.reconnect in
    let l = cfg.log in
    record {
      server = record {
        address = text_or cfg.server.address d.server.address;
        port = int_or cfg.server.port d.server.port;
      };
      pty = record {
        path = text_or cfg.pty.path d.pty.path;
        baud_rate = int_or cfg.pty.baud_rate d.pty.baud_rate;
      };
      reconnect = record r {
        interval = int_or r.interval d.reconnect.interval;
        max_retry = int_or r.max_retry d.reconnect.max_retry;
      };
      log = record l { level = text_or l.level d.log.level };
    }
