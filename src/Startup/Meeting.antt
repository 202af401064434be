-- ===== src/Startup/Meeting.antt =====
-- cmd/client/main.go and cmd/server/main.go: a client that is given the server's address and port dials
-- what the server listens on.
use share_serial.Base.{
  ℕ, ◌<◌, ◌≡◌, refl, ap, sym, ◌∙◌, Option, some, [], ◌∷◌, ◌++◌, Text, ℤ, pos, Lacks, arith, inl,
  inr, Option-cases,
}
use share_serial.Config.{ServerConfig, ClientConfig, default_client_config}
use share_serial.Config.Ports.{
  listen_address, server_address, override_server, int_to_string, port_of-int_to_string,
}
use share_serial.Config.Loader.{load_client}
use share_serial.Server.{start}
use share_serial.Reconnect
use share_serial.Reconnect.{new_reconnect_manager, auto_reconnect}
use share_serial.Serial.Real.{SerialLibrary}
use share_serial.Startup.{or_default, runs}
use share_serial.Startup.Servers.{ServerFlags, RunningServer, server_config, server_main}
use share_serial.Startup.Clients.{
  ClientFlags, RunningClient, client_config, override_client_config, client_main, connected,
}
use Prim.Native.Nat.{◌^◌}

-- What `net.SplitHostPort` does to a host with no colon and no bracket and a port's digits.
abbrev pub Splits : (Text → Option (Text × Text)) → Type 0
Splits split =
    (host : Text) (n : ℕ)
    → Lacks b':' host
    → Lacks b'[' host
    → Lacks b']' host
    → split (host ++ (b':' ∷ int_to_string (pos n))) ≡ some (host, int_to_string (pos n))

abbrev pub address_of : Text → ℕ → Text
address_of host n = host ++ (b':' ∷ int_to_string (pos n))

server_part :
    (cfg : ClientConfig) (split : Text → Option (Text × Text)) (flags : ClientFlags)
    → server_address (override_client_config split flags cfg)
      ≡ server_address (override_server cfg flags.server_addr (split flags.server_addr))
unfolding server_address override_client_config
server_part cfg split flags = refl

overridden_address :
    (cfg : ClientConfig) (host : Text) (n : ℕ)
    → n < 2 ^ 63
    → server_address (override_server cfg (address_of host n) (some (host, int_to_string (pos n))))
      ≡ address_of host n
unfolding server_address override_server
overridden_address cfg [] n h = ap (λ (p : ℤ). b':' ∷ int_to_string p) (port_of-int_to_string n h)
overridden_address cfg (c ∷ host) n h =
    ap (λ (p : ℤ). (c ∷ host) ++ (b':' ∷ int_to_string p)) (port_of-int_to_string n h)

pub client_config-address :
    (unmarshal : Text → Option ClientConfig) (fs : Text → Option Text)
    (split : Text → Option (Text × Text)) (flags : ClientFlags) (host : Text) (n : ℕ)
    → split (address_of host n) ≡ some (host, int_to_string (pos n))
    → n < 2 ^ 63
    → flags.server_addr ≡ address_of host n
    → server_address (client_config unmarshal fs split flags) ≡ address_of host n
unfolding client_config override_client_config
client_config-address unmarshal fs split flags host n parts h e =
    let cfg = or_default default_client_config (load_client unmarshal fs flags.config_path) in
    server_part cfg split flags
    ∙ ap (λ (a : Text). server_address (override_server cfg a (split a))) e
    ∙ ap (λ (o : Option (Text × Text)). server_address (override_server cfg (address_of host n) o))
        parts
    ∙ overridden_address cfg host n h

pub server_main-runs :
    (lib : SerialLibrary) (unmarshal : Text → Option ServerConfig) (fs listen : Text → Option Text)
    (flags : ServerFlags) (s : RunningServer lib)
    → server_main lib unmarshal fs listen flags ≡ runs s
    → listen (listen_address s.cfg) ≡ some s.program.server.addr
unfolding server_main start
server_main-runs lib unmarshal fs listen flags s e =
    elim (Option-cases (listen (listen_address (server_config unmarshal fs flags)))) [
      | inl f ↦ absurd (ground (arith, f))
      | inr (addr, f) ↦ ground (arith, f)
    ]

client_main-runs :
    {Device : Type 0} (unmarshal : Text → Option ClientConfig) (fs : Text → Option Text)
    (split : Text → Option (Text × Text)) (create : Text → Option Device) (dial : Text → Option ℕ)
    (flags : ClientFlags) (c : RunningClient Device)
    → client_main unmarshal fs split create dial flags ≡ runs c
    → let a = server_address (client_config unmarshal fs split flags) in
      (c.reconn.manager.server_addr ≡ a) × (c.reconn.manager.conn ≡ dial a)
unfolding client_main connected Reconnect.connect Reconnect.dialled new_reconnect_manager
    auto_reconnect
client_main-runs unmarshal fs split create dial flags c e =
    let cfg = client_config unmarshal fs split flags in
    elim (Option-cases (create cfg.pty.path)) [
      | inl f ↦ absurd (ground (arith, f))
      | inr (device, f) ↦ elim (Option-cases (dial (server_address cfg))) [
        | inl g ↦ absurd (ground (arith, f, g))
        | inr (conn, g) ↦ (ground (arith, f, g), ground (arith, f, g))
      ]
    ]

pub listen_address-address_of :
    (cfg : ServerConfig) (n : ℕ)
    → cfg.server.port ≡ pos n
    → listen_address cfg ≡ address_of cfg.server.address n
unfolding listen_address
listen_address-address_of cfg n e = ap (λ (p : ℤ). cfg.server.address ++ (b':' ∷ int_to_string p)) e

-- A client that is started with the server's listen address as its `--server` flag meets the server,
-- whatever the configuration files of both are: the server listens on the address of its configuration
-- and flags, and the client's manager has this same text as its address, and as its connection what
-- dialling it gave. The host has no colon and no bracket, and the port is an
-- int64 that is not negative.
pub client_meets_server :
    {Device : Type 0} (lib : SerialLibrary) (unmarshal : Text → Option ServerConfig)
    (fs listen : Text → Option Text) (server_flags : ServerFlags)
    (unmarshal' : Text → Option ClientConfig) (fs' : Text → Option Text)
    (split : Text → Option (Text × Text)) (create : Text → Option Device) (dial : Text → Option ℕ)
    (client_flags : ClientFlags) (s : RunningServer lib) (c : RunningClient Device) (n : ℕ)
    → Splits split
    → server_main lib unmarshal fs listen server_flags ≡ runs s
    → client_main unmarshal' fs' split create dial client_flags ≡ runs c
    → s.cfg.server.port ≡ pos n
    → n < 2 ^ 63
    → Lacks b':' s.cfg.server.address
    → Lacks b'[' s.cfg.server.address
    → Lacks b']' s.cfg.server.address
    → client_flags.server_addr ≡ listen_address s.cfg
    → (listen (listen_address s.cfg) ≡ some s.program.server.addr)
      × (c.reconn.manager.server_addr ≡ listen_address s.cfg)
      × (c.reconn.manager.conn ≡ dial (listen_address s.cfg))
client_meets_server lib unmarshal fs listen server_flags unmarshal' fs' split create dial
      client_flags s c n splits es ec port bound colon left right flag =
    let here = listen_address-address_of s.cfg n port in
    let parts = splits s.cfg.server.address n colon left right in
    let dialled =
      client_config-address unmarshal' fs' split client_flags s.cfg.server.address n parts bound
        (flag ∙ here) in
    let (addr, conn) = client_main-runs unmarshal' fs' split create dial client_flags c ec in
    (
      server_main-runs lib unmarshal fs listen server_flags s es,
      addr ∙ dialled ∙ sym here,
      conn ∙ ap dial (dialled ∙ sym here),
    )
