-- ===== src/Config/Saved.antt =====
-- internal/config/loader.go: `SaveServer` and `SaveClient`. The YAML library's `Marshal` is a parameter,
-- `none` standing for its error; the files are a function.
use share_serial.Base.{
  ℕ, ◌≡◌, refl, Bool, true, false, Option, none, some, ◌∷◌, Text, text_eq, text_eq_refl,
  if◌then◌else◌, arith,
}
use share_serial.Config.{ServerConfig, ClientConfig, apply_defaults, default_server_config}
use share_serial.Config.Loader.{
  config, load_server_from_file, load_server, load_from_file, load_first, parsed,
}

abbrev pub Files : Type 0
Files = Text → Option Text

write_file : Files → Text → Text → Files
write_file fs path content p = if text_eq p path then some content else fs p

-- What both functions share; `can_write` tells whether `os.WriteFile` succeeds, and the flag whether the
-- call does.
save : {C : Type 0} → (C → Option Text) → Bool → Files → C → Text → Files × Bool
unfolding write_file
save marshal can_write fs cfg path = elim (marshal cfg) [
  | none ↦ (fs, false)
  | some content ↦ if can_write then (write_file fs path content, true) else (fs, false)
]

pub save_server : (ServerConfig → Option Text) → Bool → Files → ServerConfig → Text → Files × Bool
unfolding save
save_server marshal can_write fs cfg path = save marshal can_write fs cfg path

unfoldable save_client :
    (ClientConfig → Option Text) → Bool → Files → ClientConfig → Text → Files × Bool
unfolding save
save_client marshal can_write fs cfg path = save marshal can_write fs cfg path

saved_file :
    (marshal : ServerConfig → Option Text) (fs : Files) (cfg : ServerConfig) (content path : Text)
    → marshal cfg ≡ some content
    → save_server marshal true fs cfg path ≡ (write_file fs path content, true)
unfolding save_server save
saved_file marshal fs cfg content path m = ground (arith, m)

written_file : (fs : Files) (path content : Text) → write_file fs path content path ≡ some content
unfolding write_file
written_file fs path content = rw (text_eq_refl path) refl

parsed_lem :
    (unmarshal : Text → Option ServerConfig) (content : Text) (cfg : ServerConfig)
    → unmarshal content ≡ some cfg
    → parsed unmarshal apply_defaults default_server_config content ≡ config (apply_defaults cfg)
unfolding parsed
parsed_lem unmarshal content cfg u = rw (u, parsed) refl

parsed_file :
    (unmarshal : Text → Option ServerConfig) (fs : Files) (path content : Text) (cfg : ServerConfig)
    → fs path ≡ some content
    → unmarshal content ≡ some cfg
    → load_server_from_file unmarshal fs path ≡ config (apply_defaults cfg)
unfolding load_server_from_file load_from_file
parsed_file unmarshal fs path content cfg e u =
    ground (arith, e, parsed_lem unmarshal content cfg u)

first_file :
    (unmarshal : Text → Option ServerConfig) (fs : Files) (b : ℕ) (bs content : Text)
    (cfg : ServerConfig)
    → fs (b ∷ bs) ≡ some content
    → unmarshal content ≡ some cfg
    → load_server unmarshal fs (b ∷ bs) ≡ config (apply_defaults cfg)
unfolding load_server load_first
first_file unmarshal fs b bs content cfg e u = ground (arith, e, parsed_lem unmarshal content cfg u)

-- A configuration that was saved at a path that is not empty and can be written is loaded again,
-- completed by the defaults, by `LoadServerFromFile`, and by `LoadServer` when it is given the
-- path, if the YAML library reads what it wrote.
pub load-save :
    (unmarshal : Text → Option ServerConfig) (marshal : ServerConfig → Option Text) (fs : Files)
    (cfg : ServerConfig) (content : Text) (b : ℕ) (bs : Text)
    → marshal cfg ≡ some content
    → unmarshal content ≡ some cfg
    → let saved = save_server marshal true fs cfg (b ∷ bs) in
      (saved.1 ≡ true)
      × (load_server_from_file unmarshal saved.0 (b ∷ bs) ≡ config (apply_defaults cfg))
      × (load_server unmarshal saved.0 (b ∷ bs) ≡ config (apply_defaults cfg))
load-save unmarshal marshal fs cfg content b bs m u =
    let path = b ∷ bs in
    let written = written_file fs path content in
    rw (saved_file marshal fs cfg content path m) (
      refl,
      parsed_file unmarshal (write_file fs path content) path content cfg written u,
      first_file unmarshal (write_file fs path content) b bs content cfg written u,
    )
