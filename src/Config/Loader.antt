-- ===== src/Config/Loader.antt =====
-- internal/config/loader.go: where the configuration is looked for. The file system is the function
-- `os.ReadFile`; the YAML library is a parameter, `none` standing for its error.
use share_serial.Base.{
  ◌≡◌, ◌≢◌, refl, ◌⊎◌, inl, inr, Option, none, some, List, [], ◌∷◌, Text, codes, Option-cases,
}
use mathlib.Core.List.{cons-ne-nil}
use share_serial.Config.{
  ServerConfig, ClientConfig, default_server_config, default_client_config, apply_defaults,
  apply_client_defaults,
}

pub data LoadError : Type 0 where
  config_parse read_failed : LoadError

pub data Loaded (C : Type 0) : Type 0 where
  config : C → Loaded C
  failed : LoadError → Loaded C

-- What both loaders share: the YAML library's `Unmarshal` into a zero configuration, `defaults` to
-- complete it, and `fallback` where no file is found.
module _ {C : Type 0} (unmarshal : Text → Option C) (defaults : C → C) (fallback : C) where
  unfoldable pub parsed : Text → Loaded C
  parsed content = elim (unmarshal content) [
    | none ↦ failed config_parse
    | some c ↦ config (defaults c)
  ]

  -- The loop over the paths.
  unfoldable pub load_first : (Text → Option Text) → List Text → Loaded C
  unfolding parsed
  load_first fs [] = config fallback
  load_first fs ([] ∷ paths) = load_first fs paths
  load_first fs ((b ∷ bs) ∷ paths) =
      let rest = load_first fs paths in
      elim (fs (b ∷ bs)) [ none ↦ rest | some content ↦ parsed content ]

  unfoldable pub load_from_file : (Text → Option Text) → Text → Loaded C
  unfolding parsed
  load_from_file fs path = elim (fs path) [
    | none ↦ failed read_failed
    | some content ↦ parsed content
  ]

unfoldable pub load_server :
    (Text → Option ServerConfig) → (Text → Option Text) → Text → Loaded ServerConfig
unfolding load_first
load_server unmarshal fs path =
    load_first unmarshal apply_defaults default_server_config fs
      (path ∷ codes "/etc/shareserial/server.yaml" ∷ codes "./configs/server.yaml" ∷ [])

unfoldable pub load_client :
    (Text → Option ClientConfig) → (Text → Option Text) → Text → Loaded ClientConfig
unfolding load_first
load_client unmarshal fs path =
    load_first unmarshal apply_client_defaults default_client_config fs
      (path ∷ codes "/etc/shareserial/client.yaml" ∷ codes "./configs/client.yaml" ∷ [])

unfoldable pub load_server_from_file :
    (Text → Option ServerConfig) → (Text → Option Text) → Text → Loaded ServerConfig
unfolding load_from_file
load_server_from_file unmarshal fs path =
    load_from_file unmarshal apply_defaults default_server_config fs path

unfoldable load_client_from_file :
    (Text → Option ClientConfig) → (Text → Option Text) → Text → Loaded ClientConfig
unfolding load_from_file
load_client_from_file unmarshal fs path =
    load_from_file unmarshal apply_client_defaults default_client_config fs path

-- The file that decides: the first of the paths, in order, that is not empty and can be read.
pub data Chosen (fs : Text → Option Text) : List Text → Option Text → Type 0 where
  nothing : Chosen fs [] none
  here :
      {p : Text} {ps : List Text} (content : Text)
      → p ≢ []
      → fs p ≡ some content
      → Chosen fs (p ∷ ps) (some content)
  skip :
      {p : Text} {ps : List Text} {o : Option Text}
      → (p ≡ []) ⊎ (fs p ≡ none)
      → Chosen fs ps o
      → Chosen fs (p ∷ ps) o

module _ {C : Type 0} (unmarshal : Text → Option C) (defaults : C → C) (fallback : C) where
  -- What the chosen file makes of the result.
  abbrev pub outcome : Option Text → Loaded C
  outcome none = config fallback
  outcome (some content) = parsed unmarshal defaults fallback content

  load_first-Chosen :
      (fs : Text → Option Text) (ps : List Text)
      → (o : Option Text) × Chosen fs ps o
        × (load_first unmarshal defaults fallback fs ps ≡ outcome o)
  unfolding load_first
  load_first-Chosen fs [] = (none, nothing, refl)
  load_first-Chosen fs ([] ∷ ps) =
      let (o, ch, e) = load_first-Chosen fs ps in (o, skip (inl refl) ch, e)
  load_first-Chosen fs ((b ∷ bs) ∷ ps) = elim (Option-cases (fs (b ∷ bs))) [
    | inl e ↦
        let (o, ch, eq) = load_first-Chosen fs ps in (o, skip (inr e) ch, rw (e, load_first) eq)
    | inr (content, e) ↦ (some content, here content (cons-ne-nil b bs) e, rw (e, load_first) refl)
  ]

-- `LoadServer` lets the first readable file of its three paths decide, in their order: with none it
-- returns the default configuration, and a first file that does not parse is an error, even if a later
-- one would parse.
pub load_server-Chosen :
    (unmarshal : Text → Option ServerConfig) (fs : Text → Option Text) (path : Text)
    → (o : Option Text) × Chosen fs
        (path ∷ codes "/etc/shareserial/server.yaml" ∷ codes "./configs/server.yaml" ∷ [])
        o
      × (load_server unmarshal fs path ≡ outcome unmarshal apply_defaults default_server_config o)
unfolding load_server
load_server-Chosen unmarshal fs path =
    load_first-Chosen unmarshal apply_defaults default_server_config fs _
