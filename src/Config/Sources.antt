-- ===== src/Config/Sources.antt =====
-- `getConfigSource` of cmd/client/main.go and of cmd/server-windows/main.go: the file that the log
-- names as the source of the configuration.
use share_serial.Base.{
  ◌≡◌, ◌⊎◌, refl, inl, inr, Bool, true, false, Option, none, some, List, [], ◌∷◌, ◌++◌, Text, codes,
  is_empty, text_eq, if◌then◌else◌, arith, not,
}
use share_serial.Config.{ServerConfig}
use share_serial.Config.Loader.{load_server, load_first}

abbrev pub etc_client : Text
etc_client = codes "/etc/shareserial/client.yaml"

abbrev pub local_client : Text
local_client = codes "./configs/client.yaml"

-- `exists` tells whether `os.Stat` succeeds.
pub get_config_source : (Text → Bool) → Text → Text
get_config_source exists path =
    if not (is_empty path)
    then path
    else if exists etc_client
    then etc_client
    else if exists local_client
    then local_client
    else codes "defaults"

abbrev pub windows_config : Text
windows_config = codes "./configs/server-windows.yaml"

-- `app_data` is the environment's APPDATA.
get_config_source_windows : (Text → Bool) → Text → Text → Text
get_config_source_windows exists app_data path =
    let default_path = app_data ++ codes "\\shareserial\\server.yaml" in
    let local =
      if exists windows_config
      then windows_config
      else if exists (codes "./configs/server.yaml")
      then codes "./configs/server.yaml"
      else codes "defaults" in
    if not (is_empty path)
    then path
    else if not (is_empty app_data)
    then (if exists default_path then default_path else local)
    else local

-- The source that the loader takes: the first path that is not empty and can be read.
abbrev pub source : (Text → Option Text) → List Text → Text
source fs [] = codes "defaults"
source fs ([] ∷ paths) = source fs paths
source fs ((b ∷ bs) ∷ paths) =
    let rest = source fs paths in elim (fs (b ∷ bs)) [ none ↦ rest | some content ↦ b ∷ bs ]

abbrev pub readable : (Text → Option Text) → Text → Bool
readable fs path = elim (fs path) [ none ↦ false | some content ↦ true ]

-- The client's log names the file that `LoadClient` takes, or the defaults, if the file that the user
-- names, if any, can be read and the files that are there are those that can be read.
pub get_config_source-source :
    (exists : Text → Bool) (fs : Text → Option Text) (path : Text)
    → ((p : Text) → exists p ≡ readable fs p)
    → (is_empty path ≡ true) ⊎ (readable fs path ≡ true)
    → get_config_source exists path ≡ source fs (path ∷ etc_client ∷ local_client ∷ [])
unfolding get_config_source
get_config_source-source exists fs [] same (inl empty) =
    ground (arith, same etc_client, same local_client)
get_config_source-source exists fs [] same (inr read) =
    ground (arith, same etc_client, same local_client)
get_config_source-source exists fs (b ∷ bs) same (inl empty) = ground arith
get_config_source-source exists fs (b ∷ bs) same (inr read) = ground arith

-- The files with another content, or none, for one of them.
abbrev pub with_file : (Text → Option Text) → Text → Option Text → Text → Option Text
with_file fs name content path = if text_eq path name then content else fs path

-- Without APPDATA the log of the Windows server names configs/server-windows.yaml as the source when it
-- is there, but `LoadServer` does not look at it: with any other content, or without the file, the
-- configuration is the same.
windows_source_not_read :
    (unmarshal : Text → Option ServerConfig) (exists : Text → Bool) (fs : Text → Option Text)
    (content : Option Text)
    → exists windows_config ≡ true
    → (get_config_source_windows exists [] [] ≡ windows_config)
      × (load_server unmarshal (with_file fs windows_config content) []
          ≡ load_server unmarshal fs [])
unfolding get_config_source_windows load_server load_first text_eq
windows_source_not_read unmarshal exists fs content there = (ground arith, refl)
