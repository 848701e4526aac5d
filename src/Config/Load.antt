-- ===== src/Config/Load.antt =====
-- internal/config/config.go: Load, and the places of the files. Package toml decodes the file over the
-- defaults; package path/filepath joins paths, and package crypto/sha256 with "%x" gives twelve digits of a digest.
pub mod Names
pub mod Laws
use fizzy_connector.Base.{
  ℕ, Bool, true, false, not, ◌&&◌, ◌||◌, Option, none, some, List, [], ◌∷◌, ◌++◌, Text, codes, leb,
  ltb, ◌==◌, if◌then◌else◌, same, byte_len, trim_left, trim_right, is_digit, trim_space, Result, ok,
  err, Error, failed,
}
use fizzy_connector.Config.{Config, Problem, defaults, validate}
use fizzy_connector.Config.DataDir.{identity}

-- What the machine gives: its variables (empty when they are not set), the home directory, the temporary
-- directory of this user, filepath.Join and filepath.Abs, the file of the configuration over the
-- defaults (none when there is no file), the parser of URLs, and the digest.
pub record Host : Type 0 where
  pub variable : Text → Text
  pub home : Text
  pub private_temp : Text
  pub join : List Text → Text
  pub absolute : Text → Result Text
  pub decode : Text → Config → Option (Result Config)
  pub parse_url : Text → Option (Text × Text)
  pub digest : Text → Text

-- The end of Load: an error before the validation, a problem, or the path and the configuration.
pub data Loaded : Type 0 where
  unread : Error → Loaded
  invalid : Problem → Loaded
  loaded : Text → Config → Loaded

pub is_slash : ℕ → Bool
is_slash c = c == b'/'

unfoldable pub default_path : Host → Text
default_path h =
    if same (h.variable (codes "XDG_CONFIG_HOME")) []
    then h.join (h.home ∷ codes ".config" ∷ codes "fizzy-connector" ∷ codes "config.toml" ∷ [])
    else h.join
        (h.variable (codes "XDG_CONFIG_HOME") ∷ codes "fizzy-connector" ∷ codes "config.toml" ∷ [])

unfoldable pub default_state_dir : Host → Text
default_state_dir h =
    if same (h.variable (codes "XDG_STATE_HOME")) []
    then h.join (h.home ∷ codes ".local" ∷ codes "state" ∷ codes "fizzy-connector" ∷ [])
    else h.join (h.variable (codes "XDG_STATE_HOME") ∷ codes "fizzy-connector" ∷ [])

-- The text without the slashes that Load takes off.
trimmed : Config → Text → Config
unfolding is_slash trim_left trim_right
trimmed cfg state_dir = record cfg {
  state_dir = state_dir;
  base_url = trim_right is_slash cfg.base_url;
  account_slug = trim_right is_slash (trim_left is_slash cfg.account_slug);
}

checked : Text → Config → Option Problem → Loaded
checked path cfg none = loaded path cfg
checked path cfg (some problem) = invalid problem

placed : Host → Config → Result Text → Result Text → Loaded
unfolding trimmed checked
placed h cfg (err e) state_dir = unread e
placed h cfg (ok path) (err e) = unread e
placed h cfg (ok path) (ok state_dir) =
    let ready = trimmed cfg state_dir in
    checked path ready (validate (h.parse_url ready.base_url) ready)

decoded : Host → Text → Option (Result Config) → Loaded
unfolding placed
decoded h path none = unread (failed (codes "no config file: run `fizzy-connector init` first"))
decoded h path (some (err e)) = unread e
decoded h path (some (ok cfg)) = placed h cfg (h.absolute path) (h.absolute cfg.state_dir)

-- `Load`.
unfoldable pub load : Host → Text → Loaded
unfolding decoded default_state_dir
load h path = decoded h path (h.decode path (defaults (default_state_dir h)))

-- A character that stays in the name of a directory.
unfoldable pub is_safe_char : ℕ → Bool
is_safe_char c = (leb b'A' c && leb c b'Z') || (leb b'a' c && leb c b'z') || is_digit c || c == b'.'

-- ReplaceAllString of `[^A-Za-z0-9.]+` by "-"; `inside` tells that a run of such characters goes on.
unfoldable pub safe_name : Bool → Text → Text
unfolding is_safe_char
safe_name inside [] = []
safe_name inside (c ∷ s) =
    let kept = safe_name false s in
    let replaced = safe_name true s in
    if is_safe_char c then c ∷ kept else if inside then replaced else b'-' ∷ replaced

host_of : Text → Option (Text × Text) → Text
host_of base none = base
host_of base (some (scheme, host)) = if same host [] then base else host

unfoldable pub data_dir_name : Host → Config → Text
unfolding safe_name host_of
data_dir_name h cfg =
    safe_name false (host_of cfg.base_url (h.parse_url cfg.base_url))
    ++ codes "-"
    ++ cfg.account_slug
    ++ codes "-"
    ++ h.digest (identity cfg)

-- `DataDir`, and the files in it.
unfoldable pub data_dir : Host → Config → Text
unfolding data_dir_name
data_dir h cfg = h.join (cfg.state_dir ∷ data_dir_name h cfg ∷ [])

unfoldable pub session_token_path : Host → Config → Text
session_token_path h cfg = h.join (data_dir h cfg ∷ codes "session_token" ∷ [])

unfoldable pub lock_path : Host → Config → Text
lock_path h cfg = h.join (data_dir h cfg ∷ codes "daemon.lock" ∷ [])

unfoldable pub runtime_dir : Host → Text
runtime_dir h =
    if same (h.variable (codes "XDG_RUNTIME_DIR")) []
    then h.private_temp
    else h.join (h.variable (codes "XDG_RUNTIME_DIR") ∷ codes "fizzy-connector" ∷ [])

abbrev pub max_socket_path_length : ℕ
max_socket_path_length = 100

unfoldable pub socket_path : Host → Config → Text
socket_path h cfg =
    if ltb (byte_len (h.join (data_dir h cfg ∷ codes "daemon.sock" ∷ []))) max_socket_path_length
    then h.join (data_dir h cfg ∷ codes "daemon.sock" ∷ [])
    else h.join (runtime_dir h ∷ (h.digest (data_dir h cfg) ++ codes ".sock") ∷ [])

-- `SessionToken`, by what a read of its file gives.
unfoldable pub session_token : Result Text → Text
session_token (err e) = []
session_token (ok text) = trim_space text

-- The bytes that `SaveSessionToken` writes.
unfoldable pub token_file : Text → Text
token_file token = token ++ codes "\n"
