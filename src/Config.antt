-- ===== src/Config.antt =====
-- config/config.go: the settings, their defaults and the file that they are read from.
-- Context.antt has `LoadFromCtx`, Template.antt the file that the program can write.
pub mod Load
pub mod Template
pub mod Context
use sara.Common.{
  ◌≡◌, Bool, true, false, not, ◌&&◌, List, [], ◌∷◌, Option, none, some, if◌then◌else◌, Bytes, codes,
  is_empty, ℤ, pos, Outcome, ret, panic, lookup, insert,
}

-- What an `interface{}` of a setting holds; `nil` is none.
pub data Value : Type 0 where
  int_value : ℤ → Value
  string_value : Bytes → Value
  bool_value : Bool → Value

pub record ConfVo : Type 0 where
  pub key : Bytes
  pub val : Option Value
  pub def : Option Value

abbrev pub Conf : Type 0
Conf = List (Bytes × ConfVo)

abbrev pub new_conf_vo_key_def : Bytes → Value → ConfVo
new_conf_vo_key_def key def = record { key = key; val = none; def = some def }

abbrev pub new_conf_vo_key_val : Bytes → Value → ConfVo
new_conf_vo_key_val key val = record { key = key; val = some val; def = some val }

abbrev pub configs : List ConfVo
configs =
    new_conf_vo_key_def (codes "port") (int_value (pos 4222))
    ∷ new_conf_vo_key_def (codes "wsport") (int_value (pos 4224))
    ∷ new_conf_vo_key_def (codes "tlsport") (int_value (pos 4333))
    ∷ new_conf_vo_key_def (codes "rpcport") (int_value (pos 4280))
    ∷ new_conf_vo_key_def (codes "logfile") (string_value (codes "/tmp/sara.log"))
    ∷ new_conf_vo_key_def (codes "loglevel") (int_value (pos 3))
    ∷ new_conf_vo_key_def (codes "dbaddr") (string_value (codes "localhost:6379"))
    ∷ new_conf_vo_key_def (codes "dbpool") (int_value (pos 1000))
    ∷ new_conf_vo_key_def (codes "nodeaddr") (string_value (codes "localhost:4281"))
    ∷ new_conf_vo_key_def (codes "callback") (string_value [])
    ∷ new_conf_vo_key_def (codes "dc") (string_value (codes "dc01"))
    ∷ []

-- The loop of `init`.
unfoldable pub init_conf : List ConfVo → Conf → Conf
init_conf [] conf = conf
init_conf (c ∷ cs) conf = init_conf cs (insert c.key c conf)

-- `SetString`, `SetInt` and `SetBool` differ in the type of the value.
unfoldable pub set_value : Bytes → Value → Conf → Conf
set_value k val conf = insert k (new_conf_vo_key_val k val) conf

-- The type assertions, which panic on nil and on another type.
abbrev pub assert_string : Option Value → Outcome Bytes
assert_string (some (string_value s)) = ret s
assert_string (some (int_value i)) = panic
assert_string (some (bool_value b)) = panic
assert_string none = panic

abbrev pub assert_int : Option Value → Outcome ℤ
assert_int (some (int_value i)) = ret i
assert_int (some (string_value s)) = panic
assert_int (some (bool_value b)) = panic
assert_int none = panic

abbrev pub assert_bool : Option Value → Outcome Bool
assert_bool (some (bool_value b)) = ret b
assert_bool (some (int_value i)) = panic
assert_bool (some (string_value s)) = panic
assert_bool none = panic

-- The setting under a key, asserted to a type, or the caller's default.
abbrev pub get_with : {A : Type 0} → (Option Value → Outcome A) → A → Option ConfVo → Outcome A
get_with assert def none = ret def
get_with assert def (some c) = assert c.val

unfoldable pub get_string : Bytes → Bytes → Conf → Outcome Bytes
get_string k def conf = get_with assert_string def (lookup k conf)

unfoldable pub get_int : Bytes → ℤ → Conf → Outcome ℤ
get_int k def conf = get_with assert_int def (lookup k conf)

unfoldable pub get_bool : Bytes → Bool → Conf → Outcome Bool
get_bool k def conf = get_with assert_bool def (lookup k conf)

unfoldable pub get_def : Bytes → Conf → Option Value
get_def k conf = elim (lookup k conf) [ some c ↦ c.def | none ↦ none ]

-- What `gjson.Get` finds in the file under a key.
pub record ConfFile : Type 0 where
  pub exists : Bytes → Bool
  pub as_string : Bytes → Bytes
  pub as_int : Bytes → ℤ
  pub as_bool : Bytes → Bool

pub data Kind : Type 0 where
  int_kind string_kind bool_kind : Kind

-- The statements of `LoadFromConf` behind the one on the node id, in order.
abbrev pub settings : List (Bytes × Kind)
settings =
    (codes "port", int_kind)
    ∷ (codes "wsport", int_kind)
    ∷ (codes "tlsport", int_kind)
    ∷ (codes "wssport", int_kind)
    ∷ (codes "rpcport", int_kind)
    ∷ (codes "accesstoken", string_kind)
    ∷ (codes "logfile", string_kind)
    ∷ (codes "loglevel", int_kind)
    ∷ (codes "dbaddr", string_kind)
    ∷ (codes "dbpool", int_kind)
    ∷ (codes "nodeaddr", string_kind)
    ∷ (codes "callback", string_kind)
    ∷ (codes "dc", string_kind)
    ∷ (codes "certfile", string_kind)
    ∷ (codes "keyfile", string_kind)
    ∷ (codes "enable_auth", bool_kind)
    ∷ (codes "enable_offline_callback", bool_kind)
    ∷ (codes "enable_tcp", bool_kind)
    ∷ (codes "enable_tls", bool_kind)
    ∷ (codes "enable_ws", bool_kind)
    ∷ (codes "enable_wss", bool_kind)
    ∷ []

abbrev pub read_value : ConfFile → Bytes → Kind → Value
read_value file k int_kind = int_value (file.as_int k)
read_value file k string_kind = string_value (file.as_string k)
read_value file k bool_kind = bool_value (file.as_bool k)

-- `if r := gjson.Get(j, k); r.Exists() { Set…(k, …) }`.
unfoldable pub load_setting : ConfFile → Bytes → Kind → Conf → Conf
unfolding set_value
load_setting file k kind conf =
    if file.exists k then set_value k (read_value file k kind) conf else conf

unfoldable pub load_settings : ConfFile → List (Bytes × Kind) → Conf → Conf
unfolding load_setting
load_settings file [] conf = conf
load_settings file ((k, kind) ∷ rest) conf = load_settings file rest (load_setting file k kind conf)

-- How `LoadFromConf` ends: it returns, ends the process, or panics.
pub data Loaded : Type 0 where
  loaded : Conf → Loaded
  exited : Loaded
  panicked : Loaded

abbrev pub nodeid : Bytes
nodeid = codes "nodeid"

-- The first statement; `next` is what follows it.
unfoldable pub load_nodeid : ConfFile → Conf → Loaded
unfolding load_settings set_value get_string
load_nodeid file conf =
    if file.exists nodeid && not (is_empty (file.as_string nodeid))
    then loaded
        (load_settings file settings (set_value nodeid (string_value (file.as_string nodeid)) conf))
    else elim (get_string nodeid [] conf) [
      | ret nid ↦ if is_empty nid then exited else loaded (load_settings file settings conf)
      | panic ↦ panicked
    ]

-- A file that cannot be read changes nothing.
unfoldable pub load_from_conf : Option ConfFile → Conf → Loaded
unfolding load_nodeid
load_from_conf none conf = loaded conf
load_from_conf (some file) conf = load_nodeid file conf
