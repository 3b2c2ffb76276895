-- ===== src/Config/Load.antt =====
-- What the settings are before and after the file is read.
use sara.Common.{
  ◌≡◌, refl, true, false, List, [], ◌∷◌, Option, none, some, if◌then◌else◌, Bytes, codes, is_empty,
  All, arith, bytes_eq, bytes_eq_iff, ℤ, panic, lookup, insert, lookup-insert,
}
use sara.Config.{
  ConfVo, Conf, ConfFile, Kind, loaded, configs, init_conf, get_int, get_string,
  new_conf_vo_key_val, read_value, settings, load_setting, load_settings, load_from_conf, nodeid,
  string_value, set_value,
}

-- No default is used: before a file is read, the getters panic on every key that has one, for
-- strings and numbers alike, since its value is nil.
pub init_conf_panics :
    All
      (λ c.
        ((d : ℤ) → get_int c.key d (init_conf configs []) ≡ panic)
        × ((d : Bytes) → get_string c.key d (init_conf configs []) ≡ panic))
      configs
unfolding init_conf get_int get_string lookup insert bytes_eq
init_conf_panics =
    let p : ((d : ℤ) → get_int (codes "port") d (init_conf configs []) ≡ panic)
        × ((d : Bytes) → get_string (codes "port") d (init_conf configs []) ≡ panic) =
      ((λ d. refl), λ d. refl) in
    (p, (p, (p, (p, (p, (p, (p, (p, (p, (p, (p, tt)))))))))))

-- The kind that a key is read as, the last one where it is listed twice.
abbrev pub kind_of : Bytes → List (Bytes × Kind) → Option Kind
kind_of k [] = none
kind_of k ((j, kind) ∷ rest) = elim (kind_of k rest) [
  | some found ↦ some found
  | none ↦ if bytes_eq j k then some kind else none
]

-- What the file says of a key, if it is one that is read.
abbrev pub from_file : ConfFile → Bytes → Option Kind → Option ConfVo → Option ConfVo
from_file file k none before = before
from_file file k (some kind) before =
    if file.exists k then some (new_conf_vo_key_val k (read_value file k kind)) else before

lookup-load_setting :
    (file : ConfFile) (k j : Bytes) (kind : Kind) (conf : Conf)
    → lookup k (load_setting file j kind conf)
      ≡ (if bytes_eq j k then from_file file k (some kind) (lookup k conf) else lookup k conf)
unfolding load_setting set_value
lookup-load_setting file k j kind conf = ground (
  arith,
  bytes_eq_iff j k,
  lookup-insert j k (new_conf_vo_key_val j (read_value file j kind)) conf,
)

pub lookup-load_settings :
    (file : ConfFile) (k : Bytes) (rest : List (Bytes × Kind)) (conf : Conf)
    → lookup k (load_settings file rest conf) ≡ from_file file k (kind_of k rest) (lookup k conf)
unfolding load_settings
lookup-load_settings file k [] conf = refl
lookup-load_settings file k ((j, kind) ∷ rest) conf = ground (
  arith,
  bytes_eq_iff j k,
  lookup-load_setting file k j kind conf,
  lookup-load_settings file k rest (load_setting file j kind conf),
)

-- When the file names the node, every other setting is what the file says, with the type that its
-- key is read as, and where the file is silent, or the key is not one that is read, what it was.
pub load_from_conf-settings :
    (file : ConfFile) (k : Bytes) (before after : Conf)
    → file.exists nodeid ≡ true
    → is_empty (file.as_string nodeid) ≡ false
    → bytes_eq nodeid k ≡ false
    → load_from_conf (some file) before ≡ loaded after
    → lookup k after ≡ from_file file k (kind_of k settings) (lookup k before)
unfolding load_from_conf
load_from_conf-settings file k before after named full other e = ground (
  arith,
  e,
  lookup-insert nodeid k (new_conf_vo_key_val nodeid (string_value (file.as_string nodeid))) before,
  lookup-load_settings file k settings
      (set_value nodeid (string_value (file.as_string nodeid)) before),
)
