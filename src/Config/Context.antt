-- ===== src/Config/Context.antt =====
-- config/config.go, `LoadFromCtx`: the settings from the command line. Its call in `Load` is
-- commented out.
use sara.Common.{◌≡◌, refl, true, false, List, [], ◌∷◌, Bytes, codes, ℤ}
use sara.Config.{
  Conf, ConfFile, Kind, int_kind, string_kind, bool_kind, Value, int_value, string_value,
  bool_value, set_value, load_settings, load_setting,
}

-- `ctx.GlobalInt` and `ctx.GlobalString`.
pub record Context : Type 0 where
  pub global_int : Bytes → ℤ
  pub global_string : Bytes → Bytes

-- The statements of `LoadFromCtx`, in order.
abbrev pub ctx_settings : List (Bytes × Kind)
ctx_settings =
    (codes "port", int_kind)
    ∷ (codes "wsport", int_kind)
    ∷ (codes "tlsport", int_kind)
    ∷ (codes "rpcport", int_kind)
    ∷ (codes "logfile", string_kind)
    ∷ (codes "loglevel", int_kind)
    ∷ (codes "dbaddr", string_kind)
    ∷ (codes "dbpool", int_kind)
    ∷ (codes "nodeaddr", string_kind)
    ∷ (codes "callback", string_kind)
    ∷ (codes "dc", string_kind)
    ∷ (codes "nodeid", string_kind)
    ∷ []

-- No flag is read as a Boolean.
abbrev pub ctx_value : Context → Bytes → Kind → Value
ctx_value ctx k int_kind = int_value (ctx.global_int k)
ctx_value ctx k string_kind = string_value (ctx.global_string k)
ctx_value ctx k bool_kind = bool_value false

unfoldable pub set_all : Context → List (Bytes × Kind) → Conf → Conf
unfolding set_value
set_all ctx [] conf = conf
set_all ctx ((k, kind) ∷ rest) conf = set_all ctx rest (set_value k (ctx_value ctx k kind) conf)

unfoldable pub load_from_ctx : Context → Conf → Conf
unfolding set_all
load_from_ctx ctx conf = set_all ctx ctx_settings conf

-- A file with the same settings.
abbrev as_file : Context → ConfFile
as_file ctx = record {
  exists = λ k. true;
  as_string = ctx.global_string;
  as_int = ctx.global_int;
  as_bool = λ k. false;
}

set_all-load_settings :
    (ctx : Context) (rest : List (Bytes × Kind)) (conf : Conf)
    → set_all ctx rest conf ≡ load_settings (as_file ctx) rest conf
unfolding set_all load_settings load_setting
set_all-load_settings ctx [] conf = refl
set_all-load_settings ctx ((k, int_kind) ∷ rest) conf = set_all-load_settings ctx rest _
set_all-load_settings ctx ((k, string_kind) ∷ rest) conf = set_all-load_settings ctx rest _
set_all-load_settings ctx ((k, bool_kind) ∷ rest) conf = set_all-load_settings ctx rest _
