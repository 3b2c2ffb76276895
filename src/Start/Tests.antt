-- ===== src/Start/Tests.antt =====
-- The theorems on the start at a concrete file.
use sara.Common.{
  ◌≡◌, refl, true, false, if◌then◌else◌, [], ◌∷◌, ◌++◌, some, codes, bytes_eq, pos, ret,
}
use sara.Config.{
  Conf, ConfFile, settings, nodeid, load_from_conf, load_nodeid, load_settings, set_value,
  string_value, loaded,
}
use sara.Start.{Machine, signals_handled, debug_level, serve}
use sara.Start.Order.{log_ready, logged, noded, running}
use sara.Start.FromFile.{IsComplete, settings_of, load-serve}

abbrev file : ConfFile
file = record {
  exists = λ k. true;
  as_string = λ k. if bytes_eq k nodeid then codes "n01" else codes "localhost";
  as_int = λ k. if bytes_eq k (codes "loglevel") then pos 3 else pos 4222;
  as_bool = λ k. bytes_eq k (codes "enable_tcp");
}

abbrev conf : Conf
conf = load_settings file settings (set_value nodeid (string_value (file.as_string nodeid)) [])

-- With a single database; `alone` has none.
abbrev machine : Machine
machine = record {
  log_opens = λ path. true;
  clustered = λ addr size. false;
  single = λ addr size. true;
  rpc = λ addr. true;
  key_pair = λ cert key. false;
  listen = λ transport port. true;
}

abbrev alone : Machine
alone = record machine { single = λ addr size. false }

file-IsComplete : IsComplete file
unfolding bytes_eq
file-IsComplete = record {
  named = refl;
  full = refl;
  all = (
    refl,
    (
      refl,
      (
        refl,
        (
          refl,
          (
            refl,
            (
              refl,
              (
                refl,
                (
                  refl,
                  (
                    refl,
                    (
                      refl,
                      (
                        refl,
                        (
                          refl,
                          (
                            refl,
                            (refl, (refl, (refl, (refl, (refl, (refl, (refl, (refl, tt)))))))),
                          ),
                        ),
                      ),
                    ),
                  ),
                ),
              ),
            ),
          ),
        ),
      ),
    ),
  );
}

file-loaded : load_from_conf (some file) [] ≡ loaded conf
unfolding load_from_conf load_nodeid bytes_eq
file-loaded = refl

debug : file.as_int (codes "loglevel") ≡ pos 3
unfolding bytes_eq
debug = refl

opens : log_ready machine (settings_of file) ≡ true
unfolding bytes_eq
opens = refl

load-serve_example : serve machine conf [] ≡ (
  ret tt,
  logged (settings_of file) debug_level
      ++ (signals_handled ∷ noded machine (settings_of file) ++ running machine (settings_of file)),
)
load-serve_example =
    load-serve machine file [] conf debug_level file-IsComplete file-loaded (rw debug refl) opens
      refl refl
