-- ===== src/Commands/Tests.antt =====
-- The commands on a machine that allows everything.
use sara.Common.{
  ◌≡◌, refl, inr, true, false, List, [], ◌∷◌, ◌++◌, if◌then◌else◌, some, none, Bytes, codes,
  bytes_eq, pos, lookup, ok, ret, arith,
}
use sara.Config.{Conf, ConfFile, Value, int_value, string_value, bool_value, load_from_conf, loaded}
use sara.Config.Template.{template, members, AreRead}
use sara.Start.{Machine, signals_handled, debug_level, serve}
use sara.Start.Order.{logged, noded, running}
use sara.Commands.{Host, System, Server, sigint, sigusr1, other, save_pid, stop, signal_handler}
use sara.Commands.Pid.{stop-save_pid}
use sara.Commands.Signals.{asks, signal_handler-asks}
use sara.Commands.Setup.{setup_conf, config_file, template_settings, setup_conf-serve}

abbrev host : Host
host = record {
  create_error = λ p. none;
  write_error = λ p. none;
  find_error = λ p. none;
  signal_error = λ p s. none;
  profile = λ p. [];
}

abbrev system : System
system = record { files = []; signals = []; profiling = false; mem_rate = 0; block_rate = 0 }

stop-save_pid_example : stop host (save_pid host 4711 system) ≡ (
  ok tt,
  record (save_pid host 4711 system) {
    signals = (save_pid host 4711 system).signals ++ (pos 4711, sigint) ∷ [];
  },
)
stop-save_pid_example = stop-save_pid host 4711 system (omega arith) refl refl refl

abbrev server : Server
server = record { system = system; node = true; stopping = false }

signal_handler-asks_example :
    ((signal_handler host true (sigusr1 ∷ sigint ∷ other 15 ∷ []) server).0 ≡ ret tt)
    × ((signal_handler host true (sigusr1 ∷ sigint ∷ other 15 ∷ []) server).1.stopping ≡ true)
unfolding asks
signal_handler-asks_example =
    signal_handler-asks host true (inr refl) (sigusr1 ∷ sigint ∷ other 15 ∷ []) server refl

abbrev members_of : Bytes → List (Bytes × Value)
members_of text = if bytes_eq text template then members else []

-- A reader that knows the members of the template.
abbrev gjson : Bytes → ConfFile
gjson text = record {
  exists = λ k. elim (lookup k (members_of text)) [ some v ↦ true | none ↦ false ];
  as_string = λ k. elim (lookup k (members_of text)) [ some (string_value t) ↦ t | _ ↦ [] ];
  as_int = λ k. elim (lookup k (members_of text)) [ some (int_value i) ↦ i | _ ↦ pos 0 ];
  as_bool = λ k. elim (lookup k (members_of text)) [ some (bool_value b) ↦ b | _ ↦ false ];
}

abbrev machine : Machine
machine = record {
  log_opens = λ path. true;
  clustered = λ a n. false;
  single = λ a n. true;
  rpc = λ a. true;
  key_pair = λ a b. true;
  listen = λ t p. true;
}

template-AreRead : AreRead (gjson template) members
unfolding lookup bytes_eq
template-AreRead = (
  (refl, refl),
  (
    (refl, refl),
    (
      (refl, refl),
      (
        (refl, refl),
        (
          (refl, refl),
          (
            (refl, refl),
            (
              (refl, refl),
              (
                (refl, refl),
                (
                  (refl, refl),
                  (
                    (refl, refl),
                    (
                      (refl, refl),
                      (
                        (refl, refl),
                        (
                          (refl, refl),
                          (
                            (refl, refl),
                            (
                              (refl, refl),
                              (
                                (refl, refl),
                                (
                                  (refl, refl),
                                  (
                                    (refl, refl),
                                    (
                                      (refl, refl),
                                      ((refl, refl), ((refl, refl), ((refl, refl), tt))),
                                    ),
                                  ),
                                ),
                              ),
                            ),
                          ),
                        ),
                      ),
                    ),
                  ),
                ),
              ),
            ),
          ),
        ),
      ),
    ),
  ),
)

setup_conf-serve_example :
    (after : Conf) × (load_from_conf
        (config_file gjson
          (codes "/etc/sara/conf.json")
          (setup_conf host (codes "/etc/sara/conf.json") system).1)
        []
      ≡ loaded after)
    × (serve machine after [] ≡ (
      ret tt,
      logged template_settings debug_level
          ++ (signals_handled ∷ noded machine template_settings
              ++ running machine template_settings),
    ))
setup_conf-serve_example =
    setup_conf-serve host (codes "/etc/sara/conf.json") system gjson machine [] refl
      template-AreRead refl refl refl
