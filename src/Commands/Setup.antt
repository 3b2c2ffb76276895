-- ===== src/Commands/Setup.antt =====
-- The command `setup`, and a start of the server from the file that it writes.
use sara.Common.{
  ◌≡◌, refl, ap, ◌∙◌, true, false, [], ◌∷◌, ◌++◌, Option, none, some, Bytes, codes, bytes_eq,
  lookup, lookup_inserted, pos, Result, ok, err, ret,
}
use sara.Config.{
  Conf, ConfFile, Value, int_value, string_value, bool_value, settings, nodeid, load_from_conf,
  load_nodeid, load_settings, set_value, loaded,
}
use sara.Config.Template.{template, members, ReadAs, AreRead, read_member}
use sara.Start.{Machine, signals_handled, debug_level, log_level, serve}
use sara.Start.Order.{Settings, log_ready, reachable, logged, noded, running}
use sara.Start.FromFile.{IsComplete, settings_of, load-serve}
use sara.Commands.{Host, System, read_file, write_text}

unfoldable pub setup_conf : Host → Bytes → System → Result (Unit {0}) × System
unfolding write_text
setup_conf h out s = elim (h.write_error out) [
  | some e ↦ (err e, s)
  | none ↦ (ok tt, write_text out template s)
]

-- What `LoadFromConf` has of the file; `gjson` is the library.
unfoldable pub config_file : (Bytes → ConfFile) → Bytes → System → Option ConfFile
config_file gjson path s = elim (read_file path s) [ ok text ↦ some (gjson text) | err e ↦ none ]

-- The settings of a new file.
abbrev pub template_settings : Settings
template_settings = record {
  logfile = codes "/tmp/sara.log";
  loglevel = pos 3;
  ports = record { port = pos 4222; ws_port = pos 4224; tls_port = pos 4333; wss_port = pos 4334 };
  dbaddr = codes "localhost:6379";
  dbpool = pos 100;
  nodeaddr = codes "localhost:4281";
  nodeid = codes "n01";
  rpcport = pos 4280;
  certfile = codes "/etc/sara/server.pem";
  keyfile = codes "/etc/sara/server.key";
  enable_tcp = true;
  enable_ws = true;
  enable_tls = false;
  enable_wss = false;
}

setup_conf-written :
    (h : Host) (out : Bytes) (s : System)
    → h.write_error out ≡ none
    → setup_conf h out s ≡ (ok tt, write_text out template s)
unfolding setup_conf
setup_conf-written h out s e =
    ap
      (λ o. elim o as (λ _. Result (Unit {0}) × System) [
        | some x ↦ (err x, s)
        | none ↦ (ok tt, write_text out template s)
      ])
      e

config_file-written :
    (gjson : Bytes → ConfFile) (path text : Bytes) (s : System)
    → config_file gjson path (write_text path text s) ≡ some (gjson text)
unfolding config_file read_file write_text
config_file-written gjson path text s =
    ap
      (λ o.
        elim (elim o as (λ _. Result Bytes) [
          | some t ↦ ok t
          | none ↦ err (codes "no such file or directory")
        ])
          as (λ _. Option ConfFile) [ ok t ↦ some (gjson t) | err e ↦ none ])
      (lookup_inserted path text s.files)

module _ (file : ConfFile) (read : AreRead file members) where
  of : (k : Bytes) (v : Value) → lookup k members ≡ some v → ReadAs file k v
  of k v e = read_member file members k v read e

  exists_of : (k : Bytes) (v : Value) → ReadAs file k v → file.exists k ≡ true
  exists_of k (int_value i) r = r.0
  exists_of k (string_value t) r = r.0
  exists_of k (bool_value b) r = r.0

  has : (k : Bytes) (v : Value) → lookup k members ≡ some v → file.exists k ≡ true
  has k v e = exists_of k v (of k v e)

  template-IsComplete : IsComplete file
  unfolding lookup bytes_eq
  template-IsComplete = record {
    named = (of nodeid (string_value (codes "n01")) refl).0;
    full = rw (of nodeid (string_value (codes "n01")) refl).1 refl;
    all = (
      has (codes "port") _ refl,
      (
        has (codes "wsport") _ refl,
        (
          has (codes "tlsport") _ refl,
          (
            has (codes "wssport") _ refl,
            (
              has (codes "rpcport") _ refl,
              (
                has (codes "accesstoken") _ refl,
                (
                  has (codes "logfile") _ refl,
                  (
                    has (codes "loglevel") _ refl,
                    (
                      has (codes "dbaddr") _ refl,
                      (
                        has (codes "dbpool") _ refl,
                        (
                          has (codes "nodeaddr") _ refl,
                          (
                            has (codes "callback") _ refl,
                            (
                              has (codes "dc") _ refl,
                              (
                                has (codes "certfile") _ refl,
                                (
                                  has (codes "keyfile") _ refl,
                                  (
                                    has (codes "enable_auth") _ refl,
                                    (
                                      has (codes "enable_offline_callback") _ refl,
                                      (
                                        has (codes "enable_tcp") _ refl,
                                        (
                                          has (codes "enable_tls") _ refl,
                                          (
                                            has (codes "enable_ws") _ refl,
                                            (has (codes "enable_wss") _ refl, tt),
                                          ),
                                        ),
                                      ),
                                    ),
                                  ),
                                ),
                              ),
                            ),
                          ),
                        ),
                      ),
                    ),
                  ),
                ),
              ),
            ),
          ),
        ),
      ),
    );
  }

  template-settings_of : settings_of file ≡ template_settings
  unfolding lookup bytes_eq
  template-settings_of =
      rw
        (
          (of (codes "logfile") (string_value (codes "/tmp/sara.log")) refl).1,
          (of (codes "loglevel") (int_value (pos 3)) refl).1,
          (of (codes "port") (int_value (pos 4222)) refl).1,
          (of (codes "wsport") (int_value (pos 4224)) refl).1,
          (of (codes "tlsport") (int_value (pos 4333)) refl).1,
          (of (codes "wssport") (int_value (pos 4334)) refl).1,
          (of (codes "dbaddr") (string_value (codes "localhost:6379")) refl).1,
          (of (codes "dbpool") (int_value (pos 100)) refl).1,
          (of (codes "nodeaddr") (string_value (codes "localhost:4281")) refl).1,
          (of (codes "nodeid") (string_value (codes "n01")) refl).1,
          (of (codes "rpcport") (int_value (pos 4280)) refl).1,
          (of (codes "certfile") (string_value (codes "/etc/sara/server.pem")) refl).1,
          (of (codes "keyfile") (string_value (codes "/etc/sara/server.key")) refl).1,
          (of (codes "enable_tcp") (bool_value true) refl).1,
          (of (codes "enable_ws") (bool_value true) refl).1,
          (of (codes "enable_tls") (bool_value false) refl).1,
          (of (codes "enable_wss") (bool_value false) refl).1,
        )
        refl

loads :
    (file : ConfFile) (before : Conf)
    → IsComplete file
    → (after : Conf) × (load_from_conf (some file) before ≡ loaded after)
loads file before complete = (
  load_settings file settings (set_value nodeid (string_value (file.as_string nodeid)) before),
  unfold load_from_conf load_nodeid in rw (complete.named, complete.full) refl,
)

-- A file that `setup` could write starts a server: from the settings before, whatever they are, it is
-- loaded, and where gjson finds the members of the file with their values, the log file /tmp/sara.log can
-- be opened, and a database and the address of the node are there, the start does in order what these settings say, which opens the
-- ports 4222 and 4224 for TCP and websockets and no TLS.
pub setup_conf-serve :
    (h : Host) (out : Bytes) (s : System) (gjson : Bytes → ConfFile) (m : Machine) (before : Conf)
    → h.write_error out ≡ none
    → AreRead (gjson template) members
    → m.log_opens (codes "/tmp/sara.log") ≡ true
    → reachable m template_settings ≡ true
    → m.rpc (codes "localhost:4281") ≡ true
    → (after : Conf) × (load_from_conf (config_file gjson out (setup_conf h out s).1) before
        ≡ loaded after)
      × (serve m after [] ≡ (
        ret tt,
        logged template_settings debug_level
            ++ (signals_handled ∷ noded m template_settings ++ running m template_settings),
      ))
setup_conf-serve h out s gjson m before written read opens there served =
    let file = gjson template in
    let complete = template-IsComplete file read in
    let so = template-settings_of file read in
    let (after, load) = loads file before complete in
    let found : config_file gjson out (setup_conf h out s).1 ≡ some file =
      ap (λ r. config_file gjson out r.1) (setup_conf-written h out s written)
      ∙ config_file-written gjson out template s in
    (
      after,
      ap (λ o. load_from_conf o before) found ∙ load,
      load-serve m file before after debug_level complete load (ap (λ t. log_level t.loglevel) so)
            (ap (log_ready m) so ∙ opens) (ap (reachable m) so ∙ there)
            (ap (λ t. m.rpc t.nodeaddr) so ∙ served)
          ∙ ap (λ t. (ret tt, logged t debug_level ++ (signals_handled ∷ noded m t ++ running m t)))
              so,
    )
