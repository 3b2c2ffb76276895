-- ===== src/Start/FromFile.antt =====
-- A start of the server from a configuration file, with `LoadFromConf` of config/config.go.
use sara.Common.{
  ◌≡◌, refl, sym, ap, ◌∙◌, Bool, true, false, [], ◌∷◌, ◌++◌, none, some, arith, Bytes, codes,
  bytes_eq, bytes_eq_refl, is_empty, lookup, lookup-insert, ℤ, pos, ret, All,
}
use sara.Config.{
  Conf, ConfFile, Kind, int_kind, string_kind, bool_kind, settings, get_string, get_int, get_bool,
  nodeid, load_from_conf, load_settings, Loaded, exited, panicked, load_nodeid, set_value,
  string_value, loaded,
}
use sara.Config.Load.{kind_of, from_file, load_from_conf-settings, lookup-load_settings}
use sara.Start.{Machine, signals_handled, Level, log_level, serve}
use sara.Start.Order.{Settings, Reads, log_ready, reachable, logged, noded, running, serve_starts}

-- A file that sets every key, and names the node.
pub record IsComplete (file : ConfFile) : Type 0 where
  pub named : file.exists nodeid ≡ true
  pub full : is_empty (file.as_string nodeid) ≡ false
  pub all : All (λ e. file.exists e.0 ≡ true) settings

abbrev pub settings_of : ConfFile → Settings
settings_of file = record {
  logfile = file.as_string (codes "logfile");
  loglevel = file.as_int (codes "loglevel");
  ports = record {
    port = file.as_int (codes "port");
    ws_port = file.as_int (codes "wsport");
    tls_port = file.as_int (codes "tlsport");
    wss_port = file.as_int (codes "wssport");
  };
  dbaddr = file.as_string (codes "dbaddr");
  dbpool = file.as_int (codes "dbpool");
  nodeaddr = file.as_string (codes "nodeaddr");
  nodeid = file.as_string nodeid;
  rpcport = file.as_int (codes "rpcport");
  certfile = file.as_string (codes "certfile");
  keyfile = file.as_string (codes "keyfile");
  enable_tcp = file.as_bool (codes "enable_tcp");
  enable_ws = file.as_bool (codes "enable_ws");
  enable_tls = file.as_bool (codes "enable_tls");
  enable_wss = file.as_bool (codes "enable_wss");
}

module _ (file : ConfFile) (before after : Conf) (complete : IsComplete file)
    (load : load_from_conf (some file) before ≡ loaded after) where
  found :
      (k : Bytes) (kind : Kind)
      → bytes_eq nodeid k ≡ false
      → kind_of k settings ≡ some kind
      → file.exists k ≡ true
      → lookup k after ≡ from_file file k (some kind) none
  found k kind other listed set =
      load_from_conf-settings file k before after complete.named complete.full other load
      ∙ ground (arith, listed, set)

  int-found :
      (k : Bytes) (def : ℤ)
      → bytes_eq nodeid k ≡ false
      → kind_of k settings ≡ some int_kind
      → file.exists k ≡ true
      → get_int k def after ≡ ret (file.as_int k)
  unfolding get_int
  int-found k def other listed set = rw (found k int_kind other listed set, set) refl

  string-found :
      (k def : Bytes)
      → bytes_eq nodeid k ≡ false
      → kind_of k settings ≡ some string_kind
      → file.exists k ≡ true
      → get_string k def after ≡ ret (file.as_string k)
  unfolding get_string
  string-found k def other listed set = rw (found k string_kind other listed set, set) refl

  bool-found :
      (k : Bytes) (def : Bool)
      → bytes_eq nodeid k ≡ false
      → kind_of k settings ≡ some bool_kind
      → file.exists k ≡ true
      → get_bool k def after ≡ ret (file.as_bool k)
  unfolding get_bool
  bool-found k def other listed set = rw (found k bool_kind other listed set, set) refl

  -- The node's id is set before the other settings, which leave it.
  named_first :
      lookup nodeid after
      ≡ lookup nodeid (
          load_settings file settings
            (set_value nodeid (string_value (file.as_string nodeid)) before))
  named_first =
      let e : load_from_conf (some file) before
          ≡ loaded (
              load_settings file settings
                (set_value nodeid (string_value (file.as_string nodeid)) before)) =
        unfold load_from_conf load_nodeid in rw (complete.named, complete.full) refl in
      ap (λ l. lookup nodeid (conf_of l)) (sym load ∙ e)
    where
      conf_of : Loaded → Conf
      conf_of (loaded conf) = conf
      conf_of exited = []
      conf_of panicked = []

  unlisted : kind_of nodeid settings ≡ none
  unfolding bytes_eq
  unlisted = refl

  nodeid-found : get_string nodeid [] after ≡ ret (file.as_string nodeid)
  unfolding get_string set_value
  nodeid-found =
      rw (named_first, lookup-load_settings, unlisted, lookup-insert, bytes_eq_refl nodeid) refl

  pub FromFile-Reads : Reads after (settings_of file)
  unfolding bytes_eq
  FromFile-Reads =
      let (
        port,
        (
          wsport,
          (
            tlsport,
            (
              wssport,
              (
                rpcport,
                (
                  accesstoken,
                  (
                    logfile,
                    (
                      loglevel,
                      (
                        dbaddr,
                        (
                          dbpool,
                          (
                            nodeaddr,
                            (
                              callback,
                              (
                                dc,
                                (
                                  certfile,
                                  (keyfile, (auth, (offline, (tcp, (tls, (ws, (wss, end))))))),
                                ),
                              ),
                            ),
                          ),
                        ),
                      ),
                    ),
                  ),
                ),
              ),
            ),
          ),
        ),
      ) =
        complete.all in
      record {
        logfile = string-found (codes "logfile") [] refl refl logfile;
        loglevel = int-found (codes "loglevel") (pos 3) refl refl loglevel;
        port = int-found (codes "port") (pos 4222) refl refl port;
        ws_port = int-found (codes "wsport") (pos 4224) refl refl wsport;
        tls_port = int-found (codes "tlsport") (pos 4333) refl refl tlsport;
        wss_port = int-found (codes "wssport") (pos 4334) refl refl wssport;
        dbaddr = string-found (codes "dbaddr") (codes "localhost:6379") refl refl dbaddr;
        dbpool = int-found (codes "dbpool") (pos 100) refl refl dbpool;
        nodeaddr = string-found (codes "nodeaddr") (codes "localhost:4281") refl refl nodeaddr;
        nodeid = nodeid-found;
        rpcport = int-found (codes "rpcport") (pos 4280) refl refl rpcport;
        certfile =
            string-found (codes "certfile") (codes "/etc/sara/server.pem") refl refl certfile;
        keyfile = string-found (codes "keyfile") (codes "/etc/sara/server.key") refl refl keyfile;
        enable_tcp = bool-found (codes "enable_tcp") true refl refl tcp;
        enable_ws = bool-found (codes "enable_ws") true refl refl ws;
        enable_tls = bool-found (codes "enable_tls") true refl refl tls;
        enable_wss = bool-found (codes "enable_wss") true refl refl wss;
      }

-- A server that starts from a file which sets every key, with one of the four log levels, where the log
-- needs no file or its file can be opened, and a database and the address of the node are there. The
-- start does not panic up to the wait, and does in this order: it sets up the log, begins to handle
-- the signals, opens the cluster or else the single database, serves the other nodes, removes what
-- an earlier run of this node left in the store, serves the calls over HTTP, opens of the four
-- listeners exactly those that the file enables and the machine lets it open, saves its process id
-- and waits; with the file's values throughout.
pub load-serve :
    (m : Machine) (file : ConfFile) (before after : Conf) (level : Level)
    → IsComplete file
    → load_from_conf (some file) before ≡ loaded after
    → log_level (file.as_int (codes "loglevel")) ≡ ret level
    → log_ready m (settings_of file) ≡ true
    → reachable m (settings_of file) ≡ true
    → m.rpc (file.as_string (codes "nodeaddr")) ≡ true
    → serve m after [] ≡ (
      ret tt,
      logged (settings_of file) level
          ++ (signals_handled ∷ noded m (settings_of file) ++ running m (settings_of file)),
    )
load-serve m file before after level complete load leveled ready there served =
    serve_starts m after (settings_of file) (FromFile-Reads file before after complete load) level
      leveled ready there served
