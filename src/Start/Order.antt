-- ===== src/Start/Order.antt =====
-- What a start of the server does, in order.
use sara.Common.{
  ◌||◌, ◌≡◌, Bool, true, false, [], ◌∷◌, ◌++◌, none, some, if◌then◌else◌, Bytes, codes, ℤ, pos,
  is_empty, ret, pure, ◌>>◌,
}
use sara.Config.{Conf, get_string, get_int, get_bool}
use sara.Start.{
  Machine, info_level, error_level, log, add_file, signals_handled, log_file, log_stdout,
  cluster_opened, database_opened, rpc_served, ghosts_cleaned, http_served, pid_saved, waiting,
  Trace, Transport, tcp, ws, tls, wss, Ports, Level, log_level, Created, no_node, created, act,
  set_up_log, open_database, clean_ghosts, finish_node, new_node, start_rpc, start_listeners,
  run_node, wait, serve,
}
use sara.Start.Emits.{
  Emits, Emits-bind, Emits-pure, Emits-act, Emits-read, Emits-log, if_set-Emits, opened,
  start_plain-Emits, start_secure-Emits,
}

-- What the start reads of the configuration.
pub record Settings : Type 0 where
  pub logfile : Bytes
  pub loglevel : ℤ
  pub ports : Ports
  pub dbaddr : Bytes
  pub dbpool : ℤ
  pub nodeaddr : Bytes
  pub nodeid : Bytes
  pub rpcport : ℤ
  pub certfile : Bytes
  pub keyfile : Bytes
  pub enable_tcp : Bool
  pub enable_ws : Bool
  pub enable_tls : Bool
  pub enable_wss : Bool

-- No getter panics, and these are the settings.
pub record Reads (conf : Conf) (s : Settings) : Type 0 where
  pub logfile : get_string (codes "logfile") [] conf ≡ ret s.logfile
  pub loglevel : get_int (codes "loglevel") (pos 3) conf ≡ ret s.loglevel
  pub port : get_int (codes "port") (pos 4222) conf ≡ ret s.ports.port
  pub ws_port : get_int (codes "wsport") (pos 4224) conf ≡ ret s.ports.ws_port
  pub tls_port : get_int (codes "tlsport") (pos 4333) conf ≡ ret s.ports.tls_port
  pub wss_port : get_int (codes "wssport") (pos 4334) conf ≡ ret s.ports.wss_port
  pub dbaddr : get_string (codes "dbaddr") (codes "localhost:6379") conf ≡ ret s.dbaddr
  pub dbpool : get_int (codes "dbpool") (pos 100) conf ≡ ret s.dbpool
  pub nodeaddr : get_string (codes "nodeaddr") (codes "localhost:4281") conf ≡ ret s.nodeaddr
  pub nodeid : get_string (codes "nodeid") [] conf ≡ ret s.nodeid
  pub rpcport : get_int (codes "rpcport") (pos 4280) conf ≡ ret s.rpcport
  pub certfile : get_string (codes "certfile") (codes "/etc/sara/server.pem") conf ≡ ret s.certfile
  pub keyfile : get_string (codes "keyfile") (codes "/etc/sara/server.key") conf ≡ ret s.keyfile
  pub enable_tcp : get_bool (codes "enable_tcp") true conf ≡ ret s.enable_tcp
  pub enable_ws : get_bool (codes "enable_ws") true conf ≡ ret s.enable_ws
  pub enable_tls : get_bool (codes "enable_tls") true conf ≡ ret s.enable_tls
  pub enable_wss : get_bool (codes "enable_wss") true conf ≡ ret s.enable_wss

-- The log needs no file, or its file can be opened.
abbrev pub log_ready : Machine → Settings → Bool
log_ready m s = is_empty s.logfile || m.log_opens s.logfile

-- The phases of a start.
abbrev pub logged : Settings → Level → Trace
logged s level =
    (if is_empty s.logfile then [] else log_file s.logfile level ∷ []) ++ log_stdout level ∷ []

-- Whether a database opens.
abbrev pub reachable : Machine → Settings → Bool
reachable m s = m.clustered s.dbaddr s.dbpool || m.single s.dbaddr s.dbpool

abbrev pub stored : Machine → Settings → Trace
stored m s =
    if m.clustered s.dbaddr s.dbpool
    then cluster_opened s.dbaddr s.dbpool ∷ []
    else if m.single s.dbaddr s.dbpool
    then database_opened s.dbaddr s.dbpool ∷ []
    else []

abbrev pub secured : Machine → Settings → Transport → ℤ → Trace
secured m s transport port = if m.key_pair s.certfile s.keyfile then opened m transport port else []

abbrev pub listeners : Machine → Settings → Trace
listeners m s =
    (if s.enable_tcp then opened m tcp s.ports.port else [])
    ++ ((if s.enable_ws then opened m ws s.ports.ws_port else [])
        ++ ((if s.enable_tls then secured m s tls s.ports.tls_port else [])
            ++ (if s.enable_wss then secured m s wss s.ports.wss_port else [])))

abbrev pub noded : Machine → Settings → Trace
noded m s = stored m s ++ (rpc_served s.nodeaddr ∷ ghosts_cleaned s.nodeid ∷ [])

abbrev pub running : Machine → Settings → Trace
running m s = http_served s.rpcport ∷ (listeners m s ++ (pid_saved ∷ waiting ∷ []))

module _ (m : Machine) (conf : Conf) (s : Settings) (reads : Reads conf s) where
  add_file-Emits :
      (level : Level) (unnamed : Bool)
      → (unnamed || m.log_opens s.logfile) ≡ true
      → Emits
          (if unnamed then pure none else add_file m s.logfile level)
          none
          (if unnamed then [] else log_file s.logfile level ∷ [])
  add_file-Emits level true ready = Emits-pure none
  add_file-Emits level false ready =
      unfold add_file in rw ready (Emits-bind _ _ (Emits-act _) (Emits-pure none))

  pub set_up_log-Emits :
      (level : Level)
      → log_level s.loglevel ≡ ret level
      → log_ready m s ≡ true
      → Emits (set_up_log m conf) none (logged s level)
  unfolding set_up_log
  set_up_log-Emits level e ready = Emits-bind _ _ (Emits-read _ reads.logfile) (
      Emits-bind _ _ (Emits-read _ reads.loglevel) (
        Emits-bind _ _ (Emits-read _ e) (
          Emits-bind _ _ (add_file-Emits level (is_empty s.logfile) ready)
            (Emits-bind _ _ (Emits-act _) (Emits-pure none)))))

  open_database-Emits : Emits (open_database m s.dbaddr s.dbpool) (reachable m s) (stored m s)
  unfolding open_database
  open_database-Emits = go (m.clustered s.dbaddr s.dbpool) (m.single s.dbaddr s.dbpool)
    where
      go :
          (c d : Bool)
          → Emits
              (if c
                then (do act (cluster_opened s.dbaddr s.dbpool); pure true)
                else if d
                then (do act (database_opened s.dbaddr s.dbpool); pure true)
                else pure false)
              (c || d)
              (if c
                then cluster_opened s.dbaddr s.dbpool ∷ []
                else if d
                then database_opened s.dbaddr s.dbpool ∷ []
                else [])
      go true d = Emits-bind _ _ (Emits-act _) (Emits-pure true)
      go false true = Emits-bind _ _ (Emits-act _) (Emits-pure true)
      go false false = Emits-pure false

  clean_ghosts-Emits : Emits (clean_ghosts conf none) tt (ghosts_cleaned s.nodeid ∷ [])
  unfolding clean_ghosts
  clean_ghosts-Emits =
      Emits-bind _ _ (Emits-read _ reads.nodeid) (
        Emits-bind _ _ (Emits-log info_level) (Emits-bind _ _ (Emits-act _) (Emits-log info_level)))

  served-Emits :
      m.rpc s.nodeaddr ≡ true
      → Emits
          (finish_node m conf none s.nodeaddr s.ports)
          (created s.ports)
          (rpc_served s.nodeaddr ∷ ghosts_cleaned s.nodeid ∷ [])
  unfolding finish_node
  served-Emits e = rw e (
      Emits-bind _ _ (Emits-act _)
        (Emits-bind _ _ clean_ghosts-Emits (Emits-pure (created s.ports))))

  -- Behind the opening of the database.
  pub new_node-Emits :
      (node : Created) (out : Trace)
      → Emits
          (if reachable m s
            then finish_node m conf none s.nodeaddr s.ports
            else (do log none error_level; pure no_node))
          node
          out
      → Emits (new_node m conf none) node (stored m s ++ out)
  unfolding new_node
  new_node-Emits node out h = Emits-bind _ _ (Emits-read _ reads.port) (
      Emits-bind _ _ (Emits-read _ reads.ws_port) (
        Emits-bind _ _ (Emits-read _ reads.tls_port) (
          Emits-bind _ _ (Emits-read _ reads.wss_port) (
            Emits-bind _ _ (Emits-read _ reads.dbaddr) (
              Emits-bind _ _ (Emits-read _ reads.dbpool) (
                Emits-bind _ _ (Emits-read _ reads.nodeaddr)
                  (Emits-bind _ _ open_database-Emits h)))))))

  pub start_rpc-Emits : Emits (start_rpc conf none) tt (http_served s.rpcport ∷ [])
  unfolding start_rpc
  start_rpc-Emits =
      Emits-bind _ _ (Emits-read _ reads.rpcport)
        (Emits-bind _ _ (Emits-log info_level) (Emits-act _))

  start_listeners-Emits : Emits (start_listeners m conf none (some s.ports)) tt (listeners m s)
  unfolding start_listeners
  start_listeners-Emits =
      Emits-bind _ _
        (if_set-Emits conf (codes "enable_tcp") _ reads.enable_tcp
          (start_plain-Emits m tcp (λ p. p.port) s.ports))
        (Emits-bind _ _
          (if_set-Emits conf (codes "enable_ws") _ reads.enable_ws
            (start_plain-Emits m ws (λ p. p.ws_port) s.ports))
          (Emits-bind _ _
            (if_set-Emits conf (codes "enable_tls") _ reads.enable_tls (
              start_secure-Emits m conf tls (λ p. p.tls_port) s.ports reads.certfile reads.keyfile))
            (if_set-Emits conf (codes "enable_wss") _ reads.enable_wss (
              start_secure-Emits m conf wss (λ p. p.wss_port) s.ports reads.certfile
                reads.keyfile))))

  run_node-Emits : Emits (run_node m conf none (some s.ports)) tt (running m s)
  unfolding run_node wait
  run_node-Emits = Emits-bind _ _ start_rpc-Emits (
      Emits-bind _ _ start_listeners-Emits
        (Emits-bind _ _ (Emits-act pid_saved) (Emits-act waiting)))

  -- The whole start, where the log, the database and the node's address are there.
  pub serve_starts :
      (level : Level)
      → log_level s.loglevel ≡ ret level
      → log_ready m s ≡ true
      → reachable m s ≡ true
      → m.rpc s.nodeaddr ≡ true
      → serve m conf [] ≡ (ret tt, logged s level ++ (signals_handled ∷ noded m s ++ running m s))
  unfolding serve
  serve_starts level e ready there served =
      (Emits-bind (set_up_log m conf) _ (set_up_log-Emits level e ready) (
          Emits-bind (act signals_handled) _ (Emits-act signals_handled) (
            Emits-bind (new_node m conf none) _
              (new_node-Emits (created s.ports) _ (rw there (served-Emits served)))
              run_node-Emits))).at
        []
