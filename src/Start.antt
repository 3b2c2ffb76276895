-- ===== src/Start.antt =====
-- main.go, the command that runs the server: `sara`, with `New` and the four `Start` methods of
-- node/node.go and `StartRPC` of service/server.go. What they do outside of the program is a trace of
-- actions; whether the machine lets them is the record `Machine`. The flag "debug" is off. Of the lines
-- that are logged, those of the goroutines that the start begins are left out, and the Debug lines of the
-- database, which reach no writer that the Info line behind them does not reach.
pub mod Emits
pub mod Order
pub mod Missing
pub mod FromFile
mod Tests
use sara.Common.{
  ℕ, ltb, ◌≡◌, Bool, true, false, List, [], ◌∷◌, ◌++◌, Option, none, some, if◌then◌else◌, ◌==◌,
  Bytes, codes, is_empty, ℤ, pos, negsuc, Outcome, ret, panic, Exec, pure, fault, modify, recovered,
  ◌>>=◌, ◌>>◌,
}
use sara.Config.{Conf, get_string, get_int, get_bool}

-- The elements of `logLevel`.
pub data Level : Type 0 where
  error_level warning_level info_level debug_level : Level

abbrev pub log_level : ℤ → Outcome Level
log_level (pos n) =
    if n == 0
    then ret error_level
    else if n == 1
    then ret warning_level
    else if n == 2
    then ret info_level
    else if n == 3
    then ret debug_level
    else panic
log_level (negsuc n) = panic

-- How severe a level is, as log4go orders them.
abbrev severity : Level → ℕ
severity error_level = 3
severity warning_level = 2
severity info_level = 1
severity debug_level = 0

pub data Transport : Type 0 where
  tcp ws tls wss : Transport

-- `log_opens` says whether a log file can be opened, `clustered` and `single` whether a database opens,
-- `rpc` whether the server socket of the node's address does, `key_pair` whether the two files hold a
-- certificate and its key, `listen` whether the port is free.
pub record Machine : Type 0 where
  pub log_opens : Bytes → Bool
  pub clustered : Bytes → ℤ → Bool
  pub single : Bytes → ℤ → Bool
  pub rpc : Bytes → Bool
  pub key_pair : Bytes → Bytes → Bool
  pub listen : Transport → ℤ → Bool

pub data Action : Type 0 where
  log_file : Bytes → Level → Action
  log_stdout : Level → Action
  signals_handled : Action
  cluster_opened : Bytes → ℤ → Action
  database_opened : Bytes → ℤ → Action
  rpc_served : Bytes → Action
  ghosts_cleaned : Bytes → Action
  http_served : ℤ → Action
  listening : Transport → ℤ → Action
  pid_saved : Action
  waiting : Action

abbrev pub Trace : Type 0
Trace = List Action

-- The ports of a node.
pub record Ports : Type 0 where
  pub port : ℤ
  pub ws_port : ℤ
  pub tls_port : ℤ
  pub wss_port : ℤ

-- What `New` ends with: nil, a node, or the end of the process by its deferred `os.Exit`.
pub data Created : Type 0 where
  no_node : Created
  created : Ports → Created
  exited : Created

unfoldable pub act : Action → Exec Trace (Unit {0})
act a trace = (ret tt, trace ++ a ∷ [])

-- A setting, or the panic of its getter.
unfoldable pub read : {A : Type 0} → Outcome A → Exec Trace A
read (ret a) trace = (ret a, trace)
read panic trace = (panic, trace)

-- The writer of the log file: `some filter` where it is nil, behind a filter of that level.
abbrev pub Broken : Type 0
Broken = Option Level

-- A line of the log, which panics where a nil writer is to write it.
unfoldable pub log : Broken → Level → Exec Trace (Unit {0})
log none level = pure tt
log (some filter) level = if ltb (severity level) (severity filter) then pure tt else fault

-- `NewFileLogWriter` returns nil where the file cannot be opened, and is added all the same.
unfoldable pub add_file : Machine → Bytes → Level → Exec Trace Broken
add_file m filepath level =
    if m.log_opens filepath
    then (do act (log_file filepath level); pure none)
    else pure (some level)

unfoldable pub set_up_log : Machine → Conf → Exec Trace Broken
set_up_log m conf = do
  filepath ← read (get_string (codes "logfile") [] conf)
  idx ← read (get_int (codes "loglevel") (pos 3) conf)
  level ← read (log_level idx)
  broken ← if is_empty filepath then pure none else add_file m filepath level
  act (log_stdout level)
  pure broken

-- `net.ListenTCP` or `tls.Listen`; the error of a port that is taken is logged.
unfoldable pub open_port : Machine → Broken → Transport → ℤ → Exec Trace (Unit {0})
open_port m broken transport port =
    if m.listen transport port
    then (do act (listening transport port); log broken info_level)
    else log broken error_level

-- A listener of a node, and of nil, whose port is read.
unfoldable pub start_plain :
    Machine → Broken → Transport → (Ports → ℤ) → Option Ports → Exec Trace (Unit {0})
start_plain m broken transport port none = fault
start_plain m broken transport port (some node) = open_port m broken transport (port node)

-- A listener with a certificate.
unfoldable pub start_secure :
    Machine → Conf → Broken → Transport → (Ports → ℤ) → Option Ports → Exec Trace (Unit {0})
start_secure m conf broken transport port node = do
  certfile ← read (get_string (codes "certfile") (codes "/etc/sara/server.pem") conf)
  keyfile ← read (get_string (codes "keyfile") (codes "/etc/sara/server.key") conf)
  if m.key_pair certfile keyfile
      then start_plain m broken transport port node
      else log broken error_level

abbrev pub start_tcp : Machine → Broken → Option Ports → Exec Trace (Unit {0})
start_tcp m broken = start_plain m broken tcp (λ p. p.port)

abbrev pub start_ws : Machine → Broken → Option Ports → Exec Trace (Unit {0})
start_ws m broken = start_plain m broken ws (λ p. p.ws_port)

abbrev pub start_tls : Machine → Conf → Broken → Option Ports → Exec Trace (Unit {0})
start_tls m conf broken = start_secure m conf broken tls (λ p. p.tls_port)

abbrev pub start_wss : Machine → Conf → Broken → Option Ports → Exec Trace (Unit {0})
start_wss m conf broken = start_secure m conf broken wss (λ p. p.wss_port)

-- The cluster, or else a single server.
unfoldable pub open_database : Machine → Bytes → ℤ → Exec Trace Bool
open_database m addr size =
    if m.clustered addr size
    then (do act (cluster_opened addr size); pure true)
    else if m.single addr size
    then (do act (database_opened addr size); pure true)
    else pure false

-- `cleanGhostSession`, with the node's id.
unfoldable pub clean_ghosts : Conf → Broken → Exec Trace (Unit {0})
clean_ghosts conf broken = do
  nodeid ← read (get_string (codes "nodeid") [] conf)
  log broken info_level
  act (ghosts_cleaned nodeid)
  log broken info_level

-- What follows the opening of the database. The deferred `os.Exit` also ends a panic.
unfoldable pub finish_node : Machine → Conf → Broken → Bytes → Ports → Exec Trace Created
finish_node m conf broken addr ports =
    if m.rpc addr
    then (do act (rpc_served addr); clean_ghosts conf broken; pure (created ports))
    else recovered (do log broken error_level; clean_ghosts conf broken; pure exited) exited

unfoldable pub new_node : Machine → Conf → Broken → Exec Trace Created
new_node m conf broken = do
  port ← read (get_int (codes "port") (pos 4222) conf)
  ws_port ← read (get_int (codes "wsport") (pos 4224) conf)
  tls_port ← read (get_int (codes "tlsport") (pos 4333) conf)
  wss_port ← read (get_int (codes "wssport") (pos 4334) conf)
  dbaddr ← read (get_string (codes "dbaddr") (codes "localhost:6379") conf)
  dbpool ← read (get_int (codes "dbpool") (pos 100) conf)
  addr ← read (get_string (codes "nodeaddr") (codes "localhost:4281") conf)
  opened ← open_database m dbaddr dbpool
  let ports : Ports = record {
    port = port;
    ws_port = ws_port;
    tls_port = tls_port;
    wss_port = wss_port;
  }
  if opened then finish_node m conf broken addr ports else (do log broken error_level; pure no_node)

-- `StartRPC`; the server runs in a goroutine of its own.
unfoldable pub start_rpc : Conf → Broken → Exec Trace (Unit {0})
start_rpc conf broken = do
  port ← read (get_int (codes "rpcport") (pos 4280) conf)
  log broken info_level
  act (http_served port)

-- `if config.GetBool(key, true) { … }`.
unfoldable pub if_set : Conf → Bytes → Exec Trace (Unit {0}) → Exec Trace (Unit {0})
if_set conf key start = do set ← read (get_bool key true conf); if set then start else pure tt

-- `Wait`, which reads the number of accepting goroutines of the node first.
unfoldable pub wait : Option Ports → Exec Trace (Unit {0})
wait none = fault
wait (some ports) = act waiting

-- The listeners that are enabled, in order.
unfoldable pub start_listeners : Machine → Conf → Broken → Option Ports → Exec Trace (Unit {0})
start_listeners m conf broken node = do
  if_set conf (codes "enable_tcp") (start_tcp m broken node)
  if_set conf (codes "enable_ws") (start_ws m broken node)
  if_set conf (codes "enable_tls") (start_tls m conf broken node)
  if_set conf (codes "enable_wss") (start_wss m conf broken node)

-- The part of `sara` behind `New`.
unfoldable pub run_node : Machine → Conf → Broken → Option Ports → Exec Trace (Unit {0})
run_node m conf broken node = do
  start_rpc conf broken
  start_listeners m conf broken node
  act pid_saved
  wait node

-- `sara`, once the configuration is loaded.
unfoldable pub serve : Machine → Conf → Exec Trace (Unit {0})
serve m conf = do
  broken ← set_up_log m conf
  act signals_handled
  node ← new_node m conf broken
  elim node [
    | no_node ↦ run_node m conf broken none
    | created ports ↦ run_node m conf broken (some ports)
    | exited ↦ pure tt
  ]
