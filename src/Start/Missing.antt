-- ===== src/Start/Missing.antt =====
-- A start of the server with no database.
use sara.Common.{◌≡◌, Bool, true, ◌&&◌, ◌||◌, [], ◌∷◌, ◌++◌, if◌then◌else◌, ret, panic, Exec}
use sara.Config.{Conf}
use sara.Start.{Machine, pid_saved, Trace}
use sara.Start.Emits.{Emits}
use sara.Start.Order.{Settings, Reads}

-- From any trace, a step does nothing but panic or return.
record Stops (m : Exec Trace (Unit {0})) (b : Bool) : Type 0 where
  at : (t : Trace) → m t ≡ (if b then panic else ret tt, t)

-- From any trace, a step panics with `out` behind the trace.
record Fails (m : Exec Trace (Unit {0})) (out : Trace) : Type 0 where
  at : (t : Trace) → m t ≡ (panic, t ++ out)

module _ (m : Machine) (conf : Conf) (s : Settings) (reads : Reads conf s) where
  abbrev paired : Bool
  paired = m.key_pair s.certfile s.keyfile && true

  -- Whether a listener is started, which reads a port of the node that is nil.
  abbrev pub any_started : Bool
  any_started =
      (s.enable_tcp && true)
      || ((s.enable_ws && true) || ((s.enable_tls && paired) || (s.enable_wss && paired)))

  -- What is left of the trace of a node that is nil.
  abbrev pub left_behind : Trace
  left_behind = if any_started then [] else pid_saved ∷ []
