-- ===== src/Session/State.antt =====
-- core/session.go, the types; the effects that the methods are made of.
-- A session changes its own state and the state that all sessions of a node share. The status of a
-- session is one of three texts in the source, a data type here.
use mathlib.Core.List.{Permᴰ}
use sara.Common.{
  ℕ, ◌+◌, ◌*◌, Bool, List, [], ◌∷◌, ◌++◌, Option, if◌then◌else◌, ltb, length, Bytes, codes, Result,
  ok, err, Outcome, ret, Exec, pure, fault,
}
use sara.Jid.{Jid}
use sara.Packet.{Json, Packet}
use sara.Database.{Database}
use sara.Cache.{OfflineMessageCache}

abbrev pub login_timeout : ℕ
login_timeout = 8

abbrev pub session_timeout : ℕ
session_timeout = 100

abbrev pub packet_handler_timeout : ℕ
packet_handler_timeout = session_timeout * 2

abbrev pub offline_expired : ℕ
offline_expired = 3600 * 24 * 7

abbrev pub server_ack_name : Bytes
server_ack_name = codes "server_ack"

-- core/types/defines.go.
abbrev pub router_queue_size : ℕ
router_queue_size = 100000

pub data Status : Type 0 where
  conn login close : Status

pub record SessionStatus : Type 0 where
  pub sid : Bytes
  pub jid : Bytes
  pub status : Status
  pub nodeid : Bytes
  pub channel : Bytes
  pub ct : ℕ

-- node/router.go, `routerItem`; the signal 0 is none.
pub record RouterItem : Type 0 where
  pub channel : Bytes
  pub sid : Bytes
  pub packet : Option Packet
  pub signal : ℕ

unfoldable pub vals : RouterItem → Bytes × Bytes × Option Packet × ℕ
vals item = (item.channel, item.sid, item.packet, item.signal)

-- `NewSessionStatusFromJson`: an error of the decoder is logged, and the status is what it has read
-- until then.
unfoldable pub new_session_status_from_json :
    (Bytes → SessionStatus × Option Bytes) → Bytes → SessionStatus
new_session_status_from_json unmarshal text = (unmarshal text).0

-- What a session uses of the rest of the program and of libraries. A call that is not a function of
-- its arguments (random ids, the clock, the callback service) also takes a number, which is another
-- one at each call. The services may panic.
pub record Env : Type 1 where
  pub db : Database
  pub json : Json
  pub marshal_status : SessionStatus → Result Bytes
  pub unmarshal_status : Bytes → SessionStatus
  pub uuid : ℕ → Bytes
  pub timestamp10 : ℕ → ℕ
  pub timestamp13 : ℕ → Bytes
  pub auth : Bytes → Bytes → ℕ → Outcome Bool
  pub group_user_list : Bytes → ℕ → Outcome (Result (List Bytes))
  pub offline_callback : Bytes → ℕ → Outcome Bool
  pub range_order : ℕ → List (Bytes × Packet) → List (Bytes × Packet)
  pub ranges : (n : ℕ) (buff : List (Bytes × Packet)) → Permᴰ buff (range_order n buff)

-- `sent` is what was given to `WritePacket` while the connection was open, `read_timeout` the
-- seconds of the last `SetReadTimeout`.
pub record Session : Type 0 where
  pub status : SessionStatus
  pub pkg_buff : List (Bytes × Packet)
  pub sent : List Bytes
  pub closed : Bool
  pub read_timeout : ℕ

-- A method call on what `NewJID` returned, its error dropped: on nil it panics.
unfoldable pub deref : {S : Type 0} → Result Jid → Exec S Jid
deref (ok j) = pure j
deref (err e) = fault

module _ (env : Env) where
  -- `cleaned` is the channel of session ids that the node forgets, `notified` the packets that the
  -- callback service was told of, `calls` the number for the next call.
  pub record Shared : Type 0 where
    pub db : env.db.State
    pub ofl_cache : OfflineMessageCache
    pub routed : List RouterItem
    pub cleaned : List Bytes
    pub notified : List Bytes
    pub calls : ℕ

  pub record World : Type 0 where
    pub shared : Shared
    pub session : Session

  -- An operation of the database.
  unfoldable pub on_db : {A : Type 0} → Exec env.db.State A → Exec Shared A
  on_db m s = ((m s.db).0, record s { db = (m s.db).1 })

  -- A step on the shared state, within a session.
  unfoldable pub shared : {A : Type 0} → Exec Shared A → Exec World A
  shared m w = ((m w.shared).0, record w { shared = (m w.shared).1 })

  -- The number of a call.
  unfoldable pub tick : Exec Shared ℕ
  tick s = (ret s.calls, record s { calls = s.calls + 1 })

  -- A call of a service.
  unfoldable pub service : {A : Type 0} → (ℕ → Outcome A) → Exec Shared A
  service f s = (f s.calls, record s { calls = s.calls + 1 })

  unfoldable pub read_session : {A : Type 0} → (Session → A) → Exec World A
  read_session f w = (ret (f w.session), w)

  unfoldable pub update_session : (Session → Session) → Exec World (Unit {0})
  update_session f w = (ret tt, record w { session = f w.session })

  -- node/router.go, `Router.Route`: on a full queue the item is dropped and an error returned.
  unfoldable pub route : Bytes → Bytes → Option Packet → ℕ → Exec Shared (Result (Unit {0}))
  route channel sid packet signal s =
      let item : RouterItem = record {
        channel = channel;
        sid = sid;
        packet = packet;
        signal = signal;
      } in
      if ltb (length s.routed) router_queue_size
      then (ret (ok tt), record s { routed = s.routed ++ item ∷ [] })
      else (ret (err (codes "load_over")), s)
