-- ===== src/Node.antt =====
-- node/sessionmap.go, node/router.go and the parts of node/node.go that change state: the sessions
-- of a node, the workers that empty the router's queue, and what other nodes send. A panic in a
-- goroutine of the node ends the program. The address of the node and the call of another node,
-- whose code is in Rpc.antt, are the parameters `channel` and `publish`.
pub mod Sessions
pub mod Routing
pub mod Stop
pub mod Lifecycle
pub mod Workers
pub mod Chat
pub mod Remote
mod Tests
mod RemoteTests
use sara.Common.{
  ℕ, ◌+◌, ◌≡◌, Bool, true, false, List, [], ◌∷◌, ◌++◌, Option, none, some, if◌then◌else◌, ◌==◌,
  ◌||◌, Bytes, codes, bytes_eq, is_empty, lookup, insert, delete, ℤ, pos, Result, ok, err, Outcome,
  ret, panic, Exec, pure, fault, modify, for_each, continue, ◌>>=◌, ◌>>◌,
}
use sara.Jid.{Jid, new_jid, to_sessionid}
use sara.Packet.{Packet, new_packet, to_json, kill}
use sara.Packet.MsgType
use sara.Session.State.{Env, Shared, World, Session, RouterItem, on_db, tick, route}
use sara.Session.Actions.{route_packet, kill_session, close_session, store_packet}
use sara.Session.Group.{generate_group_packets}
use sara.Session.Handler.{new_session}

abbrev pub SessionMap : Type 0
SessionMap = List (Bytes × Session)

unfoldable pub register_session : Session → SessionMap → SessionMap
register_session session sessions =
    if is_empty session.status.sid then sessions else insert session.status.sid session sessions

unfoldable pub fetch_session : Bytes → SessionMap → Option Session
fetch_session sid sessions = lookup sid sessions

-- The loop of `clean` over the session ids in the channel.
unfoldable pub clean_sessions : List Bytes → SessionMap → SessionMap
clean_sessions [] sessions = sessions
clean_sessions (sid ∷ sids) sessions = clean_sessions sids (delete sid sessions)

module _ (env : Env) (channel : Bytes) (publish : Bytes → Bytes → ℕ → Result (Unit {0})) where
  pub record Node : Type 0 where
    pub shared : Shared env
    pub sessions : SessionMap

  -- A step on the shared state, and a method of a session of this node.
  unfoldable pub on_shared : {A : Type 0} → Exec (Shared env) A → Exec Node A
  on_shared m n = ((m n.shared).0, record n { shared = (m n.shared).1 })

  unfoldable pub on_session : Bytes → Session → Exec (World env) (Unit {0}) → Exec Node (Unit {0})
  on_session sid session m n =
      let done = m (record { shared = n.shared; session = session }) in
      (done.0, record n { shared = done.1.shared; sessions = insert sid done.1.session n.sessions })

  -- `packet.ToJson()` panics on nil.
  unfoldable pub signal_session : RouterItem → Exec (World env) (Unit {0})
  signal_session item =
      if item.signal == 0
      then elim item.packet [ some packet ↦ route_packet env packet | none ↦ fault ]
      else if item.signal == kill
      then kill_session env
      else pure tt

  unfoldable pub deliver : RouterItem → Exec Node (Unit {0})
  deliver item n = elim (fetch_session item.sid n.sessions) [
    | some session ↦ on_session item.sid session (signal_session item) n
    | none ↦ (ret tt, n)
  ]

  unfoldable pub forward : RouterItem → Exec Node (Unit {0})
  forward item = elim item.packet [
    | none ↦ fault
    | some packet ↦ do
      call ← on_shared (tick env)
      elim (publish item.channel (to_json env.json packet) call) [
        | ok _ ↦ pure tt
        | err e ↦ on_shared (store_packet env packet)
      ]
  ]

  unfoldable pub handle_item : RouterItem → Exec Node (Unit {0})
  handle_item item =
      if is_empty item.channel || bytes_eq channel item.channel then deliver item else forward item

  -- A round of a router worker; on an empty queue it waits.
  unfoldable pub work : List RouterItem → Exec Node (Unit {0})
  work [] n = (ret tt, n)
  work (item ∷ rest) n = handle_item item (record n { shared = record n.shared { routed = rest } })

  unfoldable pub router_worker : Exec Node (Unit {0})
  router_worker n = work n.shared.routed n

  -- `Node.clean`, for what is in the channel.
  unfoldable pub clean : Exec Node (Unit {0})
  clean n = (
    ret tt,
    record n {
      sessions = clean_sessions n.shared.cleaned n.sessions;
      shared = record n.shared { cleaned = [] };
    },
  )

  -- `dispatcher`, for either kind of connection.
  unfoldable pub dispatcher : Bytes → Exec Node (Unit {0})
  dispatcher nodeid n = (
    ret tt,
    record n {
      sessions = register_session (new_session (env.uuid n.shared.calls) nodeid channel) n.sessions;
      shared = record n.shared { calls = n.shared.calls + 1 };
    },
  )

  -- A packet from another node.
  unfoldable pub route_found : Packet → Jid → Exec (Shared env) (Unit {0})
  route_found packet jid = do
    found ← on_db env (env.db.get (to_sessionid jid))
    elim found [
      | ok ssb ↦ do
        let ss = env.unmarshal_status ssb
        route env ss.channel ss.sid (some packet) 0
        pure tt
      | err e ↦ store_packet env packet
    ]

  unfoldable pub node_route_packet : Packet → Exec (Shared env) (Unit {0})
  node_route_packet packet = elim (new_jid packet.envelope.to) [
    | err e ↦ pure tt
    | ok jid ↦ route_found packet jid
  ]

  unfoldable pub handle_decoded : Packet → Exec (Shared env) (Unit {0})
  handle_decoded packet =
      if packet.envelope.msg_type == MsgType.group_chat
      then (do
        generated ← generate_group_packets env packet
        elim generated [ ok packets ↦ for_each node_route_packet packets | err e ↦ pure tt ])
      else node_route_packet packet

  unfoldable pub data_channel_handler : Bytes → Exec (Shared env) (Unit {0})
  data_channel_handler message = elim (new_packet env.json message) [
    | ok packet ↦ handle_decoded packet
    | err e ↦ pure tt
  ]

  -- The sessions that a node of this id left in the store, when it starts.
  unfoldable pub clean_ghost_session : Bytes → Exec (Shared env) (Unit {0})
  clean_ghost_session nodeid = do
    now ← tick env
    on_db env (env.db.put_ex_with_idx (codes "sara") nodeid (nodeid ++ env.timestamp13 now) (pos 0))
    on_db env (env.db.delete_by_idx nodeid)
    pure tt
