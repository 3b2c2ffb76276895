-- ===== src/Session/Actions.antt =====
-- core/session.go: `SendMessage`, `answer`, `Kill`, `RoutePacket`, `CloseSession`, the store of
-- packets and the buffer of packets that wait for an acknowledgement.
use sara.Common.{
  Bool, true, false, List, [], ◌∷◌, ◌++◌, some, if◌then◌else◌, Bytes, bytes_eq, pos, ok, err, Exec,
  pure, for_each, ◌>>=◌, ◌>>◌, insert, delete, modify,
}
use sara.Jid.{Jid, new_jid, to_sessionid, to_offline_key, string_without_resource}
use sara.Packet.{Packet, to_json, new_packet_sys_notify, end_flag, kill}
use sara.Session.State.{
  Env, Shared, World, SessionStatus, Status, conn, login, close, on_db, shared, service, deref,
  read_session, update_session, route, offline_expired,
}

-- `jid.EqualWithoutResource(j)`: the error of `NewJID(j)` is dropped.
unfoldable pub equal_without_resource : {S : Type 0} → Jid → Bytes → Exec S Bool
equal_without_resource jid j = do
  jj ← deref (new_jid j)
  pure (bytes_eq (string_without_resource jid) (string_without_resource jj))

abbrev pub is_login : Status → Bool
is_login conn = false
is_login login = true
is_login close = false

module _ (env : Env) where
  -- On a closed connection the write fails, and nobody reads the error.
  unfoldable pub send_message : Bytes → Exec (World env) (Unit {0})
  send_message text =
      update_session env
        λ s. if s.closed then s else record s { sent = s.sent ++ (text ++ end_flag ∷ []) ∷ [] }

  unfoldable pub answer : Packet → Exec (World env) (Unit {0})
  answer packet = send_message (to_json env.json packet)

  unfoldable pub store_packet : Packet → Exec (Shared env) (Unit {0})
  store_packet packet = do
    to_jid ← deref (new_jid packet.envelope.to)
    let idx = to_offline_key to_jid
    on_db env (
        env.db.put_ex_with_idx idx packet.envelope.id (to_json env.json packet)
          (pos offline_expired))
    pure tt

  unfoldable pub pkg_buff_add : Packet → Exec (World env) (Unit {0})
  pkg_buff_add packet =
      update_session env λ s. record s { pkg_buff = insert packet.envelope.id packet s.pkg_buff }

  unfoldable pub pkg_buff_del : Bytes → Exec (World env) (Unit {0})
  pkg_buff_del id = update_session env λ s. record s { pkg_buff = delete id s.pkg_buff }

  unfoldable pub store_packets : List (Bytes × Packet) → Exec (Shared env) (Unit {0})
  store_packets [] = pure tt
  store_packets ((id, packet) ∷ rest) = do store_packet packet; store_packets rest

  -- The source ranges over the map in an order that Go does not say, which is the environment's.
  unfoldable pub pkg_buff_to_store : List (Bytes × Packet) → Exec (Shared env) (Unit {0})
  pkg_buff_to_store buff s = store_packets (env.range_order s.calls buff) s

  unfoldable pub set_status : Status → Exec (World env) (Unit {0})
  set_status status =
      update_session env λ s. record s { status = record s.status { status = status } }

  -- `self.clean <- sid`.
  unfoldable pub clean : Bytes → Exec (Shared env) (Unit {0})
  clean sid = modify λ s. record s { cleaned = s.cleaned ++ sid ∷ [] }

  -- What is deleted where the session was logged in.
  unfoldable pub unregister : SessionStatus → Exec (Shared env) (Unit {0})
  unregister status = do
    j ← deref (new_jid status.jid)
    on_db env (env.db.delete_by_idx_key status.nodeid (to_sessionid j))
    pure tt

  unfoldable pub shut_connection : Exec (World env) (Unit {0})
  shut_connection = update_session env λ s. record s { closed = true }

  -- The part of `CloseSession` behind its first test.
  unfoldable pub close_open_session : SessionStatus → Exec (World env) (Unit {0})
  close_open_session status = do
    shared env (clean status.sid)
    (if is_login status.status then shared env (unregister status) else pure tt)
    set_status close
    shut_connection
    buff ← read_session env (λ s. s.pkg_buff)
    shared env (pkg_buff_to_store buff)

  unfoldable pub close_session : Exec (World env) (Unit {0})
  close_session = do
    status ← read_session env (λ s. s.status)
    elim status.status [ close ↦ pure tt | _ ↦ close_open_session status ]

  unfoldable pub kill_session : Exec (World env) (Unit {0})
  kill_session = do send_message (kill ∷ []); close_session

  -- A packet of this client, for the session of another one or for the store.
  unfoldable pub route_to : Packet → Jid → Exec (Shared env) (Unit {0})
  route_to packet to_jid = do
    found ← on_db env (env.db.get (to_sessionid to_jid))
    elim found [
      | ok ssb ↦ do
        let ss = env.unmarshal_status ssb
        route env ss.channel ss.sid (some packet) 0
        pure tt
      | err e ↦ do
        store_packet packet
        modify λ s. record s { notified = s.notified ++ to_json env.json packet ∷ [] }
        service env (env.offline_callback (to_json env.json packet))
        pure tt
    ]

  unfoldable pub route_outgoing : Packet → Exec (World env) (Unit {0})
  route_outgoing packet = elim (new_jid packet.envelope.to) [
    | err e ↦ answer (new_packet_sys_notify packet.envelope.id e)
    | ok to_jid ↦ shared env (route_to packet to_jid)
  ]

  unfoldable pub route_logged_in : Packet → SessionStatus → Exec (World env) (Unit {0})
  route_logged_in packet status = do
    jid ← deref (new_jid status.jid)
    incoming ← equal_without_resource jid packet.envelope.to
    if incoming then (do pkg_buff_add packet; send_message (to_json env.json packet)) else (do
      outgoing ← equal_without_resource jid packet.envelope.from
      if outgoing then route_outgoing packet else pure tt)

  unfoldable pub route_packet : Packet → Exec (World env) (Unit {0})
  route_packet packet = do
    status ← read_session env (λ s. s.status)
    if is_login status.status then route_logged_in packet status else pure tt

  unfoldable pub route_packet_list : List Packet → Exec (World env) (Unit {0})
  route_packet_list packets = for_each route_packet packets
