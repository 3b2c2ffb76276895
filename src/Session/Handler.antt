-- ===== src/Session/Handler.antt =====
-- core/session.go: `packetHandler`, `heartbeat`, `serverAck`, `setSessionTimeout` and `newSession`.
use sara.Common.{
  ℕ, zero, suc, false, ◌&&◌, List, [], ◌∷◌, none, some, if◌then◌else◌, Bytes, bytes_eq, ◌==◌, ok,
  err, ret, panic, Exec, pure, for_each, ◌>>=◌, ◌>>◌,
}
use sara.Jid.{new_jid, to_offline_key}
use sara.Packet.{Packet, heart_beat, new_packet, new_packet_ack, new_packet_sys_notify}
use sara.Packet.MsgType
use sara.Cache
use sara.Conn.{ReadPacketResult}
use sara.Session.State.{
  Env, Shared, World, Session, Status, conn, login, close, on_db, shared, tick, deref, read_session,
  update_session, login_timeout, session_timeout, packet_handler_timeout, server_ack_name,
}
use sara.Session.Actions.{
  answer, send_message, close_session, route_packet, route_packet_list, pkg_buff_del, is_login,
}
use sara.Session.Group.{generate_group_packets}
use sara.Session.Login.{open_session}

-- `newSession`; the constructors set the read timeout of a login.
unfoldable pub new_session : Bytes → Bytes → Bytes → Session
new_session sid nodeid channel = record {
  status = record {
    sid = sid;
    jid = [];
    status = conn;
    nodeid = nodeid;
    channel = channel;
    ct = 0;
  };
  pkg_buff = [];
  sent = [];
  closed = false;
  read_timeout = login_timeout;
}

-- The packet as it goes on, with the time of its arrival in the envelope; the bytes received are
-- not touched.
unfoldable pub stamp : Bytes → Packet → Packet
stamp ct packet = record packet {
  base = record packet.base { envelope = record packet.envelope { ct = ct } };
}

unfoldable pub timeout_of : Status → ℕ → ℕ
timeout_of status (suc sec) = suc sec
timeout_of conn zero = login_timeout
timeout_of login zero = session_timeout
timeout_of close zero = session_timeout

module _ (env : Env) where
  unfoldable pub set_session_timeout : ℕ → Exec (World env) (Unit {0})
  set_session_timeout sec =
      update_session env λ s. record s { read_timeout = timeout_of s.status.status sec }

  unfoldable pub heartbeat : Exec (World env) (Unit {0})
  heartbeat = do
    status ← read_session env (λ s. s.status)
    if is_login status.status then send_message env (heart_beat ∷ []) else pure tt

  -- `DeleteByIdxKey` for each acknowledged message.
  unfoldable pub delete_acknowledged : Bytes → List Bytes → Exec (Shared env) (Unit {0})
  delete_acknowledged idx ids =
      for_each (λ id. do on_db env (env.db.delete_by_idx_key idx id); pure tt) ids

  unfoldable pub server_ack : Packet → Exec (World env) (Unit {0})
  server_ack packet = do
    status ← read_session env (λ s. s.status)
    jid ← deref (new_jid status.jid)
    cached ← shared env (λ s. (ret (Cache.get packet.envelope.id s.ofl_cache), s))
    elim cached [
      | ok ids ↦ shared env (delete_acknowledged (to_offline_key jid) ids)
      | err e ↦ pkg_buff_del env packet.envelope.id
    ]

  unfoldable pub handle_group : Packet → Exec (World env) (Unit {0})
  handle_group packet = do
    generated ← shared env (generate_group_packets env packet)
    elim generated [
      | err e ↦ answer env (new_packet_sys_notify packet.envelope.id e)
      | ok packets ↦ do
        now ← shared env (tick env)
        answer env (new_packet_ack packet.envelope.id (env.timestamp13 now))
        route_packet_list env packets
    ]

  unfoldable pub handle_chat : Packet → Exec (World env) (Unit {0})
  handle_chat packet = do
    (if packet.envelope.ack == 0 then pure tt else (do
      now ← shared env (tick env)
      answer env (new_packet_ack packet.envelope.id (env.timestamp13 now))))
    route_packet env packet

  -- A packet that could be decoded.
  unfoldable pub dispatch : Packet → Exec (World env) (Unit {0})
  dispatch packet =
      if packet.envelope.msg_type == MsgType.state && bytes_eq server_ack_name packet.envelope.to
      then server_ack packet
      else if packet.envelope.msg_type == MsgType.group_chat
      then handle_group packet
      else handle_chat packet

  unfoldable pub handle_message : Bytes → Exec (World env) (Unit {0})
  handle_message p = elim (new_packet env.json p) [
    | ok packet ↦ do now ← shared env (tick env); dispatch (stamp (env.timestamp13 now) packet)
    | err e ↦ do
      id ← shared env (tick env)
      answer env (new_packet_sys_notify (env.uuid id) e)
      close_session env
  ]

  -- A round of the loop over the packets.
  unfoldable pub handle_packet : Bytes → Exec (World env) (Unit {0})
  handle_packet p = do
    status ← read_session env (λ s. s.status)
    elim status.status [
      | conn ↦ open_session env p
      | _ ↦ if bytes_eq p (heart_beat ∷ []) then heartbeat else handle_message p
    ]

  unfoldable pub handle_result : ReadPacketResult → Exec (World env) (Unit {0})
  handle_result result = elim result.error [
    | some e ↦ close_session env
    | none ↦ for_each handle_packet result.packets
  ]

  -- The deferred function: after a panic the read timeout is not set back.
  unfoldable pub packet_handler : ReadPacketResult → Exec (World env) (Unit {0})
  packet_handler result w =
      let begun = set_session_timeout packet_handler_timeout w in
      let done = handle_result result begun.1 in
      elim done.0 [ ret _ ↦ set_session_timeout 0 done.1 | panic ↦ (ret tt, done.1) ]
