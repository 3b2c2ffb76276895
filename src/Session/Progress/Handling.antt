-- ===== src/Session/Progress/Handling.antt =====
-- The handler of what is received, from the loop's round to the whole call.
use sara.Common.{
  ◌≡◌, refl, List, [], ◌∷◌, Option, none, some, if◌then◌else◌, Bytes, bytes_eq, Result, ok, err,
  Outcome, ret, panic, Exec, for_each, ◌>>=◌, ◌>>◌,
}
use sara.Jid.{Jid, to_offline_key}
use sara.Packet.{Packet, new_packet, new_packet_ack, new_packet_sys_notify, heart_beat}
use sara.Conn.{ReadPacketResult}
use sara.Session.State.{
  Env, World, Session, Status, conn, login, close, shared, read_session, tick,
  packet_handler_timeout,
}
use sara.Session.Actions.{answer, close_session, route_packet, route_packet_list, pkg_buff_del}
use sara.Session.Login.{open_session}
use sara.Session.Handler.{
  set_session_timeout, heartbeat, server_ack, handle_group, handle_chat, dispatch, handle_message,
  handle_packet, handle_result, packet_handler, stamp, delete_acknowledged,
}
use sara.Session.Progress.{
  Follows, Follows-trans, Advances, Advances-shared, Advances-if, advances_rules,
}
use sara.Session.Progress.Methods.{
  answer-Advances, close_session-Advances, route_packet-Advances, for_each-Advances,
  set_session_timeout-Advances, heartbeat-Advances, pkg_buff_del-Advances,
}
use sara.Session.Progress.Opening.{open_session-Follows}

module _ (env : Env) where
  ack_cases-Advances :
      (packet : Packet) (jid : Jid) (cached : Result (List Bytes))
      → Advances {env = env} (elim cached [
        | ok ids ↦ shared env (delete_acknowledged env (to_offline_key jid) ids)
        | err e ↦ pkg_buff_del env packet.envelope.id
      ])
  ack_cases-Advances packet jid (ok ids) = Advances-shared _
  ack_cases-Advances packet jid (err e) = pkg_buff_del-Advances env _

  server_ack-Advances : (packet : Packet) → Advances (server_ack env packet)
  unfolding server_ack
  server_ack-Advances packet = search (advances_rules, ack_cases-Advances) depth 8

  pub route_packet_list-Advances :
      (packets : List Packet) → Advances (route_packet_list env packets)
  unfolding route_packet_list
  route_packet_list-Advances packets =
      for_each-Advances env (route_packet env) packets (route_packet-Advances env)

  pub group_cases-Advances :
      (packet : Packet) (generated : Result (List Packet))
      → Advances {env = env} (elim generated [
        | err e ↦ answer env (new_packet_sys_notify packet.envelope.id e)
        | ok packets ↦ do
          now ← shared env (tick env)
          answer env (new_packet_ack packet.envelope.id (env.timestamp13 now))
          route_packet_list env packets
      ])
  group_cases-Advances packet (err e) = answer-Advances env _
  group_cases-Advances packet (ok packets) =
      search (advances_rules, answer-Advances, route_packet_list-Advances)

  handle_group-Advances : (packet : Packet) → Advances (handle_group env packet)
  unfolding handle_group
  handle_group-Advances packet = search (advances_rules, group_cases-Advances)

  handle_chat-Advances : (packet : Packet) → Advances (handle_chat env packet)
  unfolding handle_chat
  handle_chat-Advances packet =
      search (advances_rules, answer-Advances, route_packet-Advances) depth 8

  pub dispatch-Advances : (packet : Packet) → Advances (dispatch env packet)
  unfolding dispatch
  dispatch-Advances packet =
      search (advances_rules, server_ack-Advances, handle_group-Advances, handle_chat-Advances)

  message_cases-Advances :
      (r : Result Packet)
      → Advances {env = env} (elim r [
        | ok packet ↦ do
          now ← shared env (tick env)
          dispatch env (stamp (env.timestamp13 now) packet)
        | err e ↦ do
          id ← shared env (tick env)
          answer env (new_packet_sys_notify (env.uuid id) e)
          close_session env
      ])
  message_cases-Advances (ok packet) = search (advances_rules, dispatch-Advances)
  message_cases-Advances (err e) = search (advances_rules, answer-Advances, close_session-Advances)

  handle_message-Advances : (text : Bytes) → Advances (handle_message env text)
  unfolding handle_message
  handle_message-Advances text = message_cases-Advances (new_packet env.json text)

  pub logged_in-Advances :
      (text : Bytes)
      → Advances
          (if bytes_eq text (heart_beat ∷ []) then heartbeat env else handle_message env text)
  logged_in-Advances text =
      Advances-if _ _ _ (heartbeat-Advances env) (handle_message-Advances text)

  packet_cases-Follows :
      (text : Bytes) (w : World env) (phase : Status)
      → w.session.status.status ≡ phase
      → Follows w.session (
          (let step : Exec (World env) (Unit {0}) = elim phase [
            | conn ↦ open_session env text
            | _ ↦ if bytes_eq text (heart_beat ∷ []) then heartbeat env else handle_message env text
          ] in
            step w).1.session)
  packet_cases-Follows text w conn e = open_session-Follows env text w e
  packet_cases-Follows text w login e = (logged_in-Advances text).at w
  packet_cases-Follows text w close e = (logged_in-Advances text).at w

  pub handle_packet-Advances : (text : Bytes) → Advances (handle_packet env text)
  unfolding handle_packet ◌>>=◌ read_session
  handle_packet-Advances text = record {
    at = λ w. packet_cases-Follows text w w.session.status.status refl;
  }

  result_cases-Advances :
      (error : Option Bytes) (packets : List Bytes)
      → Advances {env = env}
          (elim error [ some e ↦ close_session env | none ↦ for_each (handle_packet env) packets ])
  result_cases-Advances (some e) packets = close_session-Advances env
  result_cases-Advances none packets =
      for_each-Advances env (handle_packet env) packets handle_packet-Advances

  pub handle_result-Advances : (result : ReadPacketResult) → Advances (handle_result env result)
  unfolding handle_result
  handle_result-Advances result = result_cases-Advances result.error result.packets

  handler_end-Follows :
      (s : Session) (o : Outcome (Unit {0})) (v : World env)
      → Follows s v.session
      → Follows s (
          (let last : Outcome (Unit {0}) × World env = elim o [
            | ret _ ↦ set_session_timeout env 0 v
            | panic ↦ (ret tt, v)
          ] in
            last).1.session)
  handler_end-Follows s (ret _) v f = Follows-trans f ((set_session_timeout-Advances env 0).at v)
  handler_end-Follows s panic v f = f

  -- Whatever a client sends and whatever the services and the database do, a call of the handler,
  -- also one with a panic on the way, takes the session to one that follows it: the status does not
  -- go back in the order `conn`, `login`, `close`; what was sent stays sent; once the connection is
  -- shut it stays so and nothing is sent; the session's id, node and channel do not change, nor,
  -- from the login on, its address; and a session whose connection is shut exactly when its status
  -- is `close` stays such a session.
  pub packet_handler-Follows :
      (result : ReadPacketResult) (w : World env)
      → Follows w.session (packet_handler env result w).1.session
  unfolding packet_handler
  packet_handler-Follows result w =
      let begun = set_session_timeout env packet_handler_timeout w in
      let done = handle_result env result begun.1 in
      handler_end-Follows w.session done.0 done.1 (
        Follows-trans ((set_session_timeout-Advances env packet_handler_timeout).at w)
          ((handle_result-Advances result).at begun.1))
