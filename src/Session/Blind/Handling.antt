-- ===== src/Session/Blind/Handling.antt =====
-- The handling of what is received.
use sara.Common.{
  List, [], ◌∷◌, if◌then◌else◌, Bytes, bytes_eq, Result, ok, err, for_each, ◌>>=◌, ◌>>◌,
}
use sara.Jid.{Jid, to_offline_key}
use sara.Packet.{Packet, new_packet, new_packet_ack, new_packet_sys_notify, heart_beat}
use sara.Session.State.{Env, Status, conn, login, close, shared, tick}
use sara.Session.Actions.{answer, close_session, route_packet, route_packet_list, pkg_buff_del}
use sara.Session.Login.{open_session}
use sara.Session.Handler.{
  heartbeat, server_ack, handle_group, handle_chat, dispatch, handle_message, handle_packet, stamp,
  delete_acknowledged,
}
use sara.Session.Blind.{Blind, Blind-bind, Blind-shared, Blind-if, for_each-Blind, blind_rules}
use sara.Session.Blind.Methods.{
  answer-Blind, close_session-Blind, route_packet-Blind, heartbeat-Blind, pkg_buff_del-Blind,
  open_session-Blind, status-Blind,
}

module _ (env : Env) where
  ack_cases-Blind :
      (packet : Packet) (jid : Jid) (cached : Result (List Bytes))
      → Blind {env = env} (elim cached [
        | ok ids ↦ shared env (delete_acknowledged env (to_offline_key jid) ids)
        | err e ↦ pkg_buff_del env packet.envelope.id
      ])
  ack_cases-Blind packet jid (ok ids) = Blind-shared _
  ack_cases-Blind packet jid (err e) = pkg_buff_del-Blind env _

  server_ack-Blind : (packet : Packet) → Blind (server_ack env packet)
  unfolding server_ack
  server_ack-Blind packet = search (blind_rules, status-Blind, ack_cases-Blind) depth 8

  route_packet_list-Blind : (packets : List Packet) → Blind (route_packet_list env packets)
  unfolding route_packet_list
  route_packet_list-Blind packets =
      for_each-Blind (route_packet env) packets (route_packet-Blind env)

  group_cases-Blind :
      (packet : Packet) (generated : Result (List Packet))
      → Blind {env = env} (elim generated [
        | err e ↦ answer env (new_packet_sys_notify packet.envelope.id e)
        | ok packets ↦ do
          now ← shared env (tick env)
          answer env (new_packet_ack packet.envelope.id (env.timestamp13 now))
          route_packet_list env packets
      ])
  group_cases-Blind packet (err e) = answer-Blind env _
  group_cases-Blind packet (ok packets) =
      search (blind_rules, answer-Blind, route_packet_list-Blind)

  handle_group-Blind : (packet : Packet) → Blind (handle_group env packet)
  unfolding handle_group
  handle_group-Blind packet = search (blind_rules, group_cases-Blind)

  handle_chat-Blind : (packet : Packet) → Blind (handle_chat env packet)
  unfolding handle_chat
  handle_chat-Blind packet = search (blind_rules, answer-Blind, route_packet-Blind) depth 8

  dispatch-Blind : (packet : Packet) → Blind (dispatch env packet)
  unfolding dispatch
  dispatch-Blind packet =
      search (blind_rules, server_ack-Blind, handle_group-Blind, handle_chat-Blind)

  message_cases-Blind :
      (r : Result Packet)
      → Blind {env = env} (elim r [
        | ok packet ↦ do
          now ← shared env (tick env)
          dispatch env (stamp (env.timestamp13 now) packet)
        | err e ↦ do
          id ← shared env (tick env)
          answer env (new_packet_sys_notify (env.uuid id) e)
          close_session env
      ])
  message_cases-Blind (ok packet) = search (blind_rules, dispatch-Blind)
  message_cases-Blind (err e) = search (blind_rules, answer-Blind, close_session-Blind)

  handle_message-Blind : (text : Bytes) → Blind (handle_message env text)
  unfolding handle_message
  handle_message-Blind text = message_cases-Blind (new_packet env.json text)

  logged_in-Blind :
      (text : Bytes)
      → Blind (if bytes_eq text (heart_beat ∷ []) then heartbeat env else handle_message env text)
  logged_in-Blind text = Blind-if _ _ _ (heartbeat-Blind env) (handle_message-Blind text)

  phase_cases-Blind :
      (text : Bytes) (phase : Status)
      → Blind {env = env} (elim phase [
        | conn ↦ open_session env text
        | _ ↦ if bytes_eq text (heart_beat ∷ []) then heartbeat env else handle_message env text
      ])
  phase_cases-Blind text conn = open_session-Blind env text
  phase_cases-Blind text login = logged_in-Blind text
  phase_cases-Blind text close = logged_in-Blind text

  pub handle_packet-Blind : (text : Bytes) → Blind (handle_packet env text)
  unfolding handle_packet
  handle_packet-Blind text =
      Blind-bind _ _ (status-Blind env) λ status. phase_cases-Blind text status.status

  pub handle_packets-Blind : (texts : List Bytes) → Blind (for_each (handle_packet env) texts)
  handle_packets-Blind texts = for_each-Blind (handle_packet env) texts handle_packet-Blind
