-- ===== src/Session/Kept/Methods.antt =====
-- The methods of Actions.antt and Login.antt: none takes a packet out of the buffer.
use sara.Common.{
  ℕ, Bool, true, false, List, [], ◌∷◌, ◌++◌, Option, none, some, if◌then◌else◌, Bytes, ◌==◌, Result,
  All, ok, err, pure, ◌>>=◌,
}
use sara.Jid.{Jid, new_jid}
use sara.Packet.{
  Packet, Envelope, new_packet, new_packet_sys_notify, fail_packet, fail_type, end_flag, to_json,
}
use sara.Packet.MsgType
use sara.Session.State.{
  Env, Session, SessionStatus, Status, conn, login, close, shared, update_session, tick,
}
use sara.Session.Actions.{
  send_message, answer, close_session, close_open_session, kill_session, set_status,
  shut_connection, pkg_buff_add, route_packet, route_packet_list, route_logged_in, route_outgoing,
  route_to, equal_without_resource,
}
use sara.Session.Login.{verify, verify_jid, verify_auth, refuse, log_in, open_session}
use sara.Session.Handler.{heartbeat, set_session_timeout}
use sara.Session.Kept.{
  Waits, IsOther, Waits-insert, Keeps, Keeps-bind, Keeps-pure, Keeps-shared, Keeps-read,
  Keeps-update, for_each-Keeps, keeps_rules,
}

module _ (kept : Packet) (env : Env) where
  send_message-Keeps : (text : Bytes) → Keeps kept (send_message env text)
  unfolding send_message
  send_message-Keeps text =
      Keeps-update _ λ s. go s.closed s (s.sent ++ (text ++ end_flag ∷ []) ∷ [])
    where
      go :
          (b : Bool) (s : Session) (sent : List Bytes)
          → Waits kept s.pkg_buff
          → Waits kept (if b then s else record s { sent = sent }).pkg_buff
      go true s sent h = h
      go false s sent h = h

  pub answer-Keeps : (p : Packet) → Keeps kept (answer env p)
  unfolding answer
  answer-Keeps p = send_message-Keeps (to_json env.json p)

  set_status-Keeps : (status : Status) → Keeps kept (set_status env status)
  unfolding set_status
  set_status-Keeps status = Keeps-update _ λ s h. h

  shut_connection-Keeps : Keeps kept (shut_connection env)
  unfolding shut_connection
  shut_connection-Keeps = Keeps-update _ λ s h. h

  pub set_session_timeout-Keeps : (sec : ℕ) → Keeps kept (set_session_timeout env sec)
  unfolding set_session_timeout
  set_session_timeout-Keeps sec = Keeps-update _ λ s h. h

  close_open_session-Keeps : (status : SessionStatus) → Keeps kept (close_open_session env status)
  unfolding close_open_session
  close_open_session-Keeps status =
      search (keeps_rules, set_status-Keeps, shut_connection-Keeps) depth 12

  close_rest-Keeps :
      (status : SessionStatus) (phase : Status)
      → Keeps kept {env = env} (elim phase [ close ↦ pure tt | _ ↦ close_open_session env status ])
  close_rest-Keeps status conn = close_open_session-Keeps status
  close_rest-Keeps status login = close_open_session-Keeps status
  close_rest-Keeps status close = Keeps-pure tt

  pub close_session-Keeps : Keeps kept (close_session env)
  unfolding close_session
  close_session-Keeps =
      Keeps-bind _ _ (Keeps-read _) λ status. close_rest-Keeps status status.status

  pub kill_session-Keeps : Keeps kept (kill_session env)
  unfolding kill_session
  kill_session-Keeps = search (keeps_rules, send_message-Keeps, close_session-Keeps)

  pkg_buff_add-Keeps : (p : Packet) → IsOther kept p → Keeps kept (pkg_buff_add env p)
  unfolding pkg_buff_add
  pkg_buff_add-Keeps p other = Keeps-update _ λ s. Waits-insert kept p s.pkg_buff other

  equal-Keeps :
      (jid : Jid) (text : Bytes) → Keeps kept {env = env} (equal_without_resource jid text)
  unfolding equal_without_resource
  equal-Keeps jid text = search keeps_rules

  route_cases-Keeps :
      (p : Packet) (j : Result Jid)
      → Keeps kept {env = env} (elim j [
        | err e ↦ answer env (new_packet_sys_notify p.envelope.id e)
        | ok to_jid ↦ shared env (route_to env p to_jid)
      ])
  route_cases-Keeps p (err e) = answer-Keeps _
  route_cases-Keeps p (ok j) = Keeps-shared (route_to env p j)

  route_outgoing-Keeps : (p : Packet) → Keeps kept (route_outgoing env p)
  unfolding route_outgoing
  route_outgoing-Keeps p = route_cases-Keeps p (new_jid p.envelope.to)

  route_logged_in-Keeps :
      (p : Packet) (status : SessionStatus)
      → IsOther kept p
      → Keeps kept (route_logged_in env p status)
  unfolding route_logged_in
  route_logged_in-Keeps p status other =
      search
        (keeps_rules, equal-Keeps, pkg_buff_add-Keeps, send_message-Keeps, route_outgoing-Keeps)
        depth 9

  pub route_packet-Keeps : (p : Packet) → IsOther kept p → Keeps kept (route_packet env p)
  unfolding route_packet
  route_packet-Keeps p other = search (keeps_rules, route_logged_in-Keeps)

  pub route_packet_list-Keeps :
      (packets : List Packet)
      → All (IsOther kept) packets
      → Keeps kept (route_packet_list env packets)
  unfolding route_packet_list
  route_packet_list-Keeps packets others =
      for_each-Keeps (route_packet env) packets (routed packets others)
    where
      routed :
          (ps : List Packet) → All (IsOther kept) ps → All (λ p. Keeps kept (route_packet env p)) ps
      routed [] hs = tt
      routed (p ∷ ps) (h, hs) = (route_packet-Keeps p h, routed ps hs)

  pub heartbeat-Keeps : Keeps kept (heartbeat env)
  unfolding heartbeat
  heartbeat-Keeps = search (keeps_rules, send_message-Keeps)

  refuse-Keeps : (i reason : Bytes) → Keeps kept (refuse env i reason)
  unfolding refuse
  refuse-Keeps i reason = search (keeps_rules, answer-Keeps, close_session-Keeps)

  verify_auth-Keeps : (packet : Packet) (jid : Jid) → Keeps kept (verify_auth env packet jid)
  unfolding verify_auth
  verify_auth-Keeps packet jid = search (keeps_rules, refuse-Keeps)

  jid_cases-Keeps :
      (packet : Packet) (j : Result Jid)
      → Keeps kept {env = env} (elim j [
        | err e ↦ refuse env packet.envelope.id fail_packet
        | ok jid ↦ verify_auth env packet jid
      ])
  jid_cases-Keeps packet (err e) = refuse-Keeps _ _
  jid_cases-Keeps packet (ok jid) = verify_auth-Keeps packet jid

  verify_jid-Keeps : (packet : Packet) → Keeps kept (verify_jid env packet)
  unfolding verify_jid
  verify_jid-Keeps packet = jid_cases-Keeps packet (new_jid packet.envelope.jid)

  text_cases-Keeps :
      (r : Result Packet)
      → Keeps kept {env = env} (elim r [
        | err e ↦ do i ← shared env (tick env); refuse env (env.uuid i) fail_packet
        | ok packet ↦
            if packet.envelope.msg_type == MsgType.open_session
            then verify_jid env packet
            else refuse env packet.envelope.id fail_type
      ])
  text_cases-Keeps (err e) = search (keeps_rules, refuse-Keeps)
  text_cases-Keeps (ok packet) = search (keeps_rules, verify_jid-Keeps, refuse-Keeps)

  verify-Keeps : (text : Bytes) → Keeps kept (verify env text)
  unfolding verify
  verify-Keeps text = text_cases-Keeps (new_packet env.json text)

  registered-Keeps :
      (jid : Bytes) (ct : ℕ)
      → Keeps kept (
          update_session env
            λ s. record s { status = record s.status { jid = jid; status = login; ct = ct } })
  registered-Keeps jid ct = Keeps-update _ λ s h. h

  log_in-Keeps : (envelope : Envelope) → Keeps kept (log_in env envelope)
  unfolding log_in
  log_in-Keeps envelope = search (keeps_rules, registered-Keeps, answer-Keeps) depth 12

  verified-Keeps :
      (verified : Option Packet)
      → Keeps kept {env = env}
          (elim verified [ none ↦ pure tt | some packet ↦ log_in env packet.envelope ])
  verified-Keeps none = Keeps-pure tt
  verified-Keeps (some packet) = log_in-Keeps packet.envelope

  pub open_session-Keeps : (text : Bytes) → Keeps kept (open_session env text)
  unfolding open_session
  open_session-Keeps text = Keeps-bind _ _ (verify-Keeps text) verified-Keeps
