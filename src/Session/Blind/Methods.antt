-- ===== src/Session/Blind/Methods.antt =====
-- The methods of Actions.antt and Login.antt.
use sara.Common.{
  ℕ, ◌≡◌, refl, Bool, true, false, [], ◌∷◌, ◌++◌, Option, none, some, if◌then◌else◌, Bytes, ◌==◌,
  Result, ok, err, pure, ◌>>=◌,
}
use sara.Jid.{Jid, new_jid}
use sara.Packet.{
  Packet, Envelope, new_packet, new_packet_sys_notify, fail_packet, fail_type, end_flag, to_json,
}
use sara.Packet.MsgType
use sara.Session.State.{
  Env, Session, SessionStatus, Status, conn, login, close, shared, read_session, update_session,
  tick,
}
use sara.Session.Actions.{
  send_message, answer, close_session, close_open_session, set_status, shut_connection,
  pkg_buff_add, pkg_buff_del, route_packet, route_logged_in, route_outgoing, route_to,
  equal_without_resource,
}
use sara.Session.Login.{verify, verify_jid, verify_auth, refuse, log_in, open_session}
use sara.Session.Handler.{heartbeat}
use sara.Session.Blind.{
  Blind, Blind-bind, Blind-read, Blind-pure, Blind-shared, Blind-update, blind_rules,
}

module _ (env : Env) where
  send_message-Blind : (text : Bytes) → Blind (send_message env text)
  unfolding send_message
  send_message-Blind text = Blind-update _ λ sec s. go s.closed s sec
    where
      go :
          (b : Bool) (s : Session) (sec : ℕ)
          → (let t = record s { read_timeout = sec } in
              if b then t else record t { sent = t.sent ++ (text ++ end_flag ∷ []) ∷ [] })
            ≡ record (if b then s else record s { sent = s.sent ++ (text ++ end_flag ∷ []) ∷ [] }) {
              read_timeout = sec;
            }
      go true s sec = refl
      go false s sec = refl

  pub answer-Blind : (p : Packet) → Blind (answer env p)
  unfolding answer
  answer-Blind p = send_message-Blind (to_json env.json p)

  pub status-Blind : Blind (read_session env (λ s. s.status))
  status-Blind = Blind-read _ λ sec s. refl

  buffer-Blind : Blind (read_session env (λ s. s.pkg_buff))
  buffer-Blind = Blind-read _ λ sec s. refl

  set_status-Blind : (status : Status) → Blind (set_status env status)
  unfolding set_status
  set_status-Blind status = Blind-update _ λ sec s. refl

  shut_connection-Blind : Blind (shut_connection env)
  unfolding shut_connection
  shut_connection-Blind = Blind-update _ λ sec s. refl

  close_open_session-Blind : (status : SessionStatus) → Blind (close_open_session env status)
  unfolding close_open_session
  close_open_session-Blind status =
      search (blind_rules, set_status-Blind, shut_connection-Blind, buffer-Blind) depth 12

  close_rest-Blind :
      (status : SessionStatus) (phase : Status)
      → Blind {env = env} (elim phase [ close ↦ pure tt | _ ↦ close_open_session env status ])
  close_rest-Blind status conn = close_open_session-Blind status
  close_rest-Blind status login = close_open_session-Blind status
  close_rest-Blind status close = Blind-pure tt

  pub close_session-Blind : Blind (close_session env)
  unfolding close_session
  close_session-Blind = Blind-bind _ _ status-Blind λ status. close_rest-Blind status status.status

  pkg_buff_add-Blind : (p : Packet) → Blind (pkg_buff_add env p)
  unfolding pkg_buff_add
  pkg_buff_add-Blind p = Blind-update _ λ sec s. refl

  pub pkg_buff_del-Blind : (id : Bytes) → Blind (pkg_buff_del env id)
  unfolding pkg_buff_del
  pkg_buff_del-Blind p = Blind-update _ λ sec s. refl

  equal-Blind : (jid : Jid) (text : Bytes) → Blind {env = env} (equal_without_resource jid text)
  unfolding equal_without_resource
  equal-Blind jid text = search blind_rules

  route_cases-Blind :
      (p : Packet) (j : Result Jid)
      → Blind {env = env} (elim j [
        | err e ↦ answer env (new_packet_sys_notify p.envelope.id e)
        | ok to_jid ↦ shared env (route_to env p to_jid)
      ])
  route_cases-Blind p (err e) = answer-Blind _
  route_cases-Blind p (ok j) = Blind-shared (route_to env p j)

  route_outgoing-Blind : (p : Packet) → Blind (route_outgoing env p)
  unfolding route_outgoing
  route_outgoing-Blind p = route_cases-Blind p (new_jid p.envelope.to)

  route_logged_in-Blind :
      (p : Packet) (status : SessionStatus) → Blind (route_logged_in env p status)
  unfolding route_logged_in
  route_logged_in-Blind p status =
      search
        (blind_rules, equal-Blind, pkg_buff_add-Blind, send_message-Blind, route_outgoing-Blind)
        depth 9

  pub route_packet-Blind : (p : Packet) → Blind (route_packet env p)
  unfolding route_packet
  route_packet-Blind p = search (blind_rules, status-Blind, route_logged_in-Blind)

  pub heartbeat-Blind : Blind (heartbeat env)
  unfolding heartbeat
  heartbeat-Blind = search (blind_rules, status-Blind, send_message-Blind)

  refuse-Blind : (id reason : Bytes) → Blind (refuse env id reason)
  unfolding refuse
  refuse-Blind id reason = search (blind_rules, answer-Blind, close_session-Blind)

  verify_auth-Blind : (packet : Packet) (jid : Jid) → Blind (verify_auth env packet jid)
  unfolding verify_auth
  verify_auth-Blind packet jid = search (blind_rules, refuse-Blind)

  jid_cases-Blind :
      (packet : Packet) (j : Result Jid)
      → Blind {env = env} (elim j [
        | err e ↦ refuse env packet.envelope.id fail_packet
        | ok jid ↦ verify_auth env packet jid
      ])
  jid_cases-Blind packet (err e) = refuse-Blind _ _
  jid_cases-Blind packet (ok jid) = verify_auth-Blind packet jid

  verify_jid-Blind : (packet : Packet) → Blind (verify_jid env packet)
  unfolding verify_jid
  verify_jid-Blind packet = jid_cases-Blind packet (new_jid packet.envelope.jid)

  text_cases-Blind :
      (r : Result Packet)
      → Blind {env = env} (elim r [
        | err e ↦ do id ← shared env (tick env); refuse env (env.uuid id) fail_packet
        | ok packet ↦
            if packet.envelope.msg_type == MsgType.open_session
            then verify_jid env packet
            else refuse env packet.envelope.id fail_type
      ])
  text_cases-Blind (err e) = search (blind_rules, refuse-Blind)
  text_cases-Blind (ok packet) = search (blind_rules, verify_jid-Blind, refuse-Blind)

  verify-Blind : (text : Bytes) → Blind (verify env text)
  unfolding verify
  verify-Blind text = text_cases-Blind (new_packet env.json text)

  registered-Blind :
      (jid : Bytes) (ct : ℕ)
      → Blind (
          update_session env
            λ s. record s { status = record s.status { jid = jid; status = login; ct = ct } })
  registered-Blind jid ct = Blind-update _ λ sec s. refl

  log_in-Blind : (envelope : Envelope) → Blind (log_in env envelope)
  unfolding log_in
  log_in-Blind envelope =
      search (blind_rules, registered-Blind, status-Blind, answer-Blind) depth 12

  verified-Blind :
      (verified : Option Packet)
      → Blind {env = env}
          (elim verified [ none ↦ pure tt | some packet ↦ log_in env packet.envelope ])
  verified-Blind none = Blind-pure tt
  verified-Blind (some packet) = log_in-Blind packet.envelope

  pub open_session-Blind : (text : Bytes) → Blind (open_session env text)
  unfolding open_session
  open_session-Blind text = Blind-bind _ _ (verify-Blind text) verified-Blind
