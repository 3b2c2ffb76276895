-- ===== src/Session/Authentic/Quiet/Methods.antt =====
-- The login, the end of a session, and what is answered.
use sara.Common.{
  ℕ, refl, List, [], ◌∷◌, Option, none, some, if◌then◌else◌, Bytes, ◌==◌, Result, ok, err, ret,
  pure, ◌>>=◌, ◌>>◌, modify,
}
use sara.Jid.{Jid, new_jid, to_offline_key}
use sara.Packet.{Packet, BasePacket, Envelope, add_delay, new_packet, fail_packet, fail_type, kill}
use sara.Packet.MsgType
use sara.Cache
use sara.Session.State.{Env, SessionStatus, Status, conn, login, close, shared, tick, route}
use sara.Session.Actions.{
  send_message, answer, close_session, close_open_session, set_status, shut_connection,
  pkg_buff_del,
}
use sara.Session.Login.{
  kick, fetch_offline_packet, decode_offline, with_offline, store_session_status, verify,
  verify_jid, verify_auth, refuse, log_in, open_session,
}
use sara.Session.Handler.{heartbeat, server_ack, delete_acknowledged, set_session_timeout}
use sara.Session.Authentic.{
  Adds-none, Bare, Plain, Plain-bind, Plain-pure, Plain-modify, plain_rules, route-Adds,
}
use sara.Session.Authentic.Quiet.{
  Mute, Mute-bind, Mute-pure, Mute-shared, Mute-read, Mute-update, Mute-deref, mute_rules,
  clean-Plain, unregister-Plain, pkg_buff_to_store-Plain, delete_acknowledged-Plain,
}

module _ (env : Env) where
  -- A signal for another session.
  signal-Plain : (channel sid : Bytes) (signal : ℕ) → Plain (route env channel sid none signal)
  signal-Plain channel sid signal = record {
    at = λ s. route-Adds Bare channel sid none signal s refl;
  }

  kick_cases-Plain :
      (found : Result Bytes)
      → Plain {env = env} (elim found [
        | err e ↦ pure tt
        | ok text ↦ do
          let ss = env.unmarshal_status text
          route env ss.channel ss.sid none kill
          pure tt
      ])
  kick_cases-Plain (err e) = Plain-pure tt
  kick_cases-Plain (ok text) = search (plain_rules, signal-Plain)

  kick-Plain : (jid : Jid) → Plain (kick env jid)
  unfolding kick
  kick-Plain jid = search (plain_rules, kick_cases-Plain)

  offline_cases-Plain :
      (found : Result (List Bytes))
      → Plain {env = env}
          (elim found [ err e ↦ pure (err e) | ok texts ↦ pure (ok (decode_offline env texts)) ])
  offline_cases-Plain (err e) = Plain-pure _
  offline_cases-Plain (ok texts) = Plain-pure _

  fetch_offline_packet-Plain : (text : Bytes) → Plain (fetch_offline_packet env text)
  unfolding fetch_offline_packet
  fetch_offline_packet-Plain text = search (plain_rules, offline_cases-Plain)

  fetched_cases-Plain :
      (id : Bytes) (p : Packet) (fetched : Result (List BasePacket × List Bytes))
      → Plain {env = env} (elim fetched [
        | err e ↦ pure p
        | ok (pks, []) ↦ pure (add_delay pks p)
        | ok (pks, i ∷ ids) ↦ do
          modify λ s. record s { ofl_cache = Cache.put id (i ∷ ids) s.ofl_cache }
          pure (add_delay pks p)
      ])
  fetched_cases-Plain id p (err e) = Plain-pure _
  fetched_cases-Plain id p (ok (pks, [])) = Plain-pure _
  fetched_cases-Plain id p (ok (pks, i ∷ ids)) =
      Plain-bind _ _ (Plain-modify _ λ s. refl) λ _. Plain-pure _

  with_offline-Plain : (id jid_text : Bytes) → Plain (with_offline env id jid_text)
  unfolding with_offline
  with_offline-Plain id jid_text =
      Plain-bind _ _ (fetch_offline_packet-Plain jid_text)
        λ fetched. fetched_cases-Plain id _ fetched

  store_session_status-Plain : (status : SessionStatus) → Plain (store_session_status env status)
  unfolding store_session_status
  store_session_status-Plain status = search plain_rules

  pub answer-Mute : (p : Packet) → Mute (answer env p)
  unfolding answer send_message
  answer-Mute p = Mute-update _

  close_open_session-Mute : (status : SessionStatus) → Mute (close_open_session env status)
  unfolding close_open_session set_status shut_connection
  close_open_session-Mute status =
      search (mute_rules, plain_rules, clean-Plain, unregister-Plain, pkg_buff_to_store-Plain) depth
        12

  close_rest-Mute :
      (status : SessionStatus) (phase : Status)
      → Mute {env = env} (elim phase [ close ↦ pure tt | _ ↦ close_open_session env status ])
  close_rest-Mute status conn = close_open_session-Mute status
  close_rest-Mute status login = close_open_session-Mute status
  close_rest-Mute status close = Mute-pure tt

  pub close_session-Mute : Mute (close_session env)
  unfolding close_session
  close_session-Mute = Mute-bind _ _ (Mute-read _) λ status. close_rest-Mute status status.status

  pub heartbeat-Mute : Mute (heartbeat env)
  unfolding heartbeat send_message
  heartbeat-Mute = search mute_rules

  pub set_session_timeout-Mute : (sec : ℕ) → Mute (set_session_timeout env sec)
  unfolding set_session_timeout
  set_session_timeout-Mute sec = Mute-update _

  ack_cases-Mute :
      (packet : Packet) (jid : Jid) (cached : Result (List Bytes))
      → Mute {env = env} (elim cached [
        | ok ids ↦ shared env (delete_acknowledged env (to_offline_key jid) ids)
        | err e ↦ pkg_buff_del env packet.envelope.id
      ])
  ack_cases-Mute packet jid (ok ids) = Mute-shared _ (delete_acknowledged-Plain env _ ids)
  ack_cases-Mute packet jid (err e) = unfold pkg_buff_del in Mute-update _

  cached-Plain : (id : Bytes) → Plain {env = env} (λ s. (ret (Cache.get id s.ofl_cache), s))
  cached-Plain id = record { at = λ s. Adds-none Bare s.routed }

  pub server_ack-Mute : (packet : Packet) → Mute (server_ack env packet)
  unfolding server_ack
  server_ack-Mute packet = Mute-bind _ _ (Mute-read _) λ status. Mute-bind _ _ (Mute-deref _) λ jid.
      Mute-bind _ _ (Mute-shared _ (cached-Plain _)) λ cached. ack_cases-Mute packet jid cached

  refuse-Mute : (id reason : Bytes) → Mute (refuse env id reason)
  unfolding refuse
  refuse-Mute id reason = search (mute_rules, answer-Mute, close_session-Mute)

  verify_auth-Mute : (packet : Packet) (jid : Jid) → Mute (verify_auth env packet jid)
  unfolding verify_auth
  verify_auth-Mute packet jid = search (mute_rules, plain_rules, kick-Plain, refuse-Mute) depth 8

  jid_cases-Mute :
      (packet : Packet) (j : Result Jid)
      → Mute {env = env} (elim j [
        | err e ↦ refuse env packet.envelope.id fail_packet
        | ok jid ↦ verify_auth env packet jid
      ])
  jid_cases-Mute packet (err e) = refuse-Mute _ _
  jid_cases-Mute packet (ok jid) = verify_auth-Mute packet jid

  verify_jid-Mute : (packet : Packet) → Mute (verify_jid env packet)
  unfolding verify_jid
  verify_jid-Mute packet = jid_cases-Mute packet (new_jid packet.envelope.jid)

  text_cases-Mute :
      (r : Result Packet)
      → Mute {env = env} (elim r [
        | err e ↦ do id ← shared env (tick env); refuse env (env.uuid id) fail_packet
        | ok packet ↦
            if packet.envelope.msg_type == MsgType.open_session
            then verify_jid env packet
            else refuse env packet.envelope.id fail_type
      ])
  text_cases-Mute (err e) = search (mute_rules, plain_rules, refuse-Mute)
  text_cases-Mute (ok packet) = search (mute_rules, verify_jid-Mute, refuse-Mute)

  verify-Mute : (text : Bytes) → Mute (verify env text)
  unfolding verify
  verify-Mute text = text_cases-Mute (new_packet env.json text)

  log_in-Mute : (envelope : Envelope) → Mute (log_in env envelope)
  unfolding log_in
  log_in-Mute envelope =
      search (mute_rules, plain_rules, with_offline-Plain, store_session_status-Plain, answer-Mute)
        depth 14

  verified-Mute :
      (verified : Option Packet)
      → Mute {env = env}
          (elim verified [ none ↦ pure tt | some packet ↦ log_in env packet.envelope ])
  verified-Mute none = Mute-pure tt
  verified-Mute (some packet) = log_in-Mute packet.envelope

  pub open_session-Mute : (text : Bytes) → Mute (open_session env text)
  unfolding open_session
  open_session-Mute text = Mute-bind _ _ (verify-Mute text) verified-Mute
