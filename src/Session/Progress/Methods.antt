-- ===== src/Session/Progress/Methods.antt =====
-- The methods of Actions.antt, Login.antt and Handler.antt, one by one.
use sara.Common.{
  ℕ, refl, List, [], ◌∷◌, ◌++◌, Bytes, Result, ok, err, Exec, pure, for_each, ◌>>=◌, ◌>>◌,
}
use sara.Jid.{Jid, new_jid}
use sara.Packet.{Packet, new_packet_sys_notify, end_flag, to_json}
use sara.Session.State.{
  Env, World, SessionStatus, Status, conn, login, close, shared, read_session, update_session,
}
use sara.Session.Actions.{
  send_message, answer, close_session, close_open_session, set_status, shut_connection,
  pkg_buff_add, pkg_buff_del, pkg_buff_to_store, route_packet, route_logged_in, route_outgoing,
  route_to, equal_without_resource, kill_session,
}
use sara.Session.Handler.{set_session_timeout, heartbeat}
use sara.Session.Progress.{
  Follows-same, Follows-sent, Follows-closed, Advances, Advances-bind, Advances-read, Advances-pure,
  Advances-shared, Advances-update, advances_rules,
}

module _ (env : Env) where
  send_message-Advances : (text : Bytes) → Advances (send_message env text)
  unfolding send_message
  send_message-Advances text = Advances-update _ λ s. Follows-sent s (text ++ end_flag ∷ [])

  pub answer-Advances : (p : Packet) → Advances (answer env p)
  unfolding answer
  answer-Advances p = send_message-Advances (to_json env.json p)

  -- The end of `CloseSession`: the status, the connection, the buffer.
  close_end-Advances : Advances (do
    set_status env close
    shut_connection env
    buff ← read_session env (λ s. s.pkg_buff)
    shared env (pkg_buff_to_store env buff))
  close_end-Advances = record {
    at = λ w.
        unfold ◌>>=◌ set_status update_session shut_connection read_session shared in
        Follows-closed w.session;
  }

  close_open_session-Advances : (status : SessionStatus) → Advances (close_open_session env status)
  unfolding close_open_session
  close_open_session-Advances status = search (advances_rules, close_end-Advances)

  close_rest-Advances :
      (status : SessionStatus) (phase : Status)
      → Advances {env = env} (elim phase [ close ↦ pure tt | _ ↦ close_open_session env status ])
  close_rest-Advances status conn = close_open_session-Advances status
  close_rest-Advances status login = close_open_session-Advances status
  close_rest-Advances status close = Advances-pure tt

  pub close_session-Advances : Advances (close_session env)
  unfolding close_session
  close_session-Advances =
      Advances-bind _ _ (Advances-read _) λ status. close_rest-Advances status status.status

  pub kill_session-Advances : Advances (kill_session env)
  unfolding kill_session
  kill_session-Advances = search (advances_rules, send_message-Advances, close_session-Advances)

  pkg_buff_add-Advances : (p : Packet) → Advances (pkg_buff_add env p)
  unfolding pkg_buff_add
  pkg_buff_add-Advances p = Advances-update _ λ s. Follows-same s _ refl refl refl

  pub pkg_buff_del-Advances : (id : Bytes) → Advances (pkg_buff_del env id)
  unfolding pkg_buff_del
  pkg_buff_del-Advances p = Advances-update _ λ s. Follows-same s _ refl refl refl

  equal-Advances :
      (jid : Jid) (text : Bytes) → Advances {env = env} (equal_without_resource jid text)
  unfolding equal_without_resource
  equal-Advances jid text = search advances_rules

  route_cases-Advances :
      (p : Packet) (j : Result Jid)
      → Advances {env = env} (elim j [
        | err e ↦ answer env (new_packet_sys_notify p.envelope.id e)
        | ok to_jid ↦ shared env (route_to env p to_jid)
      ])
  route_cases-Advances p (err e) = answer-Advances _
  route_cases-Advances p (ok j) = Advances-shared (route_to env p j)

  pub route_outgoing-Advances : (p : Packet) → Advances (route_outgoing env p)
  unfolding route_outgoing
  route_outgoing-Advances p = route_cases-Advances p (new_jid p.envelope.to)

  route_logged_in-Advances :
      (p : Packet) (status : SessionStatus) → Advances (route_logged_in env p status)
  unfolding route_logged_in
  route_logged_in-Advances p status =
      search
        (
          advances_rules, equal-Advances, pkg_buff_add-Advances, send_message-Advances,
          route_outgoing-Advances,
        )
        depth 9

  pub route_packet-Advances : (p : Packet) → Advances (route_packet env p)
  unfolding route_packet
  route_packet-Advances p = search (advances_rules, route_logged_in-Advances)

  pub for_each-Advances :
      {A : Type 0} (body : A → Exec (World env) (Unit {0})) (xs : List A)
      → ((x : A) → Advances (body x))
      → Advances (for_each body xs)
  unfolding for_each
  for_each-Advances body [] h = Advances-pure tt
  for_each-Advances body (x ∷ xs) h = Advances-bind _ _ (h x) λ _. for_each-Advances body xs h

  pub set_session_timeout-Advances : (sec : ℕ) → Advances (set_session_timeout env sec)
  unfolding set_session_timeout
  set_session_timeout-Advances sec = Advances-update _ λ s. Follows-same s _ refl refl refl

  pub heartbeat-Advances : Advances (heartbeat env)
  unfolding heartbeat
  heartbeat-Advances = search (advances_rules, send_message-Advances)
