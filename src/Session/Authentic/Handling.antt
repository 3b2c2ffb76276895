-- ===== src/Session/Authentic/Handling.antt =====
-- The handling of what is received.
use sara.Common.{
  ℕ, Bool, true, false, List, [], ◌∷◌, Option, none, some, if◌then◌else◌, ◌==◌, Bytes, bytes_eq,
  Result, ok, err, Outcome, ret, panic, Exec, pure, for_each, ◌>>=◌, ◌>>◌,
}
use sara.Packet.{Packet, new_packet, new_packet_ack, new_packet_sys_notify, heart_beat}
use sara.Conn.{ReadPacketResult}
use sara.Session.State.{
  Env, World, RouterItem, Status, conn, login, close, shared, tick, read_session,
  packet_handler_timeout,
}
use sara.Session.Actions.{answer, close_session, route_packet, route_packet_list}
use sara.Session.Login.{open_session}
use sara.Session.Handler.{
  heartbeat, handle_group, handle_chat, dispatch, handle_message, handle_packet, handle_result,
  packet_handler, set_session_timeout, stamp,
}
use sara.Session.Progress.{Advances, Advances-bind}
use sara.Session.Progress.Methods.{
  route_packet-Advances, for_each-Advances, answer-Advances, set_session_timeout-Advances,
}
use sara.Session.Progress.Handling.{
  route_packet_list-Advances, group_cases-Advances, dispatch-Advances, handle_packet-Advances,
  handle_result-Advances,
}
use sara.Session.Authentic.{Adds, Adds-trans, Adds-map, Own, Own-Follows, Plain-tick}
use sara.Session.Authentic.Quiet.{
  Mute, Mute-bind, Mute-pure, Mute-shared, generate_group_packets-Plain,
}
use sara.Session.Authentic.Quiet.Methods.{
  answer-Mute, close_session-Mute, heartbeat-Mute, server_ack-Mute, open_session-Mute,
  set_session_timeout-Mute,
}
use sara.Session.Authentic.Routing.{Honest, Honest-Mute, Honest-bind, route_packet-Honest}

module _ (env : Env) where
  Honest-if :
      {A : Type 0} (b : Bool) (x y : Exec (World env) A)
      → Honest x
      → Honest y
      → Honest (if b then x else y)
  Honest-if true x y hx hy = hx
  Honest-if false x y hx hy = hy

  for_each-Honest :
      {A : Type 0} (body : A → Exec (World env) (Unit {0})) (xs : List A)
      → ((x : A) → Honest (body x))
      → ((x : A) → Advances (body x))
      → Honest (for_each body xs)
  unfolding for_each
  for_each-Honest body [] h g = Honest-Mute _ (Mute-pure tt)
  for_each-Honest body (x ∷ xs) h g =
      Honest-bind _ _ (h x) (λ _. for_each-Honest body xs h g) λ _. for_each-Advances env body xs g

  route_packet_list-Honest : (packets : List Packet) → Honest (route_packet_list env packets)
  unfolding route_packet_list
  route_packet_list-Honest packets =
      for_each-Honest (route_packet env) packets (route_packet-Honest env)
        (route_packet-Advances env)

  tick-Honest : Honest (shared env (tick env))
  tick-Honest = Honest-Mute _ (Mute-shared _ Plain-tick)

  answer-Honest : (p : Packet) → Honest (answer env p)
  answer-Honest p = Honest-Mute _ (answer-Mute env p)

  group_cases-Honest :
      (packet : Packet) (generated : Result (List Packet))
      → Honest {env = env} (elim generated [
        | err e ↦ answer env (new_packet_sys_notify packet.envelope.id e)
        | ok packets ↦ do
          now ← shared env (tick env)
          answer env (new_packet_ack packet.envelope.id (env.timestamp13 now))
          route_packet_list env packets
      ])
  group_cases-Honest packet (err e) = answer-Honest _
  group_cases-Honest packet (ok packets) =
      Honest-bind _ _ tick-Honest
        (λ now.
          Honest-bind _ _ (answer-Honest _) (λ _. route_packet_list-Honest packets)
            λ _. route_packet_list-Advances env packets)
        λ now. Advances-bind _ _ (answer-Advances env _) λ _. route_packet_list-Advances env packets

  handle_group-Honest : (packet : Packet) → Honest (handle_group env packet)
  unfolding handle_group
  handle_group-Honest packet =
      Honest-bind _ _ (Honest-Mute _ (Mute-shared _ (generate_group_packets-Plain env packet)))
        (group_cases-Honest packet) (group_cases-Advances env packet)

  ack_if-Mute :
      (b : Bool) (packet : Packet)
      → Mute {env = env} (
          if b then pure tt else do
            now ← shared env (tick env)
            answer env (new_packet_ack packet.envelope.id (env.timestamp13 now)))
  ack_if-Mute true packet = Mute-pure tt
  ack_if-Mute false packet = Mute-bind _ _ (Mute-shared _ Plain-tick) λ now. answer-Mute env _

  handle_chat-Honest : (packet : Packet) → Honest (handle_chat env packet)
  unfolding handle_chat
  handle_chat-Honest packet =
      Honest-bind _ _ (Honest-Mute _ (ack_if-Mute (packet.envelope.ack == 0) packet))
        (λ _. route_packet-Honest env packet) λ _. route_packet-Advances env packet

  dispatch-Honest : (packet : Packet) → Honest (dispatch env packet)
  unfolding dispatch
  dispatch-Honest packet =
      Honest-if _ _ _ (Honest-Mute _ (server_ack-Mute env packet))
        (Honest-if _ _ _ (handle_group-Honest packet) (handle_chat-Honest packet))

  message_cases-Honest :
      (r : Result Packet)
      → Honest {env = env} (elim r [
        | ok packet ↦ do
          now ← shared env (tick env)
          dispatch env (stamp (env.timestamp13 now) packet)
        | err e ↦ do
          id ← shared env (tick env)
          answer env (new_packet_sys_notify (env.uuid id) e)
          close_session env
      ])
  message_cases-Honest (ok packet) =
      Honest-bind _ _ tick-Honest (λ now. dispatch-Honest _) λ now. dispatch-Advances env _
  message_cases-Honest (err e) = Honest-Mute _ (
      Mute-bind _ _ (Mute-shared _ Plain-tick)
        λ id. Mute-bind _ _ (answer-Mute env _) λ _. close_session-Mute env)

  handle_message-Honest : (text : Bytes) → Honest (handle_message env text)
  unfolding handle_message
  handle_message-Honest text = message_cases-Honest (new_packet env.json text)

  logged_in-Honest :
      (text : Bytes)
      → Honest (if bytes_eq text (heart_beat ∷ []) then heartbeat env else handle_message env text)
  logged_in-Honest text =
      Honest-if _ _ _ (Honest-Mute _ (heartbeat-Mute env)) (handle_message-Honest text)

  packet_cases-Adds :
      (text : Bytes) (w : World env) (phase : Status)
      → (let step : Exec (World env) (Unit {0}) = elim phase [
        | conn ↦ open_session env text
        | _ ↦ if bytes_eq text (heart_beat ∷ []) then heartbeat env else handle_message env text
      ] in
          Adds (Own (step w).1.session) w.shared.routed (step w).1.shared.routed)
  packet_cases-Adds text w conn = (Honest-Mute _ (open_session-Mute env text)).at w
  packet_cases-Adds text w login = (logged_in-Honest text).at w
  packet_cases-Adds text w close = (logged_in-Honest text).at w

  handle_packet-Honest : (text : Bytes) → Honest (handle_packet env text)
  unfolding handle_packet ◌>>=◌ read_session
  handle_packet-Honest text = record { at = λ w. packet_cases-Adds text w w.session.status.status }

  result_cases-Honest :
      (error : Option Bytes) (packets : List Bytes)
      → Honest {env = env}
          (elim error [ some e ↦ close_session env | none ↦ for_each (handle_packet env) packets ])
  result_cases-Honest (some e) packets = Honest-Mute _ (close_session-Mute env)
  result_cases-Honest none packets =
      for_each-Honest (handle_packet env) packets handle_packet-Honest (handle_packet-Advances env)

  handle_result-Honest : (r : ReadPacketResult) → Honest (handle_result env r)
  unfolding handle_result
  handle_result-Honest r = result_cases-Honest r.error r.packets

  timeout-Honest : (sec : ℕ) → Honest (set_session_timeout env sec)
  timeout-Honest sec = Honest-Mute _ (set_session_timeout-Mute env sec)

  end-Adds :
      (q : List RouterItem) (o : Outcome (Unit {0})) (v : World env)
      → Adds (Own v.session) q v.shared.routed
      → (let last : Outcome (Unit {0}) × World env = elim o [
        | ret _ ↦ set_session_timeout env 0 v
        | panic ↦ (ret tt, v)
      ] in
          Adds (Own last.1.session) q last.1.shared.routed)
  end-Adds q (ret x) v h =
      let t = (set_session_timeout env 0 v).1.session in
      Adds-trans (Own t)
        (Adds-map (Own-Follows v.session t ((set_session_timeout-Advances env 0).at v)) h)
        ((timeout-Honest 0).at v)
  end-Adds q panic v h = h

  -- No client sends in the name of another: whatever it sends and whatever the services and the
  -- database do, what a call of the handler, panics included, puts onto the queue of the router is
  -- signals, and packets whose sender is the address that the session is then registered under, with
  -- any resource.
  pub packet_handler-Own :
      (r : ReadPacketResult) (w : World env)
      → Adds
          (Own (packet_handler env r w).1.session)
          w.shared.routed
          (packet_handler env r w).1.shared.routed
  unfolding packet_handler
  packet_handler-Own r w =
      let begun = set_session_timeout env packet_handler_timeout w in
      let done = handle_result env r begun.1 in
      end-Adds w.shared.routed done.0 done.1 (
        Adds-trans (Own done.1.session)
          (Adds-map
            (Own-Follows begun.1.session done.1.session ((handle_result-Advances env r).at begun.1))
            ((timeout-Honest packet_handler_timeout).at w))
          ((handle_result-Honest r).at begun.1))
