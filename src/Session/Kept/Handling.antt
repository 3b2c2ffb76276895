-- ===== src/Session/Kept/Handling.antt =====
-- The handling of what is received: a packet waits in the buffer as it is until its client sends one with
-- its id.
use sara.Common.{
  ℕ, ◌≡◌, Bool, true, false, List, [], ◌∷◌, Option, none, some, if◌then◌else◌, Bytes, bytes_eq,
  lookup-delete, Result, ok, err, Outcome, ret, panic, for_each, ◌>>=◌, ◌>>◌, All,
}
use sara.Jid.{Jid, to_offline_key}
use sara.Packet.{Packet, new_packet, new_packet_ack, new_packet_sys_notify, heart_beat}
use sara.Conn.{ReadPacketResult}
use sara.Session.Payload.{Each, generate_group_packets-Each}
use sara.Session.Group.{group_packet}
use sara.Session.State.{
  Env, World, Status, conn, login, close, shared, tick, packet_handler_timeout,
}
use sara.Session.Actions.{answer, close_session, route_packet_list, pkg_buff_del}
use sara.Session.Login.{open_session}
use sara.Session.Handler.{
  heartbeat, server_ack, handle_group, handle_chat, dispatch, handle_message, handle_packet,
  handle_result, packet_handler, set_session_timeout, stamp, delete_acknowledged,
}
use sara.Session.Kept.{
  Waits, IsOther, Keeps, Keeps-ensured, Keeps-bind, Keeps-shared, Keeps-read, Keeps-update,
  Keeps-if, Keeps-pure, Keeps-deref, keeps_rules,
}
use sara.Session.Kept.Methods.{
  answer-Keeps, close_session-Keeps, route_packet-Keeps, route_packet_list-Keeps, heartbeat-Keeps,
  open_session-Keeps, set_session_timeout-Keeps,
}

-- The text is a packet with this id, and no heartbeat.
abbrev pub has_id : Env → Bytes → Bytes → Bool
has_id env id text =
    if bytes_eq text (heart_beat ∷ [])
    then false
    else elim (new_packet env.json text) [ ok p ↦ bytes_eq p.envelope.id id | err e ↦ false ]

abbrev pub NoneHasId : Packet → Env → List Bytes → Type 0
NoneHasId kept env = All (λ text. has_id env kept.envelope.id text ≡ false)

module _ (kept : Packet) (env : Env)
    (fresh : (n : ℕ) → bytes_eq (env.uuid n) kept.envelope.id ≡ false) where
  pkg_buff_del-Keeps :
      (i : Bytes)
      → bytes_eq i kept.envelope.id ≡ false
      → Keeps kept {env = env} (pkg_buff_del env i)
  unfolding pkg_buff_del
  pkg_buff_del-Keeps i n =
      Keeps-update _ λ s h. rw (lookup-delete i kept.envelope.id s.pkg_buff, n) h

  ack_cases-Keeps :
      (packet : Packet) (jid : Jid) (cached : Result (List Bytes))
      → IsOther kept packet
      → Keeps kept {env = env} (elim cached [
        | ok ids ↦ shared env (delete_acknowledged env (to_offline_key jid) ids)
        | err e ↦ pkg_buff_del env packet.envelope.id
      ])
  ack_cases-Keeps packet jid (ok ids) n = Keeps-shared _
  ack_cases-Keeps packet jid (err e) n = pkg_buff_del-Keeps _ n

  server_ack-Keeps : (packet : Packet) → IsOther kept packet → Keeps kept (server_ack env packet)
  unfolding server_ack
  server_ack-Keeps packet n = Keeps-bind _ _ (Keeps-read _) λ status.
      Keeps-bind _ _ (Keeps-deref _)
        λ jid. Keeps-bind _ _ (Keeps-shared _) λ cached. ack_cases-Keeps packet jid cached n

  group_cases-Keeps :
      (packet : Packet) (generated : Result (List Packet))
      → Each (IsOther kept) generated
      → Keeps kept {env = env} (elim generated [
        | err e ↦ answer env (new_packet_sys_notify packet.envelope.id e)
        | ok packets ↦ do
          now ← shared env (tick env)
          answer env (new_packet_ack packet.envelope.id (env.timestamp13 now))
          route_packet_list env packets
      ])
  group_cases-Keeps packet (err e) others = answer-Keeps kept env _
  group_cases-Keeps packet (ok packets) others =
      search (keeps_rules, answer-Keeps, route_packet_list-Keeps)

  handle_group-Keeps : (packet : Packet) → Keeps kept (handle_group env packet)
  unfolding handle_group
  handle_group-Keeps packet =
      Keeps-ensured (Each (IsOther kept)) _ _
        (generate_group_packets-Each env packet (IsOther kept)
          (λ to ct n. unfold group_packet in fresh n))
        (group_cases-Keeps packet)

  handle_chat-Keeps : (packet : Packet) → IsOther kept packet → Keeps kept (handle_chat env packet)
  unfolding handle_chat
  handle_chat-Keeps packet other = search (keeps_rules, answer-Keeps, route_packet-Keeps) depth 8

  dispatch-Keeps : (packet : Packet) → IsOther kept packet → Keeps kept (dispatch env packet)
  unfolding dispatch
  dispatch-Keeps packet other =
      Keeps-if _ _ _ (server_ack-Keeps packet other)
        (Keeps-if _ _ _ (handle_group-Keeps packet) (handle_chat-Keeps packet other))

  stamp-IsOther :
      (ct : Bytes) (packet : Packet) → IsOther kept packet → IsOther kept (stamp ct packet)
  unfolding stamp
  stamp-IsOther ct packet other = other

  message_cases-Keeps :
      (r : Result Packet)
      → (let a : Bool = elim r [ ok p ↦ bytes_eq p.envelope.id kept.envelope.id | err e ↦ false ] in
          a ≡ false)
      → Keeps kept {env = env} (elim r [
        | ok packet ↦ do
          now ← shared env (tick env)
          dispatch env (stamp (env.timestamp13 now) packet)
        | err e ↦ do
          i ← shared env (tick env)
          answer env (new_packet_sys_notify (env.uuid i) e)
          close_session env
      ])
  message_cases-Keeps (ok packet) n = Keeps-bind _ _ (Keeps-shared _) λ now.
      dispatch-Keeps (stamp (env.timestamp13 now) packet)
        (stamp-IsOther (env.timestamp13 now) packet n)
  message_cases-Keeps (err e) n = search (keeps_rules, answer-Keeps, close_session-Keeps)

  logged_in-Keeps :
      (text : Bytes)
      → has_id env kept.envelope.id text ≡ false
      → Keeps kept
          (if bytes_eq text (heart_beat ∷ []) then heartbeat env else handle_message env text)
  unfolding handle_message
  logged_in-Keeps text n = go (bytes_eq text (heart_beat ∷ [])) n
    where
      go :
          (b : Bool)
          → (if b then false else elim (new_packet env.json text) as (λ _. Bool) [
            | ok p ↦ bytes_eq p.envelope.id kept.envelope.id
            | err e ↦ false
          ])
            ≡ false
          → Keeps kept (if b then heartbeat env else handle_message env text)
      go true n = heartbeat-Keeps kept env
      go false n = message_cases-Keeps (new_packet env.json text) n

  phase_cases-Keeps :
      (text : Bytes) (phase : Status)
      → has_id env kept.envelope.id text ≡ false
      → Keeps kept {env = env} (elim phase [
        | conn ↦ open_session env text
        | _ ↦ if bytes_eq text (heart_beat ∷ []) then heartbeat env else handle_message env text
      ])
  phase_cases-Keeps text conn n = open_session-Keeps kept env text
  phase_cases-Keeps text login n = logged_in-Keeps text n
  phase_cases-Keeps text close n = logged_in-Keeps text n

  handle_packet-Keeps :
      (text : Bytes)
      → has_id env kept.envelope.id text ≡ false
      → Keeps kept (handle_packet env text)
  unfolding handle_packet
  handle_packet-Keeps text n =
      Keeps-bind _ _ (Keeps-read _) λ status. phase_cases-Keeps text status.status n

  handle_packets-Keeps :
      (texts : List Bytes)
      → NoneHasId kept env texts
      → Keeps kept (for_each (handle_packet env) texts)
  unfolding for_each
  handle_packets-Keeps [] n = Keeps-pure tt
  handle_packets-Keeps (text ∷ texts) (n, ns) =
      Keeps-bind _ _ (handle_packet-Keeps text n) λ _. handle_packets-Keeps texts ns

  error_cases-Keeps :
      (e : Option Bytes) (texts : List Bytes)
      → NoneHasId kept env texts
      → Keeps kept {env = env}
          (elim e [ some x ↦ close_session env | none ↦ for_each (handle_packet env) texts ])
  error_cases-Keeps (some x) texts n = close_session-Keeps kept env
  error_cases-Keeps none texts n = handle_packets-Keeps texts n

  handle_result-Keeps :
      (r : ReadPacketResult) → NoneHasId kept env r.packets → Keeps kept (handle_result env r)
  unfolding handle_result
  handle_result-Keeps r n = error_cases-Keeps r.error r.packets n

  -- What is done behind the handling.
  deferred-Keeps :
      (o : Outcome (Unit {0})) (v : World env)
      → Waits kept v.session.pkg_buff
      → (let last : Outcome (Unit {0}) × World env = elim o [
        | ret _ ↦ set_session_timeout env 0 v
        | panic ↦ (ret tt, v)
      ] in
          Waits kept last.1.session.pkg_buff)
  deferred-Keeps (ret tt) v h = (set_session_timeout-Keeps kept env 0).at v h
  deferred-Keeps panic v h = h

  pub packet_handler-Keeps :
      (r : ReadPacketResult) → NoneHasId kept env r.packets → Keeps kept (packet_handler env r)
  unfolding packet_handler
  packet_handler-Keeps r n = record {
    at = λ w h. deferred-Keeps _ _ (
        (handle_result-Keeps r n).at _
          ((set_session_timeout-Keeps kept env packet_handler_timeout).at w h));
  }
