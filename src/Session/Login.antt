-- ===== src/Session/Login.antt =====
-- core/session.go: `openSession` and `verify`, the first request of a session.
use sara.Common.{
  List, [], ◌∷◌, Option, none, some, if◌then◌else◌, Bytes, ◌==◌, negsuc, Result, ok, err, Exec,
  pure, ◌>>=◌, ◌>>◌, modify,
}
use sara.Jid.{Jid, new_jid, to_sessionid, to_offline_key}
use sara.Packet.{
  Packet, BasePacket, Envelope, add_delay, new_packet, new_base_packet, new_packet_auth_fail,
  new_packet_auth_success, fail_packet, fail_type, fail_token, kill,
}
use sara.Packet.MsgType
use sara.Cache
use sara.Session.State.{
  Env, Shared, World, SessionStatus, login, on_db, shared, tick, service, deref, read_session,
  update_session, route,
}
use sara.Session.Actions.{answer, close_session}

module _ (env : Env) where
  -- The loop of `fetchOfflinePacket`: entries that cannot be decoded are skipped.
  unfoldable pub decode_offline : List Bytes → List BasePacket × List Bytes
  decode_offline [] = ([], [])
  decode_offline (text ∷ texts) =
      let rest = decode_offline texts in
      elim (new_base_packet env.json text) [
        | ok pk ↦ (pk ∷ rest.0, pk.envelope.id ∷ rest.1)
        | err e ↦ rest
      ]

  unfoldable pub fetch_offline_packet :
      Bytes → Exec (Shared env) (Result (List BasePacket × List Bytes))
  fetch_offline_packet jid_text = do
    jid ← deref (new_jid jid_text)
    found ← on_db env (env.db.get_by_idx (to_offline_key jid))
    elim found [ err e ↦ pure (err e) | ok texts ↦ pure (ok (decode_offline texts)) ]

  -- `SessionStatus.ToJson`: a nil slice where the encoder fails.
  unfoldable pub status_text : SessionStatus → Bytes
  status_text status = elim (env.marshal_status status) [ ok text ↦ text | err e ↦ [] ]

  unfoldable pub store_session_status : SessionStatus → Exec (Shared env) (Unit {0})
  store_session_status status = do
    j ← deref (new_jid status.jid)
    on_db env
        (env.db.put_ex_with_idx status.nodeid (to_sessionid j) (status_text status) (negsuc 0))
    pure tt

  -- A refusal: the answer, then the end of the session.
  unfoldable pub refuse : Bytes → Bytes → Exec (World env) (Option Packet)
  refuse id reason = do answer env (new_packet_auth_fail id reason); close_session env; pure none

  -- A session that is registered under the same address is to be killed, by its node.
  unfoldable pub kick : Jid → Exec (Shared env) (Unit {0})
  kick jid = do
    found ← on_db env (env.db.get (to_sessionid jid))
    elim found [
      | err e ↦ pure tt
      | ok text ↦ do
        let ss = env.unmarshal_status text
        route env ss.channel ss.sid none kill
        pure tt
    ]

  unfoldable pub verify_auth : Packet → Jid → Exec (World env) (Option Packet)
  verify_auth packet jid = do
    shared env (kick jid)
    accepted ← shared env (service env (env.auth jid.user packet.envelope.pwd))
    if accepted then pure (some packet) else refuse packet.envelope.id fail_token

  unfoldable pub verify_jid : Packet → Exec (World env) (Option Packet)
  verify_jid packet = elim (new_jid packet.envelope.jid) [
    | err e ↦ refuse packet.envelope.id fail_packet
    | ok jid ↦ verify_auth packet jid
  ]

  -- `none` where the source returns `ok == false`.
  unfoldable pub verify : Bytes → Exec (World env) (Option Packet)
  verify p = elim (new_packet env.json p) [
    | err e ↦ do id ← shared env (tick env); refuse (env.uuid id) fail_packet
    | ok packet ↦
        if packet.envelope.msg_type == MsgType.open_session
        then verify_jid packet
        else refuse packet.envelope.id fail_type
  ]

  -- The answer to a login, with the offline messages; their ids wait in the cache for the
  -- acknowledgement.
  unfoldable pub with_offline : Bytes → Bytes → Exec (Shared env) Packet
  with_offline id jid_text = do
    let p = add_delay [] (new_packet_auth_success id)
    fetched ← fetch_offline_packet jid_text
    elim fetched [
      | err e ↦ pure p
      | ok (pks, []) ↦ pure (add_delay pks p)
      | ok (pks, i ∷ ids) ↦ do
        modify λ s. record s { ofl_cache = Cache.put id (i ∷ ids) s.ofl_cache }
        pure (add_delay pks p)
    ]

  unfoldable pub log_in : Envelope → Exec (World env) (Unit {0})
  log_in envelope = do
    now ← shared env (tick env)
    update_session env λ s. record s {
      status = record s.status { jid = envelope.jid; status = login; ct = env.timestamp10 now };
    }
    p ← shared env (with_offline envelope.id envelope.jid)
    status ← read_session env (λ s. s.status)
    shared env (store_session_status status)
    answer env p

  unfoldable pub open_session : Bytes → Exec (World env) (Unit {0})
  open_session p = do
    verified ← verify p
    elim verified [ none ↦ pure tt | some packet ↦ log_in packet.envelope ]
