-- ===== src/Session/Group.antt =====
-- core/session.go, `GenerateGroupPackets` and `genGroupPackets`: the packets of a group chat, one
-- for each member but the sender. The members are a text with commas.
use sara.Common.{
  true, false, List, [], ◌∷◌, ◌++◌, none, if◌then◌else◌, ltb, length, Bytes, codes, bytes_eq,
  contains, split, join, pos, Result, ok, err, Exec, pure, ◌>>=◌, ◌>>◌,
}
use sara.Jid.{Jid, new_jid, new_jid_by_uid_domain, string_without_resource}
use sara.Packet.{Packet, empty_envelope}
use sara.Packet.MsgType
use sara.Session.State.{Env, Shared, on_db, tick, service, deref}

-- The packet for one member; `id` and `ct` are made anew.
unfoldable pub group_packet : Packet → Bytes → Bytes → Bytes → Packet
group_packet packet to id ct = record {
  base = record {
    envelope = record empty_envelope {
      id = id;
      msg_type = MsgType.group_chat;
      from = packet.envelope.from;
      to = to;
      gid = packet.envelope.gid;
      ct = ct;
    };
    payload = packet.payload;
    entity = none;
    vsn = packet.vsn;
  };
  delay = none;
  raw = none;
}

unfoldable pub group_users_key : Bytes → Bytes → Bytes
group_users_key gid domain = codes "group_" ++ gid ++ b'@' ∷ domain

module _ (env : Env) where
  -- One round of the loop over the members.
  unfoldable pub packet_for : Packet → Jid → Bytes → Exec (Shared env) Packet
  packet_for packet from_jid to_user = do
    to_jid ← deref (new_jid_by_uid_domain to_user from_jid.domain)
    id ← tick env
    ct ← tick env
    pure (group_packet packet (string_without_resource to_jid) (env.uuid id) (env.timestamp13 ct))

  unfoldable pub packets_for : Packet → Jid → List Bytes → Exec (Shared env) (List Packet)
  packets_for packet from_jid [] = pure []
  packets_for packet from_jid (to_user ∷ users) = elim (bytes_eq from_jid.user to_user) [
    | true ↦ packets_for packet from_jid users
    | false ↦ do
      p ← packet_for packet from_jid to_user
      ps ← packets_for packet from_jid users
      pure (p ∷ ps)
  ]

  unfoldable pub gen_group_packets : Bytes → Packet → Exec (Shared env) (List Packet)
  gen_group_packets users packet = do
    from_jid ← deref (new_jid packet.envelope.from)
    packets_for packet from_jid (split b',' users)

  -- The function `fn` of the source: the sender is to be a member.
  unfoldable pub permitted : Jid → Bytes → Packet → Exec (Shared env) (Result (List Packet))
  permitted from_jid users packet =
      if contains users from_jid.user
      then (do packets ← gen_group_packets users packet; pure (ok packets))
      else pure (err (codes "no_permission"))

  -- The members that the callback service names, kept for an hour if they are two at least.
  unfoldable pub ask_service : Jid → Bytes → Packet → Exec (Shared env) (Result (List Packet))
  ask_service from_jid key packet = do
    answer ← service env (env.group_user_list packet.envelope.gid)
    elim answer [
      | err e ↦ pure (err (codes "group_notfound"))
      | ok ulist ↦
          if ltb 1 (length ulist)
          then (do
            on_db env (env.db.put_ex key (join b',' ulist) (pos 3600))
            permitted from_jid (join b',' ulist) packet)
          else pure (err (codes "group_notfound"))
    ]

  unfoldable pub generate_group_packets : Packet → Exec (Shared env) (Result (List Packet))
  generate_group_packets packet = do
    from_jid ← deref (new_jid packet.envelope.from)
    let key = group_users_key packet.envelope.gid from_jid.domain
    found ← on_db env (env.db.get key)
    elim found [
      | ok users ↦ permitted from_jid users packet
      | err e ↦ ask_service from_jid key packet
    ]
