-- ===== src/Session/Members.antt =====
-- The packets of a group chat: whom they go to, what they hold, and who may send them.
use sara.Common.{
  ◌+◌, ◌≡◌, ◌≢◌, refl, ap, ◌∙◌, Bool, true, false, List, [], ◌∷◌, ◌++◌, none, arith, if◌then◌else◌,
  Bytes, Lacks, All, AllPieces, bytes_eq, contains-append, split, ok, Outcome, ret, Exec, pure,
  fault, bind-ret, ◌>>=◌,
}
use sara.Jid.{Jid, new_jid, new_jid_by_uid_domain, string_without_resource}
use sara.Jid.Parse.{IsParsed, new_jid-IsParsed, new_jid-bare}
use sara.Packet.{Packet}
use sara.Packet.MsgType
use sara.Session.State.{Env, Shared, tick, deref}
use sara.Session.Group.{group_packet, packet_for, packets_for, gen_group_packets, permitted}

-- The addresses of the members but the sender, in order.
abbrev pub recipients : Jid → List Bytes → List Bytes
recipients j [] = []
recipients j (user ∷ users) =
    if bytes_eq j.user user
    then recipients j users
    else (user ++ b'@' ∷ j.domain) ∷ recipients j users

-- What a packet for a member has of the packet that was sent.
pub record IsCopy (packet p : Packet) : Type 0 where
  pub from : p.envelope.from ≡ packet.envelope.from
  pub gid : p.envelope.gid ≡ packet.envelope.gid
  pub payload : p.payload ≡ packet.payload
  pub msg_type : p.envelope.msg_type ≡ MsgType.group_chat
  pub entity : p.entity ≡ none
  pub delay : p.delay ≡ none
  pub vsn : p.vsn ≡ packet.vsn
  pub raw : p.raw ≡ none

abbrev pub destinations : List Packet → List Bytes
destinations [] = []
destinations (p ∷ ps) = p.envelope.to ∷ destinations ps

module _ (env : Env) where
  packet_for_lem :
      (packet : Packet) (j : Jid) (user : Bytes) (s : Shared env)
      → IsParsed j
      → Lacks b'@' user
      → packet_for env packet j user s ≡ (
        ret (
            group_packet packet
              (user ++ b'@' ∷ j.domain)
              (env.uuid s.calls)
              (env.timestamp13 (s.calls + 1))),
        record s { calls = s.calls + 1 + 1 },
      )
  packet_for_lem packet j user s v h =
      unfold packet_for ◌>>=◌ tick deref pure fault new_jid_by_uid_domain string_without_resource in
      ground (arith, new_jid-bare user j.domain h v.domain_at v.domain_slash)

  -- What a call returns: packets for the given addresses, each with what the one that was sent has.
  pub record Makes (packet : Packet) (to : List Bytes) (r : Outcome (List Packet) × Shared env)
      : Type 0 where
    pub packets : List Packet
    pub state : Shared env
    pub returned : r ≡ (ret packets, state)
    pub addressed : destinations packets ≡ to
    pub copies : All (IsCopy packet) packets

  -- One packet more, in front.
  prepend-Makes :
      (packet p : Packet) (m : Exec (Shared env) Packet) (rest : Exec (Shared env) (List Packet))
      (s s' : Shared env) (to : List Bytes)
      → m s ≡ (ret p, s')
      → IsCopy packet p
      → Makes packet to (rest s')
      → Makes packet (p.envelope.to ∷ to) ((do q ← m; qs ← rest; pure (q ∷ qs)) s)
  prepend-Makes packet p m rest s s' to e c r = record {
    packets = p ∷ r.packets;
    state = r.state;
    returned =
        bind-ret m (λ q. do qs ← rest; pure (q ∷ qs)) s s' p e
        ∙ bind-ret rest (λ qs. pure (p ∷ qs)) s' r.state r.packets r.returned
        ∙ (unfold pure in refl);
    addressed = ap (◌∷◌ p.envelope.to) r.addressed;
    copies = (c, r.copies);
  }

  group_packet-IsCopy :
      (packet : Packet) (to id ct : Bytes) → IsCopy packet (group_packet packet to id ct)
  unfolding group_packet
  group_packet-IsCopy packet to id ct = record {
    from = refl;
    gid = refl;
    payload = refl;
    msg_type = refl;
    entity = refl;
    delay = refl;
    vsn = refl;
    raw = refl;
  }

  group_packet-to :
      (packet : Packet) (to id ct : Bytes) → (group_packet packet to id ct).envelope.to ≡ to
  unfolding group_packet
  group_packet-to packet to id ct = refl

  packets_for-Makes :
      (packet : Packet) (j : Jid) (users : List Bytes) (s : Shared env)
      → IsParsed j
      → AllPieces (λ c. c ≢ b'@') users
      → Makes packet (recipients j users) (packets_for env packet j users s)
  unfolding packets_for
  packets_for-Makes packet j [] s v h = record {
    packets = [];
    state = s;
    returned = (unfold pure in refl);
    addressed = refl;
    copies = tt;
  }
  packets_for-Makes packet j (user ∷ users) s v (hu, h) =
      go (bytes_eq j.user user) (packets_for-Makes packet j users s v h)
        (packets_for-Makes packet j users (record s { calls = s.calls + 1 + 1 }) v h)
    where
      address : Bytes
      address = user ++ b'@' ∷ j.domain

      p : Packet
      p = group_packet packet address (env.uuid s.calls) (env.timestamp13 (s.calls + 1))

      go :
          (same : Bool)
          → Makes packet (recipients j users) (packets_for env packet j users s)
          → Makes packet
              (recipients j users)
              (packets_for env packet j users (record s { calls = s.calls + 1 + 1 }))
          → Makes packet (if same then recipients j users else address ∷ recipients j users) (
              (let step : Exec (Shared env) (List Packet) = elim same [
                | true ↦ packets_for env packet j users
                | false ↦ do
                  q ← packet_for env packet j user
                  qs ← packets_for env packet j users
                  pure (q ∷ qs)
              ] in
                  step)
                s)
      go true skipped taken = skipped
      go false skipped taken =
          rw (← group_packet-to packet address (env.uuid s.calls) (env.timestamp13 (s.calls + 1))) (
            prepend-Makes packet p (packet_for env packet j user) (packets_for env packet j users) s
              (record s { calls = s.calls + 1 + 1 }) (recipients j users)
              (packet_for_lem packet j user s v hu) (group_packet-IsCopy packet _ _ _) taken)

  -- Where the sender's address can be read and no member's name has an `@`, a packet goes to every
  -- member but the sender, in order, and to nobody else. Each is a group chat with the sender, the
  -- group, the payload and the version of the packet that was sent, without an entity, a delay or its
  -- raw content.
  pub gen_group_packets-Makes :
      (users : Bytes) (packet : Packet) (s : Shared env) (j : Jid)
      → new_jid packet.envelope.from ≡ ok j
      → AllPieces (λ c. c ≢ b'@') (split b',' users)
      → Makes packet (recipients j (split b',' users)) (gen_group_packets env users packet s)
  gen_group_packets-Makes users packet s j e h =
      unfold gen_group_packets ◌>>=◌ deref pure in
      rw e (
        packets_for-Makes packet j (split b',' users) s (new_jid-IsParsed packet.envelope.from j e)
          h)

  -- The check of the sender is a search in the text of the members: a sender whose name stands
  -- anywhere in that text, also as a part of a member's name, may send to the group, and the
  -- packets go to all members.
  pub permitted_by_part :
      (before after : Bytes) (packet : Packet) (s : Shared env) (j : Jid)
      → new_jid packet.envelope.from ≡ ok j
      → AllPieces (λ c. c ≢ b'@') (split b',' (before ++ (j.user ++ after)))
      → (packets : List Packet) × (s' : Shared env) × (permitted env j
            (before ++ (j.user ++ after))
            packet
            s
          ≡ (ret (ok packets), s'))
        × (destinations packets ≡ recipients j (split b',' (before ++ (j.user ++ after))))
  permitted_by_part before after packet s j e h =
      let users = before ++ (j.user ++ after) in
      let made = gen_group_packets-Makes users packet s j e h in
      (
        made.packets,
        made.state,
        unfold permitted in
            rw (contains-append before j.user after) (
              bind-ret (gen_group_packets env users packet) (λ packets. pure (ok packets)) s
                made.state made.packets made.returned
              ∙ (unfold pure in refl)),
        made.addressed,
      )
