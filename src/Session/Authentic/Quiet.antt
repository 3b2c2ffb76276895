-- ===== src/Session/Authentic/Quiet.antt =====
-- The steps that put no packet onto the queue of the router: all but `RoutePacket`.
pub mod Methods
use sara.Common.{
  ◌≡◌, refl, Bool, true, false, List, [], ◌∷◌, Option, none, some, if◌then◌else◌, Bytes, bytes_eq,
  split, join, codes, ltb, length, contains, pos, Result, ok, err, Outcome, ret, panic, Exec, pure,
  fault, continue, for_each, ◌>>=◌, ◌>>◌, arith, modify,
}
use sara.Jid.{Jid, new_jid, new_jid_by_uid_domain, to_offline_key}
use sara.Packet.{Packet, BasePacket, add_delay, kill}
use sara.Cache
use sara.Session.State.{
  Env, Shared, World, Session, SessionStatus, RouterItem, on_db, service, route, shared, deref,
  read_session, update_session, router_queue_size,
}
use sara.Session.Actions.{clean, unregister, store_packet, store_packets, pkg_buff_to_store}
use sara.Session.Group.{
  group_packet, packet_for, packets_for, gen_group_packets, permitted, ask_service,
  generate_group_packets, group_users_key,
}
use sara.Session.Login.{
  kick, fetch_offline_packet, decode_offline, with_offline, store_session_status,
}
use sara.Session.Handler.{delete_acknowledged}
use sara.Session.Authentic.{
  Adds, Adds-none, Adds-trans, Bare, Plain, Plain-bind, Plain-pure, Plain-modify, Plain-on_db,
  Plain-deref, for_each-Plain, plain_rules,
}

-- A step of a session that adds signals only.
pub record Mute {env : Env} {A : Type 0} (m : Exec (World env) A) : Type 0 where
  pub at : (w : World env) → Adds Bare w.shared.routed (m w).1.shared.routed

module _ {env : Env} where
  continue-Mute :
      {A B : Type 0} (f : A → Exec (World env) B) (q : List RouterItem) (o : Outcome A)
      (w : World env)
      → ((a : A) → Mute (f a))
      → Adds Bare q w.shared.routed
      → Adds Bare q (continue f o w).1.shared.routed
  continue-Mute f q (ret a) w hf h = Adds-trans Bare h ((hf a).at w)
  continue-Mute f q panic w hf h = h

  pub Mute-bind :
      {A B : Type 0} (m : Exec (World env) A) (f : A → Exec (World env) B)
      → Mute m
      → ((a : A) → Mute (f a))
      → Mute (m >>= f)
  unfolding ◌>>=◌
  Mute-bind m f hm hf = record {
    at = λ w. continue-Mute f w.shared.routed (m w).0 (m w).1 hf (hm.at w);
  }

  pub Mute-shared : {A : Type 0} (m : Exec (Shared env) A) → Plain m → Mute (shared env m)
  unfolding shared
  Mute-shared m h = record { at = λ w. h.at w.shared }

  pub Mute-pure : {A : Type 0} (a : A) → Mute {env = env} (pure a)
  unfolding pure
  Mute-pure a = record { at = λ w. Adds-none Bare w.shared.routed }

  pub Mute-deref : (j : Result Jid) → Mute {env = env} (deref j)
  unfolding deref pure fault
  Mute-deref (ok j) = record { at = λ w. Adds-none Bare w.shared.routed }
  Mute-deref (err e) = record { at = λ w. Adds-none Bare w.shared.routed }

  pub Mute-read : {A : Type 0} (f : Session → A) → Mute (read_session env f)
  unfolding read_session
  Mute-read f = record { at = λ w. Adds-none Bare w.shared.routed }

  pub Mute-update : (f : Session → Session) → Mute (update_session env f)
  unfolding update_session
  Mute-update f = record { at = λ w. Adds-none Bare w.shared.routed }

  pub Mute-if :
      {A : Type 0} (b : Bool) (x y : Exec (World env) A)
      → Mute x
      → Mute y
      → Mute (if b then x else y)
  Mute-if true x y hx hy = hx
  Mute-if false x y hx hy = hy

pub ruleset mute_rules =
    (Mute-bind, Mute-shared, Mute-pure, Mute-deref, Mute-read, Mute-update, Mute-if)

module _ (env : Env) where
  pub clean-Plain : (sid : Bytes) → Plain (clean env sid)
  unfolding clean
  clean-Plain sid = Plain-modify _ λ s. refl

  pub unregister-Plain : (status : SessionStatus) → Plain (unregister env status)
  unfolding unregister
  unregister-Plain status = search plain_rules

  pub store_packet-Plain : (p : Packet) → Plain (store_packet env p)
  unfolding store_packet
  store_packet-Plain p = search plain_rules

  store_packets-Plain : (buff : List (Bytes × Packet)) → Plain (store_packets env buff)
  unfolding store_packets
  store_packets-Plain [] = Plain-pure tt
  store_packets-Plain ((id, p) ∷ rest) =
      Plain-bind _ _ (store_packet-Plain p) λ _. store_packets-Plain rest

  pub pkg_buff_to_store-Plain : (buff : List (Bytes × Packet)) → Plain (pkg_buff_to_store env buff)
  unfolding pkg_buff_to_store
  pkg_buff_to_store-Plain buff = record {
    at = λ s. (store_packets-Plain (env.range_order s.calls buff)).at s;
  }

  pub delete_acknowledged-Plain :
      (idx : Bytes) (ids : List Bytes) → Plain (delete_acknowledged env idx ids)
  unfolding delete_acknowledged
  delete_acknowledged-Plain idx ids = for_each-Plain _ ids λ id. search plain_rules

  packet_for-Plain :
      (packet : Packet) (from_jid : Jid) (to_user : Bytes)
      → Plain (packet_for env packet from_jid to_user)
  unfolding packet_for
  packet_for-Plain packet from_jid to_user = search plain_rules

  packets_for-Plain :
      (packet : Packet) (from_jid : Jid) (users : List Bytes)
      → Plain (packets_for env packet from_jid users)
  unfolding packets_for
  packets_for-Plain packet from_jid [] = Plain-pure []
  packets_for-Plain packet from_jid (u ∷ users) =
      go (bytes_eq from_jid.user u) (packets_for-Plain packet from_jid users)
    where
      go :
          (b : Bool)
          → Plain (packets_for env packet from_jid users)
          → Plain {env = env} (elim b [
            | true ↦ packets_for env packet from_jid users
            | false ↦ do
              p ← packet_for env packet from_jid u
              ps ← packets_for env packet from_jid users
              pure (p ∷ ps)
          ])
      go true h = h
      go false h =
          Plain-bind _ _ (packet_for-Plain packet from_jid u)
            λ p. Plain-bind _ _ h λ ps. Plain-pure (p ∷ ps)

  gen_group_packets-Plain :
      (users : Bytes) (packet : Packet) → Plain (gen_group_packets env users packet)
  unfolding gen_group_packets
  gen_group_packets-Plain users packet = search (plain_rules, packets_for-Plain)

  permitted-Plain :
      (from_jid : Jid) (users : Bytes) (packet : Packet)
      → Plain (permitted env from_jid users packet)
  unfolding permitted
  permitted-Plain from_jid users packet = search (plain_rules, gen_group_packets-Plain)

  ask_cases-Plain :
      (from_jid : Jid) (key : Bytes) (packet : Packet) (answer : Result (List Bytes))
      → Plain {env = env} (elim answer [
        | err e ↦ pure (err (codes "group_notfound"))
        | ok ulist ↦
            if ltb 1 (length ulist)
            then (do
              on_db env (env.db.put_ex key (join b',' ulist) (pos 3600))
              permitted env from_jid (join b',' ulist) packet)
            else pure (err (codes "group_notfound"))
      ])
  ask_cases-Plain from_jid key packet (err e) = Plain-pure _
  ask_cases-Plain from_jid key packet (ok ulist) = search (plain_rules, permitted-Plain)

  ask_service-Plain :
      (from_jid : Jid) (key : Bytes) (packet : Packet) → Plain (ask_service env from_jid key packet)
  unfolding ask_service
  ask_service-Plain from_jid key packet = search (plain_rules, ask_cases-Plain)

  found_cases-Plain :
      (from_jid : Jid) (key : Bytes) (packet : Packet) (found : Result Bytes)
      → Plain {env = env} (elim found [
        | ok users ↦ permitted env from_jid users packet
        | err e ↦ ask_service env from_jid key packet
      ])
  found_cases-Plain from_jid key packet (ok users) = permitted-Plain from_jid users packet
  found_cases-Plain from_jid key packet (err e) = ask_service-Plain from_jid key packet

  pub generate_group_packets-Plain : (packet : Packet) → Plain (generate_group_packets env packet)
  unfolding generate_group_packets
  generate_group_packets-Plain packet =
      Plain-bind _ _ (Plain-deref _) λ from_jid.
        Plain-bind _ _ (Plain-on_db _) λ found. found_cases-Plain from_jid _ packet found
