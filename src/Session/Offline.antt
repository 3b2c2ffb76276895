-- ===== src/Session/Offline.antt =====
-- The messages of a client that was away: from the answer to its login to their acknowledgement.
use sara.Common.{
  sym, ◌++◌, All, false, append-nil, append_assoc, bind-ret, for_each, ◌≡◌, refl, ap, ◌∙◌, List, [],
  ◌∷◌, none, some, arith, Bytes, lookup-insert, bytes_eq_refl, ok, err, ret, pure, fault, modify,
  ◌>>=◌, ◌>>◌,
}
use sara.Jid.{Jid, new_jid, to_offline_key}
use sara.Packet.{
  Packet, Json, new_packet_with_entity, BasePacket, add_delay, new_base_packet,
  new_packet_auth_success,
}
use sara.Cache
use sara.Redis.{Redis, Command, hdel, del}
use sara.Database.{idx_suffix, is4s}
use sara.Database.Writes.{commands, delete_by_idx_key_message}
use sara.Session.State.{Env, Shared, World, on_db, shared, deref, read_session}
use sara.Session.Unacknowledged.{with_database, queued, shared_lem}
use sara.Session.Login.{decode_offline, fetch_offline_packet, with_offline}
use sara.Session.Handler.{server_ack, delete_acknowledged}

abbrev pub ids_of : List BasePacket → List Bytes
ids_of [] = []
ids_of (p ∷ ps) = p.envelope.id ∷ ids_of ps

-- The messages that an answer carries.
abbrev pub carried : Packet → List BasePacket
carried p = elim p.delay [ none ↦ [] | some d ↦ d.packets ]

-- The messages that some texts are, in order, without those that cannot be decoded.
pub data Decodes (json : Json) : List Bytes → List BasePacket → Type 0 where
  nothing : Decodes json [] []
  decoded :
      {text : Bytes} {texts : List Bytes} {p : BasePacket} {ps : List BasePacket}
      → new_base_packet json text ≡ ok p
      → Decodes json texts ps
      → Decodes json (text ∷ texts) (p ∷ ps)
  skipped :
      {text e : Bytes} {texts : List Bytes} {ps : List BasePacket}
      → new_base_packet json text ≡ err e
      → Decodes json texts ps
      → Decodes json (text ∷ texts) ps

module _ (env : Env) where
  -- The first text.
  decode_first :
      (text : Bytes) (texts : List Bytes)
      → decode_offline env (text ∷ texts)
        ≡ elim (new_base_packet env.json text) as (λ _. List BasePacket × List Bytes) [
          | ok pk ↦
              (pk ∷ (decode_offline env texts).0, pk.envelope.id ∷ (decode_offline env texts).1)
          | err e ↦ decode_offline env texts
        ]
  unfolding decode_offline
  decode_first text texts = refl

  decode_offline_lem :
      {texts : List Bytes} {ps : List BasePacket}
      → Decodes env.json texts ps
      → decode_offline env texts ≡ (ps, ids_of ps)
  decode_offline_lem nothing = unfold decode_offline in refl
  decode_offline_lem (decoded {text = text} {texts = texts} e d) =
      rw (decode_first text texts, e, decode_offline_lem d) refl
  decode_offline_lem (skipped {text = text} {texts = texts} e d) =
      rw (decode_first text texts, e) (decode_offline_lem d)

  carried-add_delay : (bs : List BasePacket) (p : Packet) → carried (add_delay bs p) ≡ bs
  unfolding add_delay
  carried-add_delay [] p = refl
  carried-add_delay (b ∷ bs) p = refl

  id-add_delay : (bs : List BasePacket) (p : Packet) → (add_delay bs p).envelope.id ≡ p.envelope.id
  unfolding add_delay
  id-add_delay [] p = refl
  id-add_delay (b ∷ bs) p = refl

  with_offline_lem :
      (id jid : Bytes) (s : Shared env) (j : Jid) (texts : List Bytes) (db : env.db.State)
      (i : Bytes) (ids : List Bytes)
      → new_jid jid ≡ ok j
      → env.db.get_by_idx (to_offline_key j) s.db ≡ (ret (ok texts), db)
      → (decode_offline env texts).1 ≡ i ∷ ids
      → with_offline env id jid s ≡ (
        ret (add_delay (decode_offline env texts).0 (add_delay [] (new_packet_auth_success id))),
        record s { db = db; ofl_cache = Cache.put id (i ∷ ids) s.ofl_cache },
      )
  with_offline_lem id jid s j texts db i ids readable stored e =
      unfold with_offline fetch_offline_packet ◌>>=◌ on_db deref modify pure fault in
      ground (arith, readable, stored, e)

  get-put :
      (k : Bytes) (v : List Bytes) (c : Cache.OfflineMessageCache)
      → Cache.get k (Cache.put k v c) ≡ ok v
  get-put k v c =
      unfold Cache.get Cache.put in ground (arith, lookup-insert k k v c.cache, bytes_eq_refl k)

  server_ack_lem :
      (packet : Packet) (w : World env) (j : Jid) (ids : List Bytes)
      → new_jid w.session.status.jid ≡ ok j
      → Cache.get packet.envelope.id w.shared.ofl_cache ≡ ok ids
      → server_ack env packet w ≡ shared env (delete_acknowledged env (to_offline_key j) ids) w
  server_ack_lem packet w j ids readable cached =
      unfold server_ack ◌>>=◌ read_session deref shared pure fault in
      ground (arith, readable, cached)

module _ (r : Redis) (env0 : Env) where
  abbrev env : Env
  env = with_database r env0

  -- The deletions of some messages.
  abbrev pub deletions : Bytes → List Bytes → List Command
  deletions name [] = []
  deletions name (id ∷ ids) = hdel (name ++ idx_suffix) id ∷ del id ∷ deletions name ids

  delete_acknowledged_lem :
      (name : Bytes) (ids : List Bytes) (s : Shared env)
      → All (λ id. is4s id ≡ false) ids
      → s.db.wb_closed ≡ false
      → delete_acknowledged env name ids s ≡ (ret tt, queued r env0 (deletions name ids) s)
  unfolding delete_acknowledged for_each
  delete_acknowledged_lem name [] s h open_db =
      unfold pure in
      ap (λ ch. (ret tt, record s { db = record s.db { wb_ch = ch } }))
        (sym (append-nil s.db.wb_ch))
  delete_acknowledged_lem name (id ∷ ids) s (m, h) open_db =
      bind-ret (do on_db env (env.db.delete_by_idx_key name id); pure tt)
        (λ _. for_each (λ id. do on_db env (env.db.delete_by_idx_key name id); pure tt) ids) s
        (queued r env0 (hdel (name ++ idx_suffix) id ∷ del id ∷ []) s) tt
        (unfold ◌>>=◌ on_db pure in
          ground (arith, delete_by_idx_key_message r name id s.db m open_db))
      ∙ delete_acknowledged_lem name ids _ h open_db
      ∙ ap (λ ch. (ret tt, record s { db = record s.db { wb_ch = ch } }))
          (append_assoc s.db.wb_ch (commands r (hdel (name ++ idx_suffix) id ∷ del id ∷ []))
            (commands r (deletions name ids)))

  -- The answer to a login has the id of the request and carries, as they are and in order, the stored
  -- messages that can be decoded, one at least. When the client acknowledges that answer, by its id, the
  -- deletions of exactly the messages that it carried are queued, from the index of the client and from
  -- the store. The address of the session can be read, the store answers with the messages of the
  -- client, none of them has the key of a session as its id, and the database is open.
  pub offline_acknowledged :
      (packet : Packet) (w : World env) (j : Jid) (texts : List Bytes) (db : env.db.State)
      (b : BasePacket) (bs : List BasePacket)
      → new_jid w.session.status.jid ≡ ok j
      → env.db.get_by_idx (to_offline_key j) w.shared.db ≡ (ret (ok texts), db)
      → Decodes env.json texts (b ∷ bs)
      → All (λ id. is4s id ≡ false) (ids_of (b ∷ bs))
      → db.wb_closed ≡ false
      → let login = with_offline env packet.envelope.id w.session.status.jid w.shared in
        let after = record w { shared = login.1 } in
        (p : Packet) × (login.0 ≡ ret p)
        × (p.envelope.id ≡ packet.envelope.id)
        × (carried p ≡ b ∷ bs)
        × (server_ack env packet after ≡ (
          ret tt,
          record after {
            shared = queued r env0 (deletions (to_offline_key j) (ids_of (b ∷ bs))) after.shared;
          },
        ))
  offline_acknowledged packet w j texts db b bs readable stored decodes messages open_db =
      let ids = ids_of bs in
      let answered =
        with_offline_lem env packet.envelope.id w.session.status.jid w.shared j texts db
          b.envelope.id ids readable stored (ap (λ d. d.1) (decode_offline_lem env decodes)) in
      rw (answered, decode_offline_lem env decodes)
        (
          _,
          refl,
          id-add_delay env (b ∷ bs) _
              ∙ (unfold add_delay new_packet_auth_success new_packet_with_entity in refl),
          carried-add_delay env (b ∷ bs) _,
          server_ack_lem env packet _ j (b.envelope.id ∷ ids) readable (get-put env _ _ _)
              ∙ shared_lem r env0 (delete_acknowledged env (to_offline_key j) (b.envelope.id ∷ ids))
                  _ _
                  (delete_acknowledged_lem (to_offline_key j) (b.envelope.id ∷ ids) _ messages
                    open_db),
        )
