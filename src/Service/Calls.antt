-- ===== src/Service/Calls.antt =====
-- The calls of other servers, composed with the database and the group chats.
use sara.Common.{
  ℕ, ◌≡◌, refl, ap, ◌∙◌, true, false, List, [], ◌∷◌, ◌++◌, some, length, length-append, arith,
  Bytes, codes, has_prefix, bytes_eq_refl, bind-ret, ℤ, ok, err, ret, pure,
}
use sara.Redis.{Redis, del}
use sara.Database.{Database, SaraDatabase, sara_database, is4s, command, delete, get}
use sara.Database.Worker.{messages, receive, run}
use sara.Database.Shutdown.{live}
use sara.Database.Sessions.{Answers}
use sara.Session.Group.{group_users_key}
use sara.Service.{
  Value, printed, required, reload, reload_group, success_true, counters, counter, count_nodes,
  cut_stamp, stamp_length, take, of_outcome,
}

-- A node in the index of the nodes: its id, with the time of its start behind it.
pub record Entry : Type 0 where
  pub nodeid : Bytes
  pub started : Bytes
  pub full : length started ≡ stamp_length

abbrev pub stored : List Entry → List Bytes
stored [] = []
stored (n ∷ ns) = (n.nodeid ++ n.started) ∷ stored ns

abbrev pub counted : (Bytes → ℤ) → List Entry → List (Bytes × ℤ)
counted count [] = []
counted count (n ∷ ns) = (n.nodeid, count n.nodeid) ∷ counted count ns

take-append : (s t : Bytes) → take (length s) (s ++ t) ≡ s
take-append [] [] = refl
take-append [] (c ∷ t) = ground arith
take-append (c ∷ s) t = ground (arith, take-append s t)

cut_stamp-append : (s t : Bytes) → length t ≡ stamp_length → cut_stamp (s ++ t) ≡ ret s
unfolding cut_stamp
cut_stamp-append s t h = ground (arith, length-append s t, take-append s t)

module _ (db : Database) where
  count_nodes_lem :
      (count : Bytes → ℤ) (ns : List Entry) (s : db.State)
      → ((nodeid : Bytes) → db.count_by_idx nodeid s ≡ (ret (ok (count nodeid)), s))
      → count_nodes db (stored ns) s ≡ (ret (counted count ns), s)
  unfolding count_nodes
  count_nodes_lem count [] s h = unfold pure in refl
  count_nodes_lem count (n ∷ ns) s h =
      bind-ret (of_outcome db (cut_stamp (n.nodeid ++ n.started))) _ s s n.nodeid
        (ap (λ o. of_outcome db o s) (cut_stamp-append n.nodeid n.started n.full))
      ∙ bind-ret (db.count_by_idx n.nodeid) _ s s _ (h n.nodeid)
      ∙ bind-ret (count_nodes db (stored ns)) _ s s _ (count_nodes_lem count ns s h)
      ∙ (unfold pure in refl)

  -- While the database answers, the counter lists exactly the nodes that are registered, with the
  -- number of sessions that each of them has: of every entry the id is what stands before the time.
  pub counter-counted :
      (count : Bytes → ℤ) (n : Entry) (ns : List Entry) (s s' : db.State)
      → db.get_by_idx (codes "sara") s ≡ (ret (ok (stored (n ∷ ns))), s')
      → ((nodeid : Bytes) → db.count_by_idx nodeid s' ≡ (ret (ok (count nodeid)), s'))
      → counter db s
        ≡ (ret (record { success = true; entity = counters (counted count (n ∷ ns)) }), s')
  unfolding counter
  counter-counted count n ns s s' e h =
      bind-ret (db.get_by_idx (codes "sara")) _ s s' _ e
      ∙ bind-ret (count_nodes db (stored (n ∷ ns))) _ s' s' _ (count_nodes_lem count (n ∷ ns) s' h)
      ∙ (unfold pure in refl)

module _ (r : Redis) (answers : Answers r) where
  open answers use {text, get_none, del_text}

  not-is4s-group_users_key : (gid domain : Bytes) → is4s (group_users_key gid domain) ≡ false
  unfolding is4s group_users_key has_prefix
  not-is4s-group_users_key gid domain = refl

  reload_queues :
      (p : List (Bytes × Value)) (gid domain : Value) (db : SaraDatabase r)
      → required (codes "gid") p ≡ some gid
      → required (codes "domain") p ≡ some domain
      → db.wb_closed ≡ false
      → db.wb_ch ≡ []
      → reload (sara_database r) (some p) db ≡ (
        ret success_true,
        record db { wb_ch = command (del (group_users_key (printed gid) (printed domain))) ∷ [] },
      )
  unfolding group_users_key
  reload_queues p gid domain db has_gid has_domain opened empty =
      unfold reload reload_group delete pure in
      ground (
        arith,
        has_gid,
        has_domain,
        opened,
        empty,
        not-is4s-group_users_key (printed gid) (printed domain),
      )

  -- After a reload of a group, and once a worker has made the deletion that it queues, the members of
  -- the group are no longer found under the key that the group chats look them up by, so the next
  -- chat asks for them again. The database is open and has nothing else queued.
  pub reload_forgets :
      (p : List (Bytes × Value)) (gid domain : Value) (total : ℕ) (db : SaraDatabase r)
      → required (codes "gid") p ≡ some gid
      → required (codes "domain") p ≡ some domain
      → db.wb_closed ≡ false
      → db.wb_ch ≡ []
      → let reloaded = reload (sara_database r) (some p) db in
        let worked = run r messages (receive ∷ []) (live total) reloaded.1 in
        (reloaded.0 ≡ ret success_true)
        × ((m : Bytes) × ((get r (group_users_key (printed gid) (printed domain)) worked.1).0
              ≡ ret (err m)))
  reload_forgets p gid domain total db has_gid has_domain opened empty =
      let key = group_users_key (printed gid) (printed domain) in
      let store = (r.cmd (del key) db.store).1 in
      let gone = get_none store key (simp (del_text, bytes_eq_refl)) in
      rw (reload_queues p gid domain db has_gid has_domain opened empty)
        (refl, (gone.0, unfold run get in ap ret gone.1))
