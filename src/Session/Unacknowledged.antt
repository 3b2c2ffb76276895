-- ===== src/Session/Unacknowledged.antt =====
-- What is left of a session that ends, in the database.
use sara.Common.{
  ◌≡◌, refl, sym, ap, ◌∙◌, Bool, true, false, List, [], ◌∷◌, ◌++◌, append-nil, append_assoc,
  if◌then◌else◌, arith, All, Bytes, has_prefix-append, pos, ok, err, ret, Exec, pure, fault, modify,
  bind-ret, ◌>>=◌, ◌>>◌,
}
use sara.Jid.{Jid, new_jid, to_sessionid, to_offline_key, session_prefix, string_without_resource}
use sara.Packet.{Packet, to_json}
use sara.Redis.{Redis, Command, hset, hdel, del}
use sara.Database.{sara_database, idx_suffix, is4s, write}
use sara.Database.Writes.{commands, put_ex_with_idx_message, delete_by_idx_key_session}
use sara.Session.State.{
  Env, Shared, World, SessionStatus, login, close, on_db, shared, deref, read_session,
  update_session, offline_expired,
}
use sara.Session.Ranges.{All-Perm}
use sara.Session.Actions.{
  store_packet, store_packets, pkg_buff_to_store, close_session, close_open_session, clean,
  unregister, set_status, shut_connection, is_login,
}

-- A server with the database of saradb/database.go.
abbrev pub with_database : Redis → Env → Env
with_database r env = record env { db = sara_database r }

abbrev pub offline_key_of : Packet → Bytes
offline_key_of p = elim (new_jid p.envelope.to) [ ok j ↦ to_offline_key j | err e ↦ [] ]

-- A packet that can be stored as a message: its address can be read, and its id is no session key.
pub record IsStorable (p : Packet) : Type 0 where
  pub jid : Jid
  pub address : new_jid p.envelope.to ≡ ok jid
  pub message : is4s p.envelope.id ≡ false

module _ (r : Redis) (env0 : Env) where
  abbrev env : Env
  env = with_database r env0

  -- The writes that store some packets.
  abbrev pub store_writes : List (Bytes × Packet) → List Command
  store_writes [] = []
  store_writes ((id, p) ∷ rest) =
      hset (offline_key_of p ++ idx_suffix) p.envelope.id (to_json env0.json p)
      ∷ write r p.envelope.id (to_json env0.json p) (pos offline_expired)
      ∷ store_writes rest

  abbrev pub queued : List Command → Shared env → Shared env
  queued cs s = record s { db = record s.db { wb_ch = s.db.wb_ch ++ commands r cs } }

  pub store_packet_lem :
      (p : Packet) (s : Shared env)
      → IsStorable p
      → s.db.wb_closed ≡ false
      → store_packet env p s ≡ (
        ret tt,
        queued
            (hset (offline_key_of p ++ idx_suffix) p.envelope.id (to_json env0.json p)
              ∷ write r p.envelope.id (to_json env0.json p) (pos offline_expired)
              ∷ [])
            s,
      )
  store_packet_lem p s v open_db =
      unfold store_packet ◌>>=◌ on_db deref pure fault in
      ground (
        arith,
        v.address,
        open_db,
        put_ex_with_idx_message r (offline_key_of p) p.envelope.id (to_json env0.json p)
            (pos offline_expired) s.db v.message,
      )

  abbrev pub AllStorable : List (Bytes × Packet) → Type 0
  AllStorable = All (λ e. IsStorable e.1)

  store_packets_lem :
      (buff : List (Bytes × Packet)) (s : Shared env)
      → AllStorable buff
      → s.db.wb_closed ≡ false
      → store_packets env buff s ≡ (ret tt, queued (store_writes buff) s)
  unfolding store_packets
  store_packets_lem [] s h open_db =
      unfold pure in
      ap (λ ch. (ret tt, record s { db = record s.db { wb_ch = ch } }))
        (sym (append-nil s.db.wb_ch))
  store_packets_lem ((id, p) ∷ rest) s (v, h) open_db =
      bind-ret (store_packet env p) (λ _. store_packets env rest) s _ tt
        (store_packet_lem p s v open_db)
      ∙ store_packets_lem rest _ h open_db
      ∙ ap (λ ch. (ret tt, record s { db = record s.db { wb_ch = ch } }))
          (append_assoc s.db.wb_ch
            (commands r (
              hset (offline_key_of p ++ idx_suffix) p.envelope.id (to_json env0.json p)
              ∷ write r p.envelope.id (to_json env0.json p) (pos offline_expired)
              ∷ []))
            (commands r (store_writes rest)))

  -- The packets of a buffer in the order in which the source ranges over it.
  abbrev pub ranged : List (Bytes × Packet) → Shared env → List (Bytes × Packet)
  ranged buff s = env0.range_order s.calls buff

  pkg_buff_to_store_lem :
      (buff : List (Bytes × Packet)) (s : Shared env)
      → AllStorable buff
      → s.db.wb_closed ≡ false
      → pkg_buff_to_store env buff s ≡ (ret tt, queued (store_writes (ranged buff s)) s)
  unfolding pkg_buff_to_store
  pkg_buff_to_store_lem buff s h open_db =
      store_packets_lem (ranged buff s) s (All-Perm _ (env0.ranges s.calls buff) h) open_db

  pub is4s-to_sessionid : (j : Jid) → is4s (to_sessionid j) ≡ true
  unfolding is4s to_sessionid
  is4s-to_sessionid j = has_prefix-append session_prefix (string_without_resource j)

  -- The registration that a logout deletes.
  abbrev pub logout_writes : Bytes → Jid → List Command
  logout_writes nodeid j = hdel (nodeid ++ idx_suffix) (to_sessionid j) ∷ del (to_sessionid j) ∷ []

  abbrev unregistered : SessionStatus → Jid → Shared env → Shared env
  unregistered status j s = record s {
    db = record s.db { wb_ch4s = s.db.wb_ch4s ++ commands r (logout_writes status.nodeid j) };
  }

  unregister_lem :
      (status : SessionStatus) (j : Jid) (s : Shared env)
      → new_jid status.jid ≡ ok j
      → unregister env status s ≡ (ret tt, unregistered status j s)
  unregister_lem status j s readable =
      unfold unregister ◌>>=◌ deref on_db pure fault in
      ground (
        arith,
        readable,
        delete_by_idx_key_session r status.nodeid (to_sessionid j) s.db (is4s-to_sessionid j),
      )

  -- The shared state behind the end of a session.
  abbrev pub ended : World env → Jid → Shared env
  ended w j = record w.shared {
    cleaned = w.shared.cleaned ++ w.session.status.sid ∷ [];
    db = record w.shared.db {
      wb_ch = w.shared.db.wb_ch ++ commands r (store_writes (ranged w.session.pkg_buff w.shared));
      wb_ch4s = w.shared.db.wb_ch4s ++ commands r (logout_writes w.session.status.nodeid j);
    };
  }

  pub shared_lem :
      (m : Exec (Shared env) (Unit {0})) (w : World env) (s : Shared env)
      → m w.shared ≡ (ret tt, s)
      → shared env m w ≡ (ret tt, record w { shared = s })
  unfolding shared
  shared_lem m w s e = ap (λ p. (p.0, record w { shared = p.1 })) e

  -- The sessions id is given to the node.
  abbrev cleaned : World env → World env
  cleaned w = record w {
    shared = record w.shared { cleaned = w.shared.cleaned ++ w.session.status.sid ∷ [] };
  }

  unregister_if_lem :
      (b : Bool) (status : SessionStatus) (j : Jid) (w : World env)
      → b ≡ true
      → new_jid status.jid ≡ ok j
      → (if b then shared env (unregister env status) else pure tt) w
        ≡ (ret tt, record w { shared = unregistered status j w.shared })
  unregister_if_lem true status j w e readable =
      shared_lem (unregister env status) w _ (unregister_lem status j w.shared readable)
  unregister_if_lem false status j w e readable = absurd (cc)

  close_rest_lem :
      (w : World env)
      → AllStorable w.session.pkg_buff
      → w.shared.db.wb_closed ≡ false
      → (do
        set_status env close
        shut_connection env
        buff ← read_session env (λ s. s.pkg_buff)
        shared env (pkg_buff_to_store env buff))
          w
        ≡ (
          ret tt,
          record w {
            shared = queued (store_writes (ranged w.session.pkg_buff w.shared)) w.shared;
            session = record w.session {
              status = record w.session.status { status = close };
              closed = true;
            };
          },
        )
  close_rest_lem w storable open_db =
      unfold ◌>>=◌ set_status shut_connection update_session read_session in
      shared_lem (pkg_buff_to_store env w.session.pkg_buff) _ _
        (pkg_buff_to_store_lem w.session.pkg_buff w.shared storable open_db)

  close_session_open :
      (w : World env)
      → w.session.status.status ≡ login
      → close_session env w ≡ close_open_session env w.session.status w
  close_session_open w logged_in =
      unfold close_session ◌>>=◌ read_session pure in ground (arith, logged_in)

  -- When a session ends that is logged in, its status is `close` and its connection is shut, the node
  -- is told to forget it, the deletion of its registration is queued, and every packet that its client
  -- has not acknowledged is queued to be stored, once, in the order in which the source ranges over the
  -- buffer, which is any. The packets can be stored, the session's address can be read, and the database
  -- is open.
  pub close_session-stores :
      (w : World env) (j : Jid)
      → w.session.status.status ≡ login
      → new_jid w.session.status.jid ≡ ok j
      → AllStorable w.session.pkg_buff
      → w.shared.db.wb_closed ≡ false
      → close_session env w ≡ (
        ret tt,
        record w {
          shared = ended w j;
          session = record w.session {
            status = record w.session.status { status = close };
            closed = true;
          };
        },
      )
  unfolding close_open_session
  close_session-stores w j logged_in readable storable open_db =
      rw (close_session_open w logged_in) (
        bind-ret (shared env (clean env w.session.status.sid)) _ w (cleaned w) tt
          (unfold shared clean modify in refl)
        ∙ bind-ret
            (if is_login w.session.status.status
              then shared env (unregister env w.session.status)
              else pure tt)
            _ (cleaned w) _ tt
            (unregister_if_lem (is_login w.session.status.status) w.session.status j (cleaned w)
              (ap is_login logged_in) readable)
        ∙ close_rest_lem (record w { shared = unregistered w.session.status j (cleaned w).shared })
            storable open_db)
