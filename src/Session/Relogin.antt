-- ===== src/Session/Relogin.antt =====
-- A client that logs in while a session of its address is registered: `Kill` of the old session.
use sara.Common.{
  ℕ, ◌≡◌, refl, sym, ap, Bool, true, false, [], ◌∷◌, ◌++◌, none, if◌then◌else◌, arith, Bytes,
  bytes_eq_refl, negsuc, ok, err, ret, pure, fault, ◌>>=◌,
}
use sara.Jid.{Jid, new_jid, to_sessionid}
use sara.Packet.{end_flag, kill}
use sara.Redis.{Redis, Command}
use sara.Database.{idx_suffix, get}
use sara.Database.Worker.{sessions, run}
use sara.Database.Shutdown.{live, receives}
use sara.Database.Sessions.{Answers, registered, write_text, put_ex_with_idx_session}
use sara.Session.State.{
  Env, Shared, World, Session, SessionStatus, login, on_db, shared, deref, update_session,
}
use sara.Session.Actions.{send_message, kill_session, close_session}
use sara.Session.Login.{store_session_status, status_text}
use sara.Session.Unacknowledged.{
  with_database, AllStorable, ended, logout_writes, close_session-stores, is4s-to_sessionid,
  shared_lem,
}

module _ (r : Redis) (env0 : Env) where
  abbrev env : Env
  env = with_database r env0

  -- The session behind the signal that it is killed with.
  abbrev told : Bool → Session → Session
  told closed s =
      if closed then s else record s { sent = s.sent ++ (kill ∷ [] ++ end_flag ∷ []) ∷ [] }

  closed_lem :
      (closed : Bool) (w : World env) (j : Jid)
      → w.session.status.status ≡ login
      → new_jid w.session.status.jid ≡ ok j
      → AllStorable r env0 w.session.pkg_buff
      → w.shared.db.wb_closed ≡ false
      → ((close_session env (record w { session = told closed w.session })).0 ≡ ret tt)
        × ((close_session env (record w { session = told closed w.session })).1.shared
            ≡ ended r env0 w j)
  closed_lem true w j logged_in readable storable open_db =
      rw (close_session-stores r env0 w j logged_in readable storable open_db) (refl, refl)
  closed_lem false w j logged_in readable storable open_db =
      rw
        (close_session-stores r env0 (record w { session = told false w.session }) j logged_in
          readable storable open_db)
        (refl, refl)

  kill_session_lem :
      (w : World env) (j : Jid)
      → w.session.status.status ≡ login
      → new_jid w.session.status.jid ≡ ok j
      → AllStorable r env0 w.session.pkg_buff
      → w.shared.db.wb_closed ≡ false
      → ((kill_session env w).0 ≡ ret tt) × ((kill_session env w).1.shared ≡ ended r env0 w j)
  kill_session_lem w j logged_in readable storable open_db =
      unfold kill_session send_message update_session ◌>>=◌ in
      closed_lem w.session.closed w j logged_in readable storable open_db

  module _ (answers : Answers r) where
    open answers use {text, get_some, get_none, del_text}

    -- The state behind a registration.
    abbrev logged : SessionStatus → Jid → Shared env → Shared env
    logged status j s = record s {
      db = record s.db {
        store =
            registered r answers s.db.store status.nodeid (to_sessionid j) (status_text env status)
              (negsuc 0);
      };
    }

    store_session_status_lem :
        (status : SessionStatus) (j : Jid) (s : Shared env)
        → new_jid status.jid ≡ ok j
        → text s.db.store (status.nodeid ++ idx_suffix) ≡ none
        → store_session_status env status s ≡ (ret tt, logged status j s)
    store_session_status_lem status j s readable free =
        unfold store_session_status ◌>>=◌ deref on_db pure fault in
        ground (
          arith,
          readable,
          put_ex_with_idx_session r answers status.nodeid (to_sessionid j) (status_text env status)
              (negsuc 0) s.db (is4s-to_sessionid r env0 j) free,
        )

    -- A client that logs in again can be left unreachable. Its new session is registered, and then the
    -- old one, which is logged in under the same address, is killed: the call returns, and it queues the
    -- deletion of the key that now holds the new registration. `Get` finds the new session before, and
    -- once a worker has made the deletions it finds none. The addresses can be read, the packets that the
    -- old session holds can be stored, nothing else waits for the workers of session keys, the
    -- database is open, and the name of the new index is not used as a text.
    pub repeat_login_lost :
        (w : World env) (j jn : Jid) (new : SessionStatus) (total : ℕ)
        → w.session.status.status ≡ login
        → new_jid w.session.status.jid ≡ ok j
        → new_jid new.jid ≡ ok jn
        → to_sessionid jn ≡ to_sessionid j
        → AllStorable r env0 w.session.pkg_buff
        → w.shared.db.wb_closed ≡ false
        → w.shared.db.wb_ch4s ≡ []
        → text w.shared.db.store (new.nodeid ++ idx_suffix) ≡ none
        → let login_again = shared env (store_session_status env new) w in
          let killed = kill_session env login_again.1 in
          let worked =
            run r sessions
              (receives r (logout_writes r env0 w.session.status.nodeid j))
              (live total)
              killed.1.shared.db in
          (login_again.0 ≡ ret tt)
          × (killed.0 ≡ ret tt)
          × ((get r (to_sessionid j) login_again.1.shared.db).0 ≡ ret (ok (status_text env new)))
          × ((m : Bytes) × ((get r (to_sessionid j) worked.1).0 ≡ ret (err m)))
    unfolding get
    repeat_login_lost w j jn new total logged_in readable readable_new same storable open_db nothing
          free =
        let v : World env = record w { shared = logged new jn w.shared } in
        let step =
          shared_lem r env0 (store_session_status env new) w (logged new jn w.shared)
            (store_session_status_lem new jn w.shared readable_new free) in
        let deleted =
          (r.cmd (Command.del (to_sessionid jn))
            (r.cmd (Command.hdel (w.session.status.nodeid ++ idx_suffix) (to_sessionid jn))
              v.shared.db.store).1).1 in
        let gone = get_none deleted (to_sessionid jn) (simp (del_text, bytes_eq_refl)) in
        let killed = kill_session_lem v j logged_in readable storable open_db in
        rw (step, killed.1, sym same)
          (
            refl,
            killed.0,
            ap ret (
                get_some v.shared.db.store (to_sessionid jn) (status_text env new)
                  (write_text r answers _ (to_sessionid jn) (status_text env new) (negsuc 0))),
            (gone.0, rw nothing (unfold run in ap ret gone.1)),
          )
