-- ===== src/Node/Sessions.antt =====
-- The map of sessions.
use sara.Common.{
  ◌≡◌, refl, Bool, false, ◌||◌, List, [], ◌∷◌, none, some, if◌then◌else◌, Bytes, bytes_eq, is_empty,
  lookup-insert, lookup-delete, arith, delete,
}
use sara.Session.State.{Session}
use sara.Node.{SessionMap, register_session, fetch_session, clean_sessions}

-- A registered session is found under its id, and every other id finds what it found before. A
-- session with no id is not registered.
pub fetch_session-register_session :
    (session : Session) (sid : Bytes) (sessions : SessionMap)
    → fetch_session sid (register_session session sessions) ≡ (
        if is_empty session.status.sid
        then fetch_session sid sessions
        else if bytes_eq session.status.sid sid
        then some session
        else fetch_session sid sessions)
unfolding fetch_session register_session
fetch_session-register_session session sid sessions =
    ground (arith, lookup-insert session.status.sid sid session sessions)

abbrev pub listed : Bytes → List Bytes → Bool
listed sid [] = false
listed sid (s ∷ sids) = bytes_eq s sid || listed sid sids

-- After the ids of closed sessions are cleaned, none of them finds a session, and every other id
-- finds what it found before.
pub fetch_session-clean_sessions :
    (sids : List Bytes) (sid : Bytes) (sessions : SessionMap)
    → fetch_session sid (clean_sessions sids sessions)
      ≡ (if listed sid sids then none else fetch_session sid sessions)
unfolding fetch_session clean_sessions
fetch_session-clean_sessions [] sid sessions = refl
fetch_session-clean_sessions (s ∷ sids) sid sessions =
    ground (
      arith,
      lookup-delete s sid sessions,
      fetch_session-clean_sessions sids sid (delete s sessions),
    )
