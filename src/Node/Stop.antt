-- ===== src/Node/Stop.antt =====
-- node/node.go, the end of `Wait`: a node that stops closes all its sessions. Those it had taken are
-- closed one by one; the listeners, the wait for the sessions' goroutines and the end of the database
-- stand elsewhere.
use sara.Common.{
  ◌≡◌, ◌⊎◌, inl, inr, refl, sym, ◌∙◌, [], ◌∷◌, none, some, Bytes, bytes_eq, lookup, lookup-insert,
  Bool-cases, ℕ, Result, Outcome, ret, panic, Exec, pure, continue, ◌>>=◌, ◌>>◌,
}
use sara.Session.State.{Env, World, Session, close}
use sara.Session.Actions.{close_session}
use sara.Session.Opened.{close_session-Ends}
use sara.Node.{SessionMap, Node, fetch_session, on_session}

none≢some : {s : Session} → none ≡ some s → ⊥
none≢some e = cc

same_session : (s t : Session) → some s ≡ some t → s.status.status ≡ close → t.status.status ≡ close
same_session s t e h = cc

module _ (env : Env) (channel : Bytes) (publish : Bytes → Bytes → ℕ → Result (Unit {0})) where
  -- The loop over the list `slist`.
  unfoldable pub close_sessions : SessionMap → Exec (Node env channel publish) (Unit {0})
  close_sessions [] = pure tt
  close_sessions ((sid, session) ∷ rest) = do
    on_session env channel publish sid session (close_session env)
    close_sessions rest

  unfoldable pub stop_sessions : Exec (Node env channel publish) (Unit {0})
  stop_sessions n = close_sessions n.sessions n

  -- A session that is found either is closed, or was found before and is not in the list.
  abbrev Remains : Bytes → SessionMap → SessionMap → Session → Type 0
  Remains k l before t =
      (t.status.status ≡ close) ⊎ ((lookup k l ≡ none) × (lookup k before ≡ some t))

  continue-Remains :
      (l : SessionMap) (k : Bytes) (t : Session) (o : Outcome (Unit {0}))
      (n : Node env channel publish)
      → ((m : Node env channel publish)
          → (close_sessions l m).0 ≡ ret tt
          → lookup k (close_sessions l m).1.sessions ≡ some t
          → Remains k l m.sessions t)
      → (continue (λ _. close_sessions l) o n).0 ≡ ret tt
      → lookup k (continue (λ _. close_sessions l) o n).1.sessions ≡ some t
      → (o ≡ ret tt) × Remains k l n.sessions t
  continue-Remains l k t (ret tt) n h e f = (refl, h n e f)
  continue-Remains l k t panic n h e f = absurd (cc)

  closed_one :
      (sid : Bytes) (session : Session) (rest : SessionMap) (k : Bytes) (t : Session)
      (n : Node env channel publish)
      → (on_session env channel publish sid session (close_session env) n).0 ≡ ret tt
      → Remains k rest
          (on_session env channel publish sid session (close_session env) n).1.sessions
          t
      → Remains k ((sid, session) ∷ rest) n.sessions t
  unfolding on_session
  closed_one sid session rest k t n returned (inl closed) = inl closed
  closed_one sid session rest k t n returned (inr (missing, found)) =
      let before : World env = record { shared = n.shared; session = session } in
      let closing = (close_session-Ends env).at before tt returned in
      elim (Bool-cases (bytes_eq sid k)) [
        | inl same ↦ inl (
            same_session (close_session env before).1.session t
              (sym (rw (lookup-insert, same) refl) ∙ found) closing)
        | inr other ↦ inr (unfold lookup in rw other missing, rw (lookup-insert, other) at found)
      ]

  close_sessions-Remains :
      (l : SessionMap) (k : Bytes) (t : Session) (n : Node env channel publish)
      → (close_sessions l n).0 ≡ ret tt
      → lookup k (close_sessions l n).1.sessions ≡ some t
      → Remains k l n.sessions t
  unfolding close_sessions ◌>>=◌
  close_sessions-Remains [] k t n e f = inr (unfold lookup in refl, f)
  close_sessions-Remains ((sid, session) ∷ rest) k t n e f =
      let step = on_session env channel publish sid session (close_session env) n in
      let (returned, found) =
        continue-Remains rest k t step.0 step.1 (close_sessions-Remains rest k t) e f in
      closed_one sid session rest k t n returned found

  -- All sessions of a node that stops are closed: if no call panics, every session that is found
  -- afterwards has the status `close`.
  pub stop_sessions-Closed :
      (n : Node env channel publish) (sid : Bytes) (t : Session)
      → (stop_sessions n).0 ≡ ret tt
      → fetch_session sid (stop_sessions n).1.sessions ≡ some t
      → t.status.status ≡ close
  unfolding stop_sessions fetch_session
  stop_sessions-Closed n sid t e f = elim (close_sessions-Remains n.sessions sid t n e f) [
    | inl closed ↦ closed
    | inr (missing, found) ↦ absurd (none≢some (sym missing ∙ found))
  ]
