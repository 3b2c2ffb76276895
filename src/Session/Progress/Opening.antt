-- ===== src/Session/Progress/Opening.antt =====
-- The opening of a session: it is logged in only if the checks left it as it was.
use sara.Common.{
  ℕ, ◌≡◌, ◌≢◌, refl, sym, ◌∙◌, subst, Bool, true, false, [], append-nil, Option, none, some, arith,
  if◌then◌else◌, Bytes, ◌==◌, Result, ok, err, Outcome, ret, panic, Exec, pure, continue, ◌>>=◌,
  ◌>>◌,
}
use sara.Jid.{Jid, new_jid}
use sara.Packet.{Packet, Envelope, new_packet, fail_packet, fail_type}
use sara.Packet.MsgType
use sara.Session.State.{
  Env, Shared, World, Session, conn, login, shared, read_session, update_session, tick,
}
use sara.Session.Actions.{answer}
use sara.Session.Login.{
  verify, verify_jid, verify_auth, refuse, with_offline, store_session_status, log_in, open_session,
}
use sara.Session.Progress.{Follows, Follows-refl, Follows-trans, Advances, advances_rules}
use sara.Session.Progress.Methods.{answer-Advances, close_session-Advances}

-- A step that lets a session be opened only if it left it as it was.
record Verifies {env : Env} (m : Exec (World env) (Option Packet)) : Type 0 where
  follows : (w : World env) → Follows w.session (m w).1.session
  same : (w : World env) (p : Packet) → (m w).0 ≡ ret (some p) → (m w).1.session ≡ w.session

module _ (env : Env) where
  refuse-Advances : (id reason : Bytes) → Advances (refuse env id reason)
  unfolding refuse
  refuse-Advances id reason = search (advances_rules, answer-Advances, close_session-Advances)

  abbrev NeverSome : Exec (World env) (Option Packet) → Type 0
  NeverSome m = (w : World env) (p : Packet) → (m w).0 ≢ ret (some p)

  continue-NeverSome :
      {A : Type 0} (f : A → Exec (World env) (Option Packet)) (o : Outcome A) (v : World env)
      (p : Packet)
      → ((a : A) → NeverSome (f a))
      → (continue f o v).0 ≢ ret (some p)
  continue-NeverSome f (ret a) v p h = h a v p
  continue-NeverSome f panic v p h = λ e. cc

  bind-NeverSome :
      {A : Type 0} (m : Exec (World env) A) (f : A → Exec (World env) (Option Packet))
      → ((a : A) → NeverSome (f a))
      → NeverSome (m >>= f)
  unfolding ◌>>=◌
  bind-NeverSome m f h w p = continue-NeverSome f (m w).0 (m w).1 p h

  pure-NeverSome : NeverSome (pure none)
  unfolding pure
  pure-NeverSome w p e = cc

  refuse-Verifies : (id reason : Bytes) → Verifies (refuse env id reason)
  unfolding refuse
  refuse-Verifies id reason = record {
    follows = (refuse-Advances id reason).at;
    same =
        λ w p e. absurd (bind-NeverSome _ _ (λ _. bind-NeverSome _ _ (λ _. pure-NeverSome)) w p e);
  }

  continue-Verifies :
      {A : Type 0} (f : A → Exec (World env) (Option Packet)) (s : Session) (o : Outcome A)
      (v : World env)
      → ((a : A) → Verifies (f a))
      → v.session ≡ s
      → Follows s (continue f o v).1.session
        × ((p : Packet) → (continue f o v).0 ≡ ret (some p) → (continue f o v).1.session ≡ s)
  continue-Verifies f s (ret a) v h e =
      (subst (λ x. Follows x (f a v).1.session) e ((h a).follows v), λ p q. (h a).same v p q ∙ e)
  continue-Verifies f s panic v h e =
      (subst (λ x. Follows x v.session) e (Follows-refl v.session), λ p q. cc)

  -- What is done to the shared state before.
  shared-Verifies :
      {A : Type 0} (m : Exec (Shared env) A) (f : A → Exec (World env) (Option Packet))
      → ((a : A) → Verifies (f a))
      → Verifies (shared env m >>= f)
  unfolding ◌>>=◌ shared
  shared-Verifies m f h = record {
    follows = λ w.
        (continue-Verifies f w.session (m w.shared).0 (record w { shared = (m w.shared).1 }) h
          refl).0;
    same = λ w.
        (continue-Verifies f w.session (m w.shared).0 (record w { shared = (m w.shared).1 }) h
          refl).1;
  }

  accept-Verifies :
      (b : Bool) (packet : Packet) (reason : Bytes)
      → Verifies (if b then pure (some packet) else refuse env packet.envelope.id reason)
  unfolding pure
  accept-Verifies true packet reason = record {
    follows = λ w. Follows-refl w.session;
    same = λ w p e. refl;
  }
  accept-Verifies false packet reason = refuse-Verifies packet.envelope.id reason

  verify_auth-Verifies : (packet : Packet) (jid : Jid) → Verifies (verify_auth env packet jid)
  unfolding verify_auth
  verify_auth-Verifies packet jid =
      shared-Verifies _ _ λ _. shared-Verifies _ _ λ accepted. accept-Verifies accepted packet _

  verify_jid-Verifies : (packet : Packet) → Verifies (verify_jid env packet)
  unfolding verify_jid
  verify_jid-Verifies packet = go (new_jid packet.envelope.jid)
    where
      go :
          (j : Result Jid)
          → Verifies {env = env} (elim j [
            | err e ↦ refuse env packet.envelope.id fail_packet
            | ok jid ↦ verify_auth env packet jid
          ])
      go (err e) = refuse-Verifies _ _
      go (ok jid) = verify_auth-Verifies packet jid

  if-Verifies :
      (b : Bool) (x y : Exec (World env) (Option Packet))
      → Verifies x
      → Verifies y
      → Verifies (if b then x else y)
  if-Verifies true x y hx hy = hx
  if-Verifies false x y hx hy = hy

  verify-Verifies : (text : Bytes) → Verifies (verify env text)
  unfolding verify
  verify-Verifies text = go (new_packet env.json text)
    where
      go :
          (r : Result Packet)
          → Verifies {env = env} (elim r [
            | err e ↦ do id ← shared env (tick env); refuse env (env.uuid id) fail_packet
            | ok packet ↦
                if packet.envelope.msg_type == MsgType.open_session
                then verify_jid env packet
                else refuse env packet.envelope.id fail_type
          ])
      go (err e) = shared-Verifies _ _ λ id. refuse-Verifies _ _
      go (ok packet) = if-Verifies _ _ _ (verify_jid-Verifies packet) (refuse-Verifies _ _)

  -- What follows the change of the status in `openSession`.
  pub log_in_end-Advances :
      (envelope : Envelope)
      → Advances (do
        p ← shared env (with_offline env envelope.id envelope.jid)
        status ← read_session env (λ s. s.status)
        shared env (store_session_status env status)
        answer env p)
  log_in_end-Advances envelope = search (advances_rules, answer-Advances) depth 8

  Follows-login :
      (s : Session) (jid : Bytes) (ct : ℕ)
      → s.status.status ≡ conn
      → Follows s (record s { status = record s.status { jid = jid; status = login; ct = ct } })
  Follows-login s jid ct e = record {
    order = rw e (omega arith);
    sent = ([], sym (append-nil s.sent));
    silent = λ h. refl;
    shut = λ h. h;
    sid = refl;
    nodeid = refl;
    channel = refl;
    jid = λ h. absurd (h e);
    consistent = λ h. h ∙ rw e;
  }

  log_in-Follows :
      (envelope : Envelope) (w : World env)
      → w.session.status.status ≡ conn
      → Follows w.session (log_in env envelope w).1.session
  unfolding log_in
  log_in-Follows envelope w e =
      unfold ◌>>=◌ shared tick update_session in
      Follows-trans (Follows-login w.session envelope.jid (env.timestamp10 w.shared.calls) e)
        ((log_in_end-Advances envelope).at _)

  open_end-Follows :
      (s : Session) (o : Outcome (Option Packet)) (v : World env)
      → s.status.status ≡ conn
      → Follows s v.session
      → ((p : Packet) → o ≡ ret (some p) → v.session ≡ s)
      → Follows s
          (continue {S = World env}
            (λ verified. elim verified [
              | none ↦ pure tt
              | some packet ↦ log_in env packet.envelope
            ])
            o
            v).1.session
  unfolding pure
  open_end-Follows s (ret none) v e f same = f
  open_end-Follows s (ret (some p)) v e f same =
      Follows-trans f (log_in-Follows p.envelope v (rw (same p refl) e))
  open_end-Follows s panic v e f same = f

  pub open_session-Follows :
      (text : Bytes) (w : World env)
      → w.session.status.status ≡ conn
      → Follows w.session (open_session env text w).1.session
  unfolding open_session ◌>>=◌
  open_session-Follows text w e =
      open_end-Follows w.session (verify env text w).0 (verify env text w).1 e
        ((verify-Verifies text).follows w) ((verify-Verifies text).same w)
