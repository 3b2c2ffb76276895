-- ===== src/Session/Opened.antt =====
-- What a first request leaves behind.
use sara.Common.{
  subst, ◌≤◌, ◌≡◌, ◌≢◌, refl, Bool, true, false, Option, none, some, arith, if◌then◌else◌, ◌==◌,
  Bytes, Result, ok, err, Outcome, ret, panic, Exec, pure, continue, ◌>>=◌, ◌>>◌,
}
use sara.Jid.{Jid, new_jid}
use sara.Packet.{Packet, Envelope, new_packet, fail_packet, fail_type, fail_token}
use sara.Packet.MsgType
use sara.Session.State.{
  Env, World, Session, SessionStatus, Status, conn, login, close, shared, tick, read_session,
  update_session,
}
use sara.Session.Actions.{
  close_session, close_open_session, set_status, shut_connection, pkg_buff_to_store,
}
use sara.Session.Login.{open_session, verify, verify_jid, verify_auth, refuse, log_in}
use sara.Session.Progress.{rank, Advances, advances_rules}
use sara.Session.Progress.Methods.{answer-Advances}

-- If a step returns, what it returns and the session it leaves satisfy `Q`.
pub record Ends {env : Env} {A : Type 0} (Q : A → Session → Type 0) (m : Exec (World env) A)
    : Type 0 where
  pub at : (w : World env) (a : A) → (m w).0 ≡ ret a → Q a (m w).1.session

abbrev pub Closed : {A : Type 0} → A → Session → Type 0
Closed a s = s.status.status ≡ close

-- No packet is returned only where the session is closed.
abbrev ClosedOr : Option Packet → Session → Type 0
ClosedOr none s = s.status.status ≡ close
ClosedOr (some p) s = Unit {0}

module _ {env : Env} where
  continue-Ends :
      {A B : Type 0} {Q : A → Session → Type 0} (f : B → Exec (World env) A) (o : Outcome B)
      (w : World env) (a : A)
      → ((b : B) → o ≡ ret b → Ends Q (f b))
      → (continue f o w).0 ≡ ret a
      → Q a (continue f o w).1.session
  continue-Ends f (ret b) w a h e = (h b refl).at w a e
  continue-Ends f panic w a h e = absurd (cc)

  Ends-after :
      {A B : Type 0} {Q : A → Session → Type 0} (m : Exec (World env) B)
      (f : B → Exec (World env) A)
      → ((b : B) → Ends Q (f b))
      → Ends Q (m >>= f)
  unfolding ◌>>=◌
  Ends-after m f hf = record { at = λ w a. continue-Ends f (m w).0 (m w).1 a (λ b e. hf b) }

  -- A value is returned behind a step.
  continue-return :
      {A B : Type 0} (Q : A → Session → Type 0) (a : A) (o : Outcome B) (v : World env) (a' : A)
      → ((b : B) → o ≡ ret b → Q a v.session)
      → (continue (λ _. pure a) o v).0 ≡ ret a'
      → Q a' (continue (λ _. pure a) o v).1.session
  unfolding pure
  continue-return Q a (ret b) v a' h e = subst (λ x. Q x v.session) (cc) (h b refl)
  continue-return Q a panic v a' h e = absurd (cc)

  Ends-return :
      {A B : Type 0} {R : B → Session → Type 0} {Q : A → Session → Type 0} (m : Exec (World env) B)
      (a : A)
      → Ends R m
      → ((b : B) (s : Session) → R b s → Q a s)
      → Ends Q (m >>= λ _. pure a)
  unfolding ◌>>=◌
  Ends-return {Q = Q} m a hm h = record {
    at = λ w a'. continue-return Q a (m w).0 (m w).1 a' (λ b e. h b _ (hm.at w b e));
  }

  Ends-pure :
      {A : Type 0} {Q : A → Session → Type 0} (a : A)
      → ((s : Session) → Q a s)
      → Ends {env = env} Q (pure a)
  unfolding pure
  Ends-pure {Q = Q} a h = record { at = λ w b e. subst (λ x. Q x w.session) (cc) (h w.session) }

  -- A step that keeps the order of the phases, behind one that has passed a phase.
  Ends-Advances :
      {A : Type 0} (f : Session → Session) (m : Exec (World env) A)
      → ((s : Session) → 1 ≤ rank (f s).status.status)
      → Advances m
      → Ends (λ _ s. 1 ≤ rank s.status.status) (update_session env f >>= λ _. m)
  unfolding ◌>>=◌ update_session
  Ends-Advances f m h adv = record {
    at = λ w a e.
        let v = record w { session = f w.session } in omega (arith, h w.session, (adv.at v).order);
  }

module _ (env : Env) where
  close_end-Ends : Ends Closed (do
    set_status env close
    shut_connection env
    buff ← read_session env (λ s. s.pkg_buff)
    shared env (pkg_buff_to_store env buff))
  close_end-Ends = record {
    at =
        λ w a e. unfold ◌>>=◌ set_status update_session shut_connection read_session shared in refl;
  }

  close_open_session-Ends : (status : SessionStatus) → Ends Closed (close_open_session env status)
  unfolding close_open_session
  close_open_session-Ends status = Ends-after _ _ λ _. Ends-after _ _ λ _. close_end-Ends

  pub close_session-Ends : Ends Closed (close_session env)
  unfolding close_session ◌>>=◌ read_session pure
  close_session-Ends = record { at = λ w. go w w.session.status.status refl }
    where
      go :
          (w : World env) (phase : Status)
          → w.session.status.status ≡ phase
          → (a : Unit {0})
          → ((elim phase as (λ _. Exec (World env) (Unit {0})) [
            | close ↦ pure tt
            | _ ↦ close_open_session env w.session.status
          ])
              w).0
            ≡ ret a
          → ((elim phase as (λ _. Exec (World env) (Unit {0})) [
            | close ↦ pure tt
            | _ ↦ close_open_session env w.session.status
          ])
              w).1.session.status.status
            ≡ close
      go w conn h a e = (close_open_session-Ends w.session.status).at w a e
      go w login h a e = (close_open_session-Ends w.session.status).at w a e
      go w close h a e = h

  refuse-Ends : (id reason : Bytes) → Ends ClosedOr (refuse env id reason)
  unfolding refuse
  refuse-Ends id reason = Ends-after _ _ λ _. Ends-return _ none close_session-Ends λ _ s h. h

  verify_auth-Ends : (packet : Packet) (jid : Jid) → Ends ClosedOr (verify_auth env packet jid)
  unfolding verify_auth
  verify_auth-Ends packet jid = Ends-after _ _ λ _. Ends-after _ _ λ accepted. go accepted
    where
      go :
          (accepted : Bool)
          → Ends {env = env} ClosedOr
              (if accepted then pure (some packet) else refuse env packet.envelope.id fail_token)
      go true = Ends-pure (some packet) λ s. tt
      go false = refuse-Ends _ _

  verify_jid-Ends : (packet : Packet) → Ends ClosedOr (verify_jid env packet)
  unfolding verify_jid
  verify_jid-Ends packet = go (new_jid packet.envelope.jid)
    where
      go :
          (j : Result Jid)
          → Ends {env = env} {A = Option Packet} ClosedOr (elim j [
            | err e ↦ refuse env packet.envelope.id fail_packet
            | ok jid ↦ verify_auth env packet jid
          ])
      go (err e) = refuse-Ends _ _
      go (ok jid) = verify_auth-Ends packet jid

  verify-Ends : (p : Bytes) → Ends ClosedOr (verify env p)
  unfolding verify
  verify-Ends p = go (new_packet env.json p)
    where
      typed :
          (packet : Packet) (opens : Bool)
          → Ends {env = env} ClosedOr
              (if opens then verify_jid env packet else refuse env packet.envelope.id fail_type)
      typed packet true = verify_jid-Ends packet
      typed packet false = refuse-Ends _ _

      go :
          (r : Result Packet)
          → Ends {env = env} {A = Option Packet} ClosedOr (elim r [
            | err e ↦ do id ← shared env (tick env); refuse env (env.uuid id) fail_packet
            | ok packet ↦
                if packet.envelope.msg_type == MsgType.open_session
                then verify_jid env packet
                else refuse env packet.envelope.id fail_type
          ])
      go (err e) = Ends-after _ _ λ id. refuse-Ends _ _
      go (ok packet) = typed packet (packet.envelope.msg_type == MsgType.open_session)

  log_in-Ends : (envelope : Envelope) → Ends (λ _ s. 1 ≤ rank s.status.status) (log_in env envelope)
  unfolding log_in
  log_in-Ends envelope =
      Ends-after _ _
        λ now. Ends-Advances _ _ (λ s. omega arith) (search (advances_rules, answer-Advances))

  Ends-verified :
      (m : Exec (World env) (Option Packet))
      → Ends ClosedOr m
      → Ends
          (λ _ s. 1 ≤ rank s.status.status)
          (do
            verified ← m
            elim verified [ none ↦ pure tt | some packet ↦ log_in env packet.envelope ])
  unfolding ◌>>=◌ pure
  Ends-verified m hm = record { at = λ w a. go (m w).0 (m w).1 (hm.at w) a }
    where
      go :
          (o : Outcome (Option Packet)) (v : World env)
          → ((b : Option Packet) → o ≡ ret b → ClosedOr b v.session)
          → (a : Unit {0})
          → (continue
              (λ verified. elim verified as (λ _. Exec (World env) (Unit {0})) [
                | none ↦ pure tt
                | some packet ↦ log_in env packet.envelope
              ])
              o
              v).0
            ≡ ret a
          → 1
            ≤ rank
                (continue
                  (λ verified. elim verified as (λ _. Exec (World env) (Unit {0})) [
                    | none ↦ pure tt
                    | some packet ↦ log_in env packet.envelope
                  ])
                  o
                  v).1.session.status.status
      go (ret none) v h a e = rw (h none refl) (omega arith)
      go (ret (some packet)) v h a e = (log_in-Ends packet.envelope).at v a e
      go panic v h a e = absurd (cc)

  -- A first request that is handled without a panic leaves no session that waits for its login: the
  -- session is logged in, or closed.
  pub open_session-decides :
      (p : Bytes) (w : World env)
      → (open_session env p w).0 ≡ ret tt
      → (open_session env p w).1.session.status.status ≢ conn
  unfolding open_session
  open_session-decides p w e h =
      let done = (Ends-verified (verify env p) (verify-Ends p)).at w tt e in
      omega (arith, subst (λ status. 1 ≤ rank status) h done)
