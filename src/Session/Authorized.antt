-- ===== src/Session/Authorized.antt =====
-- Who may log in: what a session needs to become one that is logged in.
use sara.Common.{
  ◌≡◌, refl, ap, ◌∙◌, subst, ℕ, Bool, true, false, Option, none, some, arith, if◌then◌else◌, Bytes,
  ◌==◌, Result, ok, err, Outcome, ret, panic, Exec, pure, continue, ◌>>=◌,
}
use sara.Jid.{Jid, new_jid}
use sara.Packet.{Packet, Envelope, new_packet, fail_packet, fail_type, fail_token}
use sara.Packet.MsgType
use sara.Session.State.{Env, World, Session, login, shared, update_session, tick, service}
use sara.Session.Login.{open_session, verify, verify_jid, verify_auth, refuse, log_in}
use sara.Session.Progress.Opening.{log_in_end-Advances}
use sara.Session.Stays.{
  Out, Stays, Stays-bind, Stays-shared, Stays-pure, answer-Stays, close_session-Stays,
  continue-Stays,
}

module _ (env : Env) where
  -- The callback service let the packet's user in.
  pub record IsGranted (packet : Packet) : Type 0 where
    pub jid : Jid
    pub readable : new_jid packet.envelope.jid ≡ ok jid
    pub call : ℕ
    pub accepted : env.auth jid.user packet.envelope.pwd call ≡ ret true

  -- A request for a login that the callback service grants.
  pub record IsLogin (text : Bytes) (packet : Packet) : Type 0 where
    pub decoded : new_packet env.json text ≡ ok packet
    pub opens : packet.envelope.msg_type ≡ MsgType.open_session
    pub granted : IsGranted packet

  -- A step that logs no session in, and returns only packets of which `P` holds.
  record Judges (P : Packet → Type 0) (m : Exec (World env) (Option Packet)) : Type 0 where
    stays : Stays m
    only : (w : World env) (p : Packet) → (m w).0 ≡ ret (some p) → P p

  continue-only :
      {A : Type 0} {P : Packet → Type 0} (f : A → Exec (World env) (Option Packet)) (o : Outcome A)
      (v : World env) (p : Packet)
      → ((a : A) → o ≡ ret a → Judges P (f a))
      → (continue f o v).0 ≡ ret (some p)
      → P p
  continue-only f (ret a) v p h e = (h a refl).only v p e
  continue-only f panic v p h e = absurd (cc)

  Judges-bind :
      {A : Type 0} {P : Packet → Type 0} (m : Exec (World env) A)
      (f : A → Exec (World env) (Option Packet))
      → Stays m
      → ((a : A) → Judges P (f a))
      → Judges P (m >>= f)
  unfolding ◌>>=◌
  Judges-bind m f hm h = record {
    stays = Stays-bind m f hm λ a. (h a).stays;
    only = λ w p. continue-only f (m w).0 (m w).1 p λ a e. h a;
  }

  Judges-none : {P : Packet → Type 0} → Judges P (pure none)
  unfolding pure
  Judges-none = record { stays = Stays-pure none; only = λ w p e. absurd (cc) }

  refuse-Judges : {P : Packet → Type 0} (id reason : Bytes) → Judges P (refuse env id reason)
  unfolding refuse
  refuse-Judges id reason =
      Judges-bind _ _ (answer-Stays env _)
        λ _. Judges-bind _ _ (close_session-Stays env) λ _. Judges-none

  accept-Judges :
      (P : Packet → Type 0) (b : Bool) (packet : Packet) (reason : Bytes)
      → (b ≡ true → P packet)
      → Judges P (if b then pure (some packet) else refuse env packet.envelope.id reason)
  unfolding pure
  accept-Judges P true packet reason h = record {
    stays = Stays-pure (some packet);
    only = λ w p e. subst P (cc) (h refl);
  }
  accept-Judges P false packet reason h = refuse-Judges packet.envelope.id reason

  -- The answer of the callback service decides.
  service-Judges :
      (P : Packet → Type 0) (f : ℕ → Outcome Bool) (packet : Packet) (reason : Bytes)
      → ((call : ℕ) → f call ≡ ret true → P packet)
      → Judges P (do
        accepted ← shared env (service env f)
        if accepted then pure (some packet) else refuse env packet.envelope.id reason)
  unfolding ◌>>=◌ shared service
  service-Judges P f packet reason h = record {
    stays = record {
      at = λ w.
          continue-Stays _ (f w.shared.calls) _
            λ accepted. (accept-Judges (λ _. Unit {0}) accepted packet reason (λ _. tt)).stays;
    };
    only = λ w p.
        continue-only _ (f w.shared.calls) _ p
          λ accepted e. accept-Judges P accepted packet reason λ t. h w.shared.calls (e ∙ ap ret t);
  }

  verify_auth-Judges :
      (P : Packet → Type 0) (packet : Packet) (jid : Jid)
      → new_jid packet.envelope.jid ≡ ok jid
      → (IsGranted packet → P packet)
      → Judges P (verify_auth env packet jid)
  unfolding verify_auth
  verify_auth-Judges P packet jid e h = Judges-bind _ _ (Stays-shared _) λ _.
      service-Judges P (env.auth jid.user packet.envelope.pwd) packet fail_token
        λ call t. h (record { jid = jid; readable = e; call = call; accepted = t })

  verify_jid-Judges :
      (P : Packet → Type 0) (packet : Packet)
      → (IsGranted packet → P packet)
      → Judges P (verify_jid env packet)
  unfolding verify_jid
  verify_jid-Judges P packet h = go (new_jid packet.envelope.jid) refl
    where
      go :
          (j : Result Jid)
          → new_jid packet.envelope.jid ≡ j
          → Judges P (elim j [
            | err e ↦ refuse env packet.envelope.id fail_packet
            | ok jid ↦ verify_auth env packet jid
          ])
      go (err m) e = refuse-Judges _ _
      go (ok jid) e = verify_auth-Judges P packet jid e h

  verify-Judges : (text : Bytes) → Judges (IsLogin text) (verify env text)
  unfolding verify
  verify-Judges text = go (new_packet env.json text) refl
    where
      typed :
          (packet : Packet) (opens : Bool)
          → (packet.envelope.msg_type == MsgType.open_session) ≡ opens
          → new_packet env.json text ≡ ok packet
          → Judges
              (IsLogin text)
              (if opens then verify_jid env packet else refuse env packet.envelope.id fail_type)
      typed packet true t e =
          verify_jid-Judges (IsLogin text) packet
            λ g. record { decoded = e; opens = ground (arith, t); granted = g }
      typed packet false t e = refuse-Judges _ _

      go :
          (r : Result Packet)
          → new_packet env.json text ≡ r
          → Judges (IsLogin text) (elim r [
            | err e ↦ do id ← shared env (tick env); refuse env (env.uuid id) fail_packet
            | ok packet ↦
                if packet.envelope.msg_type == MsgType.open_session
                then verify_jid env packet
                else refuse env packet.envelope.id fail_type
          ])
      go (err m) e = Judges-bind _ _ (Stays-shared _) λ id. refuse-Judges _ _
      go (ok packet) e = typed packet (packet.envelope.msg_type == MsgType.open_session) refl e

  -- The session has the address that the request asked for.
  pub record LogsIn (text : Bytes) (s : Session) : Type 0 where
    pub packet : Packet
    pub request : IsLogin text packet
    pub address : s.status.jid ≡ packet.envelope.jid

  log_in-jid :
      (envelope : Envelope) (w : World env)
      → (log_in env envelope w).1.session.status.jid ≡ envelope.jid
  unfolding log_in
  log_in-jid envelope w =
      unfold ◌>>=◌ shared tick update_session in
      ((log_in_end-Advances env envelope).at _).jid λ e. cc

  opened :
      (text : Bytes) (o : Outcome (Option Packet)) (v : World env)
      → Out v.session
      → ((p : Packet) → o ≡ ret (some p) → IsLogin text p)
      → (continue {S = World env}
          (λ verified. elim verified [ none ↦ pure tt | some packet ↦ log_in env packet.envelope ])
          o
          v).1.session.status.status
        ≡ login
      → LogsIn text
          (continue {S = World env}
            (λ verified. elim verified [
              | none ↦ pure tt
              | some packet ↦ log_in env packet.envelope
            ])
            o
            v).1.session
  unfolding pure
  opened text (ret none) v out h e = absurd (out e)
  opened text (ret (some p)) v out h e = record {
    packet = p;
    request = h p refl;
    address = log_in-jid p.envelope v;
  }
  opened text panic v out h e = absurd (out e)

  -- A first request that leaves the session logged in, also by a panic, was a request for a login that
  -- the callback service granted, and the session has its address.
  pub open_session-LogsIn :
      (text : Bytes) (w : World env)
      → Out w.session
      → (open_session env text w).1.session.status.status ≡ login
      → LogsIn text (open_session env text w).1.session
  unfolding open_session ◌>>=◌
  open_session-LogsIn text w out =
      opened text (verify env text w).0 (verify env text w).1 ((verify-Judges text).stays.at w out)
        ((verify-Judges text).only w)
