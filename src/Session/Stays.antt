-- ===== src/Session/Stays.antt =====
-- Steps of core/session.go that log no session in.
use sara.Common.{
  ◌≢◌, Bool, true, false, List, if◌then◌else◌, Bytes, Outcome, ret, panic, Exec, pure, continue,
  ◌>>=◌, ◌>>◌,
}
use sara.Packet.{Packet}
use sara.Session.State.{
  Env, Shared, World, Session, SessionStatus, Status, conn, login, close, shared, read_session,
  update_session,
}
use sara.Session.Actions.{
  send_message, answer, close_session, close_open_session, set_status, shut_connection,
  pkg_buff_to_store,
}
use sara.Session.Login.{refuse}

-- A session that is not logged in.
abbrev pub Out : Session → Type 0
Out s = s.status.status ≢ login

-- A step that logs no session in, also if it panics.
pub record Stays {env : Env} {A : Type 0} (m : Exec (World env) A) : Type 0 where
  pub at : (w : World env) → Out w.session → Out (m w).1.session

module _ {env : Env} where
  pub continue-Stays :
      {A B : Type 0} (f : A → Exec (World env) B) (o : Outcome A) (v : World env)
      → ((a : A) → Stays (f a))
      → Out v.session
      → Out (continue f o v).1.session
  continue-Stays f (ret a) v hf h = (hf a).at v h
  continue-Stays f panic v hf h = h

  pub Stays-bind :
      {A B : Type 0} (m : Exec (World env) A) (f : A → Exec (World env) B)
      → Stays m
      → ((a : A) → Stays (f a))
      → Stays (m >>= f)
  unfolding ◌>>=◌
  Stays-bind m f hm hf = record { at = λ w h. continue-Stays f (m w).0 (m w).1 hf (hm.at w h) }

  pub Stays-shared : {A : Type 0} (m : Exec (Shared env) A) → Stays (shared env m)
  unfolding shared
  Stays-shared m = record { at = λ w h. h }

  pub Stays-pure : {A : Type 0} (a : A) → Stays {env = env} (pure a)
  unfolding pure
  Stays-pure a = record { at = λ w h. h }

  pub Stays-read : {A : Type 0} (f : Session → A) → Stays (read_session env f)
  unfolding read_session
  Stays-read f = record { at = λ w h. h }

  pub Stays-update :
      (f : Session → Session) → ((s : Session) → Out s → Out (f s)) → Stays (update_session env f)
  unfolding update_session
  Stays-update f h = record { at = λ w. h w.session }

  pub Stays-if :
      {A : Type 0} (b : Bool) (x y : Exec (World env) A)
      → Stays x
      → Stays y
      → Stays (if b then x else y)
  Stays-if true x y hx hy = hx
  Stays-if false x y hx hy = hy

pub ruleset stays_rules = (Stays-bind, Stays-shared, Stays-pure, Stays-read, Stays-if)

pub close≢login : close ≢ login
close≢login e = cc

module _ (env : Env) where
  pub answer-Stays : (p : Packet) → Stays (answer env p)
  unfolding answer send_message
  answer-Stays p = Stays-update _ λ s. go s s.closed _
    where
      go :
          (s : Session) (b : Bool) (sent : List Bytes)
          → Out s
          → Out (if b then s else record s { sent = sent })
      go s true sent h = h
      go s false sent h = h

  close_end-Stays : Stays (do
    set_status env close
    shut_connection env
    buff ← read_session env (λ s. s.pkg_buff)
    shared env (pkg_buff_to_store env buff))
  close_end-Stays = record {
    at = λ w h.
        unfold ◌>>=◌ set_status update_session shut_connection read_session shared in close≢login;
  }

  close_open_session-Stays : (status : SessionStatus) → Stays (close_open_session env status)
  unfolding close_open_session
  close_open_session-Stays status = search (stays_rules, close_end-Stays)

  close_rest-Stays :
      (status : SessionStatus) (phase : Status)
      → Stays {env = env} (elim phase [ close ↦ pure tt | _ ↦ close_open_session env status ])
  close_rest-Stays status conn = close_open_session-Stays status
  close_rest-Stays status login = close_open_session-Stays status
  close_rest-Stays status close = Stays-pure tt

  pub close_session-Stays : Stays (close_session env)
  unfolding close_session
  close_session-Stays =
      Stays-bind _ _ (Stays-read _) λ status. close_rest-Stays status status.status

  pub refuse-Stays : (id reason : Bytes) → Stays (refuse env id reason)
  unfolding refuse
  refuse-Stays id reason = search (stays_rules, answer-Stays, close_session-Stays)
