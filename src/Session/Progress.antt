-- ===== src/Session/Progress.antt =====
-- How a session may change while it handles what it receives, for every method of core/session.go.
pub mod Methods
pub mod Opening
pub mod Handling
use sara.Common.{
  ℕ, zero, suc, ◌+◌, ◌≤◌, ◌≡◌, ◌≢◌, refl, sym, ap, ◌∙◌, Bool, true, false, List, [], ◌∷◌, ◌++◌,
  append-nil, append_assoc, Option, none, some, arith, if◌then◌else◌, Bytes, codes, bytes_eq, ◌==◌,
  ◌&&◌, Result, ok, err, Outcome, ret, panic, Exec, pure, fault, continue, for_each, ◌>>=◌, ◌>>◌,
}
use sara.Jid.{Jid, new_jid}
use sara.Packet.{Packet, Envelope, new_packet, end_flag}
use sara.Session.State.{
  Env, Shared, World, Session, SessionStatus, Status, conn, login, close, shared, deref,
  read_session, update_session, tick, service,
}
use sara.Session.Actions.{
  is_login, send_message, answer, close_session, close_open_session, clean, unregister, set_status,
  shut_connection, pkg_buff_add, pkg_buff_del, pkg_buff_to_store, route_packet, route_logged_in,
  route_outgoing, route_to, route_packet_list, equal_without_resource, kill_session,
}

abbrev pub rank : Status → ℕ
rank conn = 0
rank login = 1
rank close = 2

abbrev pub is_close : Status → Bool
is_close conn = false
is_close login = false
is_close close = true

-- The connection is shut exactly when the session is closed.
abbrev pub IsConsistent : Session → Type 0
IsConsistent s = s.closed ≡ is_close s.status.status

true≢false : true ≡ false → ⊥
true≢false e = cc

-- From `s` to `t`: the status does not go back; what was sent stays sent, and nothing is sent any
-- more once the connection is shut, which it stays; the ids and the channel do not change, and
-- neither does the address, once the session is logged in.
pub record Follows (s t : Session) : Type 0 where
  pub order : rank s.status.status ≤ rank t.status.status
  pub sent : (more : List Bytes) × (t.sent ≡ s.sent ++ more)
  pub silent : s.closed ≡ true → t.sent ≡ s.sent
  pub shut : s.closed ≡ true → t.closed ≡ true
  pub sid : t.status.sid ≡ s.status.sid
  pub nodeid : t.status.nodeid ≡ s.status.nodeid
  pub channel : t.status.channel ≡ s.status.channel
  pub jid : s.status.status ≢ conn → t.status.jid ≡ s.status.jid
  pub consistent : IsConsistent s → IsConsistent t

pub Follows-refl : (s : Session) → Follows s s
Follows-refl s = record {
  order = omega arith;
  sent = ([], sym (append-nil s.sent));
  silent = λ h. refl;
  shut = λ h. h;
  sid = refl;
  nodeid = refl;
  channel = refl;
  jid = λ h. refl;
  consistent = λ h. h;
}

pub not-conn : (a b : Status) → rank a ≤ rank b → a ≢ conn → b ≢ conn
not-conn conn b h n = absurd (n refl)
not-conn login conn h n = absurd (omega arith)
not-conn login login h n = λ e. cc
not-conn login close h n = λ e. cc
not-conn close conn h n = absurd (omega arith)
not-conn close login h n = λ e. cc
not-conn close close h n = λ e. cc

pub Follows-trans : {s t u : Session} → Follows s t → Follows t u → Follows s u
Follows-trans {s} {t} {u} f g = record {
  order = omega (arith, f.order, g.order);
  sent = (f.sent.0 ++ g.sent.0, g.sent.1 ∙ rw (f.sent.1, append_assoc));
  silent = λ h. g.silent (f.shut h) ∙ f.silent h;
  shut = λ h. g.shut (f.shut h);
  sid = g.sid ∙ f.sid;
  nodeid = g.nodeid ∙ f.nodeid;
  channel = g.channel ∙ f.channel;
  jid = λ h. g.jid (not-conn s.status.status t.status.status f.order h) ∙ f.jid h;
  consistent = λ h. g.consistent (f.consistent h);
}

-- Whether it returns or panics, a step takes the session to one that follows it.
pub record Advances {env : Env} {A : Type 0} (m : Exec (World env) A) : Type 0 where
  pub at : (w : World env) → Follows w.session (m w).1.session

module _ {env : Env} where
  pub continue-Follows :
      {A B : Type 0} (f : A → Exec (World env) B) (s : Session) (o : Outcome A) (v : World env)
      → ((a : A) → Advances (f a))
      → Follows s v.session
      → Follows s (continue f o v).1.session
  continue-Follows f s (ret a) v hf h = Follows-trans h ((hf a).at v)
  continue-Follows f s panic v hf h = h

  pub Advances-bind :
      {A B : Type 0} (m : Exec (World env) A) (f : A → Exec (World env) B)
      → Advances m
      → ((a : A) → Advances (f a))
      → Advances (m >>= f)
  unfolding ◌>>=◌
  Advances-bind m f hm hf = record {
    at = λ w. continue-Follows f w.session (m w).0 (m w).1 hf (hm.at w);
  }

  -- A step on the shared state leaves the session as it is.
  pub Advances-shared : {A : Type 0} (m : Exec (Shared env) A) → Advances (shared env m)
  unfolding shared
  Advances-shared m = record { at = λ w. Follows-refl w.session }

  pub Advances-pure : {A : Type 0} (a : A) → Advances {env = env} (pure a)
  unfolding pure
  Advances-pure a = record { at = λ w. Follows-refl w.session }

  pub Advances-read : {A : Type 0} (f : Session → A) → Advances (read_session env f)
  unfolding read_session
  Advances-read f = record { at = λ w. Follows-refl w.session }

  pub Advances-deref : (j : Result Jid) → Advances {env = env} (deref j)
  unfolding deref pure fault
  Advances-deref (ok j) = record { at = λ w. Follows-refl w.session }
  Advances-deref (err e) = record { at = λ w. Follows-refl w.session }

  pub Advances-if :
      {A : Type 0} (b : Bool) (x y : Exec (World env) A)
      → Advances x
      → Advances y
      → Advances (if b then x else y)
  Advances-if true x y hx hy = hx
  Advances-if false x y hx hy = hy

  pub Advances-update :
      (f : Session → Session) → ((s : Session) → Follows s (f s)) → Advances (update_session env f)
  unfolding update_session
  Advances-update f h = record { at = λ w. h w.session }

pub ruleset advances_rules =
    (Advances-bind, Advances-shared, Advances-pure, Advances-read, Advances-deref, Advances-if)

-- A change of neither the status, what was sent nor whether the connection is shut.
pub Follows-same :
    (s t : Session) → t.status ≡ s.status → t.sent ≡ s.sent → t.closed ≡ s.closed → Follows s t
Follows-same s t a b c = record {
  order = rw a (omega arith);
  sent = ([], b ∙ sym (append-nil s.sent));
  silent = λ h. b;
  shut = λ h. c ∙ h;
  sid = rw a;
  nodeid = rw a;
  channel = rw a;
  jid = λ h. rw a;
  consistent = λ h. rw (a, c) h;
}

-- A write, if the connection is open.
pub Follows-sent :
    (s : Session) (text : Bytes)
    → Follows s (if s.closed then s else record s { sent = s.sent ++ text ∷ [] })
Follows-sent s text = go s.closed refl
  where
    go :
        (b : Bool)
        → s.closed ≡ b
        → Follows s (if b then s else record s { sent = s.sent ++ text ∷ [] })
    go true e = Follows-refl s
    go false e = record {
      order = omega arith;
      sent = (text ∷ [], refl);
      silent = λ h. absurd (true≢false (sym h ∙ e));
      shut = λ h. h;
      sid = refl;
      nodeid = refl;
      channel = refl;
      jid = λ h. refl;
      consistent = λ h. h;
    }

rank-le-close : (s : Status) → rank s ≤ 2
rank-le-close conn = omega arith
rank-le-close login = omega arith
rank-le-close close = omega arith

pub Follows-closed :
    (s : Session)
    → Follows s (record s { status = record s.status { status = close }; closed = true })
Follows-closed s = record {
  order = rank-le-close s.status.status;
  sent = ([], sym (append-nil s.sent));
  silent = λ h. refl;
  shut = λ h. refl;
  sid = refl;
  nodeid = refl;
  channel = refl;
  jid = λ h. refl;
  consistent = λ h. refl;
}
