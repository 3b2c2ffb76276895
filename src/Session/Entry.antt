-- ===== src/Session/Entry.antt =====
-- The only way in: what a call of the handler needs to log a session in.
use sara.Common.{
  ◌≡◌, ◌≢◌, ◌⊎◌, inl, inr, refl, sym, ap, ◌∙◌, List, [], ◌∷◌, Option, none, some, arith,
  if◌then◌else◌, Bytes, bytes_eq, Outcome, ret, panic, Exec, pure, continue, for_each, ◌>>=◌,
}
use mathlib.Core.List.{Memᴰ}
use sara.Packet.{heart_beat}
use sara.Conn.{ReadPacketResult}
use sara.Session.State.{
  Env, World, Session, Status, conn, login, close, read_session, update_session,
  packet_handler_timeout,
}
use sara.Session.Actions.{close_session}
use sara.Session.Login.{open_session}
use sara.Session.Handler.{
  handle_packet, handle_result, packet_handler, set_session_timeout, handle_message, heartbeat,
}
use sara.Session.Progress.{rank, Follows, Follows-refl, continue-Follows}
use sara.Session.Progress.Methods.{for_each-Advances}
use sara.Session.Progress.Handling.{handle_packet-Advances, logged_in-Advances}
use sara.Session.Stays.{Out, close_session-Stays}
use sara.Session.Authorized.{LogsIn, open_session-LogsIn}

is_in : (p : Status) → (p ≡ login) ⊎ (p ≢ login)
is_in conn = inr λ e. cc
is_in login = inl refl
is_in close = inr λ e. cc

module _ (env : Env) where
  -- A text lets the session in that is logged in afterwards.
  abbrev pub LetIn : List Bytes → Session → Type 0
  LetIn texts s = (text : Bytes) × Memᴰ text texts × LogsIn env text s

  -- Nothing changes the address of a session that is logged in.
  LogsIn-Follows :
      (text : Bytes) (s t : Session)
      → s.status.status ≡ login
      → Follows s t
      → LogsIn env text s
      → LogsIn env text t
  LogsIn-Follows text s t e f h = record {
    packet = h.packet;
    request = h.request;
    address = f.jid (λ n. login_conn (sym e ∙ n)) ∙ h.address;
  }
    where
      login_conn : login ≡ conn → ⊥
      login_conn e = cc

  -- A session that is closed stays closed.
  close_stays : (s t : Session) → s.status.status ≡ close → Follows s t → t.status.status ≢ login
  close_stays s t e f h = absurd (omega (arith, ap rank e, ap rank h, f.order))

  first_packet :
      (text : Bytes) (w : World env) (phase : Status)
      → w.session.status.status ≡ phase
      → Out w.session
      → (let step : Exec (World env) (Unit {0}) = elim phase [
        | conn ↦ open_session env text
        | _ ↦ if bytes_eq text (heart_beat ∷ []) then heartbeat env else handle_message env text
      ] in
          (step w).1.session.status.status ≡ login → LogsIn env text (step w).1.session)
  first_packet text w conn p out e = open_session-LogsIn env text w out e
  first_packet text w login p out e = absurd (out p)
  first_packet text w close p out e =
      absurd (close_stays w.session _ p ((logged_in-Advances env text).at w) e)

  handle_packet-LogsIn :
      (text : Bytes) (w : World env)
      → Out w.session
      → (handle_packet env text w).1.session.status.status ≡ login
      → LogsIn env text (handle_packet env text w).1.session
  unfolding handle_packet ◌>>=◌ read_session
  handle_packet-LogsIn text w = first_packet text w w.session.status.status refl

  later : {text : Bytes} {texts : List Bytes} {s : Session} → LetIn texts s → LetIn (text ∷ texts) s
  later (text, m, h) = (text, Memᴰ.tail m, h)

  rest-LetIn :
      (text : Bytes) (texts : List Bytes) (o : Outcome (Unit {0})) (v : World env)
      → ((u : World env)
          → Out u.session
          → (for_each (handle_packet env) texts u).1.session.status.status ≡ login
          → LetIn texts (for_each (handle_packet env) texts u).1.session)
      → (v.session.status.status ≡ login → LogsIn env text v.session)
      → (v.session.status.status ≡ login) ⊎ Out v.session
      → (continue (λ _. for_each (handle_packet env) texts) o v).1.session.status.status ≡ login
      → LetIn (text ∷ texts) (continue (λ _. for_each (handle_packet env) texts) o v).1.session
  rest-LetIn text texts o v rec let_in (inl e) h = (
    text,
    Memᴰ.head refl,
    LogsIn-Follows text v.session _ e
        (continue-Follows _ v.session o v
          (λ _. for_each-Advances env (handle_packet env) texts (handle_packet-Advances env))
          (Follows-refl v.session))
        (let_in e),
  )
  rest-LetIn text texts (ret tt) v rec let_in (inr out) h = later (rec v out h)
  rest-LetIn text texts panic v rec let_in (inr out) h = absurd (out h)

  packets-LetIn :
      (texts : List Bytes) (w : World env)
      → Out w.session
      → (for_each (handle_packet env) texts w).1.session.status.status ≡ login
      → LetIn texts (for_each (handle_packet env) texts w).1.session
  unfolding for_each ◌>>=◌ pure
  packets-LetIn [] w out e = absurd (out e)
  packets-LetIn (text ∷ texts) w out e =
      let v = (handle_packet env text w).1 in
      rest-LetIn text texts (handle_packet env text w).0 v (packets-LetIn texts)
        (handle_packet-LogsIn text w out) (is_in v.session.status.status) e

  result-LetIn :
      (error : Option Bytes) (texts : List Bytes) (w : World env)
      → Out w.session
      → (let step : Exec (World env) (Unit {0}) = elim error [
        | some e ↦ close_session env
        | none ↦ for_each (handle_packet env) texts
      ] in
          (step w).1.session.status.status ≡ login → LetIn texts (step w).1.session)
  result-LetIn (some e) texts w out h = absurd ((close_session-Stays env).at w out h)
  result-LetIn none texts w out h = packets-LetIn texts w out h

  handler_end-LetIn :
      (texts : List Bytes) (o : Outcome (Unit {0})) (v : World env)
      → (v.session.status.status ≡ login → LetIn texts v.session)
      → (let last : Outcome (Unit {0}) × World env = elim o [
        | ret _ ↦ set_session_timeout env 0 v
        | panic ↦ (ret tt, v)
      ] in
          last.1.session.status.status ≡ login → LetIn texts last.1.session)
  unfolding set_session_timeout update_session
  handler_end-LetIn texts (ret _) v h e =
      let (text, m, l) = h e in
      (text, m, record { packet = l.packet; request = l.request; address = l.address })
  handler_end-LetIn texts panic v h e = h e

  -- A call of the handler that logs the session in.
  pub packet_handler-LetIn :
      (result : ReadPacketResult) (w : World env)
      → Out w.session
      → (packet_handler env result w).1.session.status.status ≡ login
      → LetIn result.packets (packet_handler env result w).1.session
  unfolding packet_handler handle_result set_session_timeout update_session
  packet_handler-LetIn result w out =
      let begun = set_session_timeout env packet_handler_timeout w in
      let done = handle_result env result begun.1 in
      handler_end-LetIn result.packets done.0 done.1
        (result-LetIn result.error result.packets begun.1 out)
