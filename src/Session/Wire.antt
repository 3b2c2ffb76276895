-- ===== src/Session/Wire.antt =====
-- core/session.go, `NewTcpSession` and `NewWsSession`: a session with its connection, whose read loop
-- calls the handler. The constructor is done before the first read here; in the source the loop
-- starts in the middle of it.
pub mod Cuts
mod Tests
use sara.Common.{
  ℕ, ◌≡◌, refl, sym, ap, ◌∙◌, List, [], ◌∷◌, ◌++◌, map, Option, none, some, Bytes, Outcome, ret,
  panic, Exec, pure, continue, for_each, ◌>>=◌, ◌>>◌,
}
use sara.Conn.{ReadPacketResult, TcpSessionConn, Read, recv_tcp, recv_ws, new_tcp}
use sara.Conn.Stream.{handed}
use sara.Session.State.{Env, World, Session, Shared, update_session, packet_handler_timeout}
use sara.Session.Actions.{close_session}
use sara.Session.Handler.{
  packet_handler, handle_packet, handle_result, set_session_timeout, new_session, timeout_of,
}
use sara.Session.Blind.{Blind, with_timeout}
use sara.Session.Blind.Handling.{handle_packets-Blind}

module _ (env : Env) where
  -- `ReadPacket`: the loop calls the handler on each result.
  unfoldable pub serve_tcp : TcpSessionConn → List Read → Exec (World env) (Unit {0})
  serve_tcp conn reads = for_each (packet_handler env) (recv_tcp conn reads).0

  unfoldable pub serve_ws : List Read → Exec (World env) (Unit {0})
  serve_ws reads = for_each (packet_handler env) (recv_ws reads)

  -- The life of a session whose connection reads this, in the state that the node's sessions share.
  unfoldable pub tcp_session : Bytes → Bytes → Bytes → List Read → Shared env → World env
  unfolding serve_tcp
  tcp_session sid nodeid channel reads shared =
      (serve_tcp new_tcp reads
        (record { shared = shared; session = new_session sid nodeid channel })).1

  unfoldable pub ws_session : Bytes → Bytes → Bytes → List Read → Shared env → World env
  unfolding serve_ws
  ws_session sid nodeid channel reads shared =
      (serve_ws reads (record { shared = shared; session = new_session sid nodeid channel })).1

  -- Results with packets, and no error.
  abbrev pub IsClean : List ReadPacketResult → Type 0
  IsClean [] = Unit {0}
  IsClean (r ∷ rs) = (r.error ≡ none) × IsClean rs

  abbrev pub handle : List Bytes → Exec (World env) (Unit {0})
  handle = for_each (handle_packet env)

  -- A bind that returns: its first step returned, and so did the second.
  bind_returns :
      (o : Outcome (Unit {0})) (f : Unit {0} → Exec (World env) (Unit {0})) (v : World env)
      → (continue f o v).0 ≡ ret tt
      → (o ≡ ret tt) × ((f tt v).0 ≡ ret tt) × ((continue f o v).1 ≡ (f tt v).1)
  bind_returns (ret tt) f v h = (refl, h, refl)
  bind_returns panic f v h = absurd (cc)

  pub for_each-append :
      {A : Type 0} (body : A → Exec (World env) (Unit {0})) (xs ys : List A) (w : World env)
      → for_each body (xs ++ ys) w
        ≡ continue (λ _. for_each body ys) (for_each body xs w).0 (for_each body xs w).1
  unfolding for_each ◌>>=◌ pure
  for_each-append body [] ys w = refl
  for_each-append body (x ∷ xs) ys w = go (body x w).0 (body x w).1 (for_each-append body xs ys)
    where
      go :
          (o : Outcome (Unit {0})) (v : World env)
          → ((u : World env)
              → for_each body (xs ++ ys) u
                ≡ continue (λ _. for_each body ys) (for_each body xs u).0 (for_each body xs u).1)
          → continue (λ _. for_each body (xs ++ ys)) o v
            ≡ continue
                (λ _. for_each body ys)
                (continue (λ _. for_each body xs) o v).0
                (continue (λ _. for_each body xs) o v).1
      go (ret tt) v rec = rec v
      go panic v rec = refl

  no_error :
      (error : Option Bytes) (packets : List Bytes) (w : World env)
      → error ≡ none
      → (let step : Exec (World env) (Unit {0}) = elim error [
        | some e ↦ close_session env
        | none ↦ handle packets
      ] in
          step w ≡ handle packets w)
  no_error none packets w e = refl
  no_error (some x) packets w e = absurd (cc)

  result_returns :
      (r : ReadPacketResult) (sec : ℕ) (w : World env)
      → r.error ≡ none
      → (handle r.packets w).0 ≡ ret tt
      → handle_result env r (with_timeout sec w) ≡ (ret tt, with_timeout sec (handle r.packets w).1)
  unfolding handle_result
  result_returns r sec w e h =
      no_error r.error r.packets (with_timeout sec w) e
      ∙ (handle_packets-Blind env r.packets).at sec w
      ∙ rw h

  end_returns :
      (done : Outcome (Unit {0}) × World env) (v : World env)
      → done ≡ (ret tt, v)
      → (let last : Outcome (Unit {0}) × World env = elim done.0 [
        | ret _ ↦ set_session_timeout env 0 done.1
        | panic ↦ (ret tt, done.1)
      ] in
          last ≡ (ret tt, with_timeout (timeout_of v.session.status.status 0) v))
  unfolding set_session_timeout update_session
  end_returns (ret tt, u) v e =
      ap (λ d. (ret tt, with_timeout (timeout_of d.1.session.status.status 0) d.1)) e
  end_returns (panic, u) v e = absurd (cc)

  -- A call of the handler in which nothing panics.
  handler_returns :
      (r : ReadPacketResult) (w : World env)
      → r.error ≡ none
      → (handle r.packets w).0 ≡ ret tt
      → (sec : ℕ) × (packet_handler env r w ≡ (ret tt, with_timeout sec (handle r.packets w).1))
  unfolding packet_handler set_session_timeout update_session
  handler_returns r w e h = (
    timeout_of (handle r.packets w).1.session.status.status 0,
    end_returns _ _
        (result_returns r (timeout_of w.session.status.status packet_handler_timeout) w e h),
  )

  -- Results one by one, or the packets in them.
  pub handled_one_by_one :
      (rs : List ReadPacketResult) (w : World env)
      → IsClean rs
      → (handle (handed rs) w).0 ≡ ret tt
      → (sec : ℕ) × (for_each (packet_handler env) rs w
          ≡ (ret tt, with_timeout sec (handle (handed rs) w).1))
  unfolding for_each ◌>>=◌ pure
  handled_one_by_one [] w c h = (w.session.read_timeout, refl)
  handled_one_by_one (r ∷ rs) w (e, c) h =
      let v = (handle r.packets w).1 in
      let (first, later, together) =
        bind_returns (handle r.packets w).0 (λ _. handle (handed rs)) v
          (rw (← for_each-append (handle_packet env) r.packets (handed rs) w) h) in
      let (sec, returned) = handler_returns r w e first in
      let blind = (handle_packets-Blind env (handed rs)).at sec v in
      let (sec', rest) = handled_one_by_one rs (with_timeout sec v) c (rw blind later) in
      (
        sec',
        rw (
          returned,
          rest,
          blind,
          for_each-append (handle_packet env) r.packets (handed rs) w,
          together,
        ),
      )
