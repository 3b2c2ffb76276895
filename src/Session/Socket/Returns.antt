-- ===== src/Session/Socket/Returns.antt =====
-- The handler of a connection returns.
use sara.Common.{
  ◌≡◌, refl, ap, List, [], ◌∷◌, Outcome, ret, panic, Exec, pure, for_each, ◌>>=◌, bind-ret,
}
use sara.Conn.{ReadPacketResult}
use sara.Conn.Socket.{Net, callback_handler, close_conn}
use sara.Session.State.{Env, World, update_session}
use sara.Session.Handler.{packet_handler, set_session_timeout}
use sara.Session.Socket.{On, handler_on}

-- A loop over one element.
pub single :
    {S A : Type 0} (body : A → Exec S (Unit {0})) (x : A) (s t : S)
    → body x s ≡ (ret tt, t)
    → for_each body (x ∷ []) s ≡ (ret tt, t)
unfolding for_each pure
single body x s t e = bind-ret (body x) (λ _. pure tt) s t tt e

module _ (net : Net) (env : Env) where
  returns_last :
      (o : Outcome (Unit {0})) (v : World env)
      → (let last : Outcome (Unit {0}) × World env = elim o [
        | ret _ ↦ set_session_timeout env 0 v
        | panic ↦ (ret tt, v)
      ] in
          last.0 ≡ ret tt)
  unfolding set_session_timeout update_session
  returns_last (ret _) v = refl
  returns_last panic v = refl

  packet_handler-returns :
      (r : ReadPacketResult) (w : World env) → (packet_handler env r w).0 ≡ ret tt
  unfolding packet_handler
  packet_handler-returns r w = returns_last _ _

  pub handlers-return :
      (rs : List ReadPacketResult) (w : World env) → (for_each (packet_handler env) rs w).0 ≡ ret tt
  unfolding for_each ◌>>=◌ pure
  handlers-return [] w = refl
  handlers-return (r ∷ rs) w =
      rw (packet_handler-returns r w) (handlers-return rs (packet_handler env r w).1)

  -- The handler of a connection, and its loop, do not fail either.
  pub callback_on :
      (r : ReadPacketResult) (c : On net env)
      → callback_handler net (World env) (handler_on net env) r c
        ≡ (ret tt, (handler_on net env r c).1)
  unfolding callback_handler handler_on close_conn
  callback_on r c =
      let returned = packet_handler-returns r c.world in
      go (packet_handler env r c.world).0 (handler_on net env r c) _ returned
        (ap (λ o. (o, (handler_on net env r c).1)) returned)
    where
      go :
          (o : Outcome (Unit {0})) (d : Outcome (Unit {0}) × On net env) (v : On net env)
          → o ≡ ret tt
          → d ≡ (ret tt, v)
          → (let called : Outcome (Unit {0}) × On net env = elim o [
            | ret _ ↦ d
            | panic ↦ (ret tt, record d.1 { socket = net.close d.1.socket })
          ] in
              called ≡ (ret tt, v))
      go (ret x) d v e h = h
      go panic d v e h = absurd (cc)
