-- ===== src/Session/Socket/Ends.antt =====
-- The whole loop of a session's connection.
use sara.Common.{
  ℕ, zero, suc, ◌<◌, ◌≡◌, sym, ap, subst, ◌∙◌, Bool, false, List, [], ◌∷◌, ◌++◌, map, if◌then◌else◌,
  Bytes, length, arith, Bool-cases, inl, inr,
}
use sara.Conn.{TcpSessionConn, received, failed, change_buff_len}
use sara.Conn.Socket.{Net, read_loop}
use sara.Session.State.{Env, World}
use sara.Session.Wire.{serve_tcp}
use sara.Session.Socket.{On, handler_on, next_conn, live_chunks, Delivers, FailsClosed}
use sara.Session.Socket.Rounds.{
  Leaves, Leaves-along, closed_round, failed_round, received_round, serve_failed, serve_received,
  after_round,
}

module _ (net : Net) (env : Env) where
  -- Whatever the client sends and however it is cut: the loop of a session's connection returns, and
  -- all that it did is what the handler does with the chunks that were read while the connection was
  -- open and with one failed read. What comes after the handler has closed the session is not looked
  -- at. The connection is open at first; its socket delivers some chunks and then fails, and fails
  -- when it was closed; a round for each of the chunks and one more are enough.
  pub read_loop-live_chunks :
      (rounds buff_len : ℕ) (chunks : List Bytes) (c : On net env) (e : Bytes)
      → FailsClosed net env
      → Delivers net env buff_len chunks c.socket
      → c.world.session.closed ≡ false
      → length chunks < rounds
      → let conn : TcpSessionConn = record { part = c.part; buff_len = buff_len } in
        let live = map received (live_chunks net env conn chunks c.world) in
        Leaves net env
          (read_loop net (World env) (handler_on net env) rounds buff_len c)
          (serve_tcp env conn (live ++ failed e ∷ []) c.world).1
  unfolding live_chunks
  read_loop-live_chunks zero buff_len chunks c e l d o r = absurd (omega (arith, r))
  read_loop-live_chunks (suc rounds) buff_len [] c e l (e', t, h) o r =
      let (returned, last) = failed_round net env rounds buff_len c e' t h in
      (
        returned,
        last
            ∙ sym
                (serve_failed net env (record { part = c.part; buff_len = buff_len }) e e' c.world),
      )
  read_loop-live_chunks (suc rounds) buff_len (chunk ∷ chunks) c e l (t, h, d) o r =
      let conn : TcpSessionConn = record { part = c.part; buff_len = buff_len } in
      let next = after_round net env buff_len chunk t c in
      let live = live_chunks net env (next_conn net env conn chunk) chunks next.world in
      let read = received_round net env rounds buff_len c chunk t o h in
      let longer = change_buff_len buff_len (length chunk) in
      let served = λ (b : Bool).
        (serve_tcp env conn (map received (chunk ∷ (if b then [] else live)) ++ failed e ∷ [])
          c.world).1 in
      let socket_if = λ (b : Bool). if b then net.close t else t in
      elim (Bool-cases next.world.session.closed) [
        | inl q ↦
            Leaves-along net env read
              (closed_round net env rounds longer next e t l (omega (arith, r)) (ap socket_if q))
              (sym (serve_received net env conn chunk (failed e ∷ []) c.world) ∙ ap served (sym q))
        | inr q ↦
            Leaves-along net env read
              (read_loop-live_chunks rounds longer chunks next e l
                (subst (Delivers net env longer chunks) (sym (ap socket_if q)) d) q
                (omega (arith, r)))
              (sym (serve_received net env conn chunk (map received live ++ failed e ∷ []) c.world)
                ∙ ap served (sym q))
      ]
