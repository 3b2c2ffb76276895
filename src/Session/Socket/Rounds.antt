-- ===== src/Session/Socket/Rounds.antt =====
-- The rounds of the loop of a session's connection.
use sara.Common.{
  ℕ, zero, suc, ◌<◌, ◌≡◌, refl, sym, ap, ◌∙◌, false, List, [], ◌∷◌, none, some, if◌then◌else◌,
  Bytes, length, Outcome, ret, pure, for_each, continue, bind-ret, arith,
}
use sara.Decoder.{decode_packet}
use sara.Conn.{
  ReadPacketResult, TcpSessionConn, Read, received, failed, recv_tcp, callback, change_buff_len,
}
use sara.Conn.Socket.{Net, measure_add, callback_handler, handle_read, read_loop}
use sara.Session.State.{Env, World}
use sara.Session.Handler.{packet_handler, handle_result}
use sara.Session.Wire.{serve_tcp, for_each-append}
use sara.Session.Wire.Cuts.{last_step}
use sara.Session.Socket.{On, handler_on, next_conn, after_chunk, FailsClosed}
use sara.Session.Socket.Returns.{single, handlers-return, callback_on}

module _ (net : Net) (env : Env) where
  -- The packets of a chunk, with the connection that is shut if they close the session.
  callbacks_on :
      (ps : List Bytes) (c : On net env)
      → c.world.session.closed ≡ false
      → for_each (callback_handler net (World env) (handler_on net env)) (callback ps) c ≡ (
        ret tt,
        (let w : World env = (for_each (packet_handler env) (callback ps) c.world).1 in
            record c {
              world = w;
              socket = if w.session.closed then net.close c.socket else c.socket;
            }),
      )
  unfolding callback handler_on
  callbacks_on [] c open_conn =
      unfold for_each pure in
      ap (λ b. (ret tt, record c { socket = if b then net.close c.socket else c.socket }))
        (sym open_conn)
  callbacks_on (p ∷ ps) c open_conn =
      let r : ReadPacketResult = record { packets = p ∷ ps; error = none } in
      single (callback_handler net (World env) (handler_on net env)) r c _ (callback_on net env r c)
      ∙ ap
          (λ (w : World env). (
            ret tt,
            record c {
              world = w;
              socket = if w.session.closed then net.close c.socket else c.socket;
            },
          ))
          (sym (last_step env (packet_handler env) r c.world))

  -- The round of a read that fails is the last one.
  pub failed_round :
      (rounds buff_len : ℕ) (c : On net env) (e : Bytes) (t : net.Socket)
      → net.read buff_len c.socket ≡ (failed e, t)
      → let done = read_loop net (World env) (handler_on net env) (suc rounds) buff_len c in
        (done.0 ≡ ret tt)
        × (done.1.world ≡ (packet_handler env (record { packets = []; error = some e }) c.world).1)
  unfolding read_loop handle_read handler_on
  failed_round rounds buff_len c e t h =
      let d =
        callback_on net env (record { packets = []; error = some e })
          (record c { socket = t; reads = measure_add 1 c.reads }) in
      rw h (ap (λ p. p.0) d, ap (λ p. p.1.world) d)

  -- The connection behind a round that read a chunk.
  abbrev pub after_round : ℕ → Bytes → net.Socket → On net env → On net env
  after_round buff_len chunk t c =
      let next : World env =
        after_chunk net env (record { part = c.part; buff_len = buff_len }) chunk c.world in
      record {
        socket = if next.session.closed then net.close t else t;
        part = (decode_packet chunk c.part).1;
        reads = measure_add 1 c.reads;
        writes = c.writes;
        world = next;
      }

  pub received_round :
      (rounds buff_len : ℕ) (c : On net env) (chunk : Bytes) (t : net.Socket)
      → c.world.session.closed ≡ false
      → net.read buff_len c.socket ≡ (received chunk, t)
      → read_loop net (World env) (handler_on net env) (suc rounds) buff_len c
        ≡ read_loop net
            (World env)
            (handler_on net env)
            rounds
            (change_buff_len buff_len (length chunk))
            (after_round buff_len chunk t c)
  unfolding read_loop handle_read
  received_round rounds buff_len c chunk t open_conn h =
      ap
        (λ got.
          handle_read net (World env) (handler_on net env)
            (read_loop net (World env) (handler_on net env) rounds) buff_len got.0
            (record c { socket = got.1; reads = measure_add 1 c.reads }))
        h
      ∙ bind-ret
          (for_each (callback_handler net (World env) (handler_on net env))
            (callback (decode_packet chunk c.part).0))
          (λ _.
            read_loop net (World env) (handler_on net env) rounds
              (change_buff_len buff_len (length chunk)))
          _ _ tt
          (callbacks_on (decode_packet chunk c.part).0
            (record c {
              socket = t;
              part = (decode_packet chunk c.part).1;
              reads = measure_add 1 c.reads;
            })
            open_conn)

  -- What the handler makes of the reads, one by one.
  pub serve_failed :
      (conn : TcpSessionConn) (e e' : Bytes) (w : World env)
      → (serve_tcp env conn (failed e ∷ []) w).1
        ≡ (packet_handler env (record { packets = []; error = some e' }) w).1
  unfolding serve_tcp recv_tcp
  serve_failed conn e e' w =
      last_step env (packet_handler env) (record { packets = []; error = some e }) w
      ∙ (unfold packet_handler handle_result in refl)

  pub serve_received :
      (conn : TcpSessionConn) (chunk : Bytes) (reads : List Read) (w : World env)
      → (serve_tcp env conn (received chunk ∷ reads) w).1
        ≡ (serve_tcp env (next_conn net env conn chunk) reads (after_chunk net env conn chunk w)).1
  unfolding serve_tcp recv_tcp
  serve_received conn chunk reads w =
      ap (λ d. d.1)
        (for_each-append env (packet_handler env) (callback (decode_packet chunk conn.part).0)
          (recv_tcp (next_conn net env conn chunk) reads).0 w)
      ∙ ap
          (λ o.
            (continue {S = World env} {B = Unit {0}}
              (λ _. for_each (packet_handler env) (recv_tcp (next_conn net env conn chunk) reads).0)
              o (after_chunk net env conn chunk w)).1)
          (handlers-return net env (callback (decode_packet chunk conn.part).0) w)

  abbrev pub Leaves : Outcome (Unit {0}) × On net env → World env → Type 0
  Leaves d w = (d.0 ≡ ret tt) × (d.1.world ≡ w)

  pub Leaves-along :
      {d d' : Outcome (Unit {0}) × On net env} {w w' : World env}
      → d ≡ d'
      → Leaves d' w'
      → w' ≡ w
      → Leaves d w
  Leaves-along a (p, q) b = (ap (λ x. x.0) a ∙ p, ap (λ x. x.1.world) a ∙ q ∙ b)

  -- The round on a connection that was closed.
  pub closed_round :
      (rounds buff_len : ℕ) (c : On net env) (e : Bytes) (t : net.Socket)
      → FailsClosed net env
      → 0 < rounds
      → c.socket ≡ net.close t
      → Leaves
          (read_loop net (World env) (handler_on net env) rounds buff_len c)
          (serve_tcp env (record { part = c.part; buff_len = buff_len }) (failed e ∷ []) c.world).1
  closed_round zero buff_len c e t l r h = absurd (omega (arith, r))
  closed_round (suc rounds) buff_len c e t l r h =
      let (e', u, fails) = l buff_len t in
      let (returned, last) =
        failed_round rounds buff_len c e' u (ap (net.read buff_len) h ∙ fails) in
      (
        returned,
        last ∙ sym (serve_failed (record { part = c.part; buff_len = buff_len }) e e' c.world),
      )
