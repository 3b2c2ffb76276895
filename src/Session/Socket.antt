-- ===== src/Session/Socket.antt =====
-- core/session.go on the sockets of its connections: the handler closes the connection of its
-- session, and the loop of the connection then ends.
pub mod Returns
pub mod Rounds
pub mod Ends
mod Tests
use sara.Common.{
  ℕ, zero, suc, ◌+◌, ◌<◌, ◌≡◌, refl, sym, ap, subst, ◌∙◌, Bool, true, false, List, [], ◌∷◌, ◌++◌,
  map, none, some, if◌then◌else◌, Bytes, length, Outcome, ret, panic, Exec, pure, for_each, ◌>>=◌,
  ◌>>◌, continue, bind-ret, arith, Bool-cases, inl, inr,
}
use sara.Decoder.{decode_packet}
use sara.Conn.{
  ReadPacketResult, TcpSessionConn, Read, received, failed, recv_tcp, callback, change_buff_len,
}
use sara.Conn.Socket.{
  Net, Connected, measure_add, callback_handler, handle_read, close_conn, read_loop,
}
use sara.Session.State.{Env, World, update_session}
use sara.Session.Actions.{close_session}
use sara.Session.Handler.{packet_handler, handle_result, set_session_timeout}
use sara.Session.Wire.{serve_tcp, for_each-append}
use sara.Session.Wire.Cuts.{last_step}

module _ (net : Net) (env : Env) where
  abbrev pub On : Type 0
  On = Connected net (World env)

  -- `packetHandler` with the connection that it closes by `CloseSession`.
  unfoldable pub handler_on : ReadPacketResult → Exec On (Unit {0})
  handler_on r c =
      let done = packet_handler env r c.world in
      (
        done.0,
        record c {
          world = done.1;
          socket = if done.1.session.closed then net.close c.socket else c.socket;
        },
      )

  -- The connection of a session whose loop has just read a chunk.
  abbrev pub next_conn : TcpSessionConn → Bytes → TcpSessionConn
  next_conn conn chunk = record {
    part = (decode_packet chunk conn.part).1;
    buff_len = change_buff_len conn.buff_len (length chunk);
  }

  abbrev pub after_chunk : TcpSessionConn → Bytes → World env → World env
  after_chunk conn chunk w =
      (for_each (packet_handler env) (callback (decode_packet chunk conn.part).0) w).1

  -- The chunks that come while the session's connection is open.
  unfoldable pub live_chunks : TcpSessionConn → List Bytes → World env → List Bytes
  live_chunks conn [] w = []
  live_chunks conn (chunk ∷ chunks) w =
      let rest = live_chunks (next_conn conn chunk) chunks (after_chunk conn chunk w) in
      chunk ∷ (if (after_chunk conn chunk w).session.closed then [] else rest)

  -- The reads of a socket return these chunks, each with a buffer of the loop's length, and then an
  -- error.
  abbrev pub Delivers : ℕ → List Bytes → net.Socket → Type 0
  Delivers buff_len [] s = (e : Bytes) × (t : net.Socket) × (net.read buff_len s ≡ (failed e, t))
  Delivers buff_len (chunk ∷ chunks) s =
      (t : net.Socket) × (net.read buff_len s ≡ (received chunk, t))
      × Delivers (change_buff_len buff_len (length chunk)) chunks t

  -- A read of a socket that was closed fails.
  abbrev pub FailsClosed : Type 0
  FailsClosed =
      (buff_len : ℕ) (s : net.Socket)
      → (e : Bytes) × (t : net.Socket) × (net.read buff_len (net.close s) ≡ (failed e, t))
