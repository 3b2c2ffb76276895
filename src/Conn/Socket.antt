-- ===== src/Conn/Socket.antt =====
-- core/conn_tcp.go with its socket, and the counters of core/measure.go. The socket of the library
-- net is the parameter `Net`: what a call returns, and the socket behind it. `world` is all that the session's handler changes beside the
-- connection; the handler is a parameter.
use sara.Common.{
  ℕ, zero, suc, ◌+◌, ◌%◌, ◌^◌, [], Option, none, some, if◌then◌else◌, Bytes, length, ℤ, pos, negsuc,
  ltb, ◌-◌, ret, panic, Exec, for_each, ◌>>◌,
}
use sara.Decoder.{decode_packet}
use sara.Conn.{ReadPacketResult, Read, received, failed, change_buff_len, callback}

-- `conn.Write` returns a number and an error; the value of a panic is a text or none.
pub data Wrote : Type 0 where
  wrote : ℕ → Option Bytes → Wrote
  write_panicked : Option Bytes → Wrote

pub record Net : Type 1 where
  pub Socket : Type 0
  pub read : ℕ → Socket → Read × Socket
  pub write_to : Bytes → Socket → Wrote × Socket
  pub close : Socket → Socket
  pub set_deadline : ℕ → Socket → Socket

-- core/measure.go: a counter of 64 bits, the sum of what was added.
unfoldable pub measure_add : ℕ → ℕ → ℕ
measure_add i n = (n + i) % 2 ^ 64

module _ (net : Net) (W : Type 0) where
  pub record Connected : Type 0 where
    pub socket : net.Socket
    pub part : Bytes
    pub reads : ℕ
    pub writes : ℕ
    pub world : W

  -- `NewTcpSessionConn`.
  unfoldable pub new_connected : net.Socket → W → Connected
  new_connected socket world = record {
    socket = socket;
    part = [];
    reads = 0;
    writes = 0;
    world = world;
  }

  -- The deadline is this many seconds from now.
  unfoldable pub set_read_timeout : ℕ → Exec Connected (Unit {0})
  set_read_timeout sec c = (ret tt, record c { socket = net.set_deadline sec c.socket })

  unfoldable pub close_conn : Exec Connected (Unit {0})
  close_conn c = (ret tt, record c { socket = net.close c.socket })

  -- The deferred function makes an error of a panic with a text. `err.(string)` panics itself on
  -- any other value.
  unfoldable pub write_result : Wrote → Exec Connected (ℕ × Option Bytes)
  write_result (wrote i e) c = (ret (i, e), record c { writes = measure_add 1 c.writes })
  write_result (write_panicked (some text)) c = (ret (0, some text), c)
  write_result (write_panicked none) c = (panic, c)

  unfoldable pub write_packet : Bytes → Exec Connected (ℕ × Option Bytes)
  write_packet packet c =
      let done = net.write_to packet c.socket in write_result done.0 (record c { socket = done.1 })

  module _ (handler : ReadPacketResult → Exec Connected (Unit {0})) where
    -- A panic of the handler closes the connection, and the loop goes on.
    unfoldable pub callback_handler : ReadPacketResult → Exec Connected (Unit {0})
    callback_handler r c = elim (handler r c).0 [
      | ret _ ↦ handler r c
      | panic ↦ close_conn (handler r c).1
    ]

    -- What a round does with its read. The connection keeps what is left of a packet.
    unfoldable pub handle_read :
        (ℕ → Exec Connected (Unit {0})) → ℕ → Read → Exec Connected (Unit {0})
    handle_read again buff_len (failed e) c =
        callback_handler (record { packets = []; error = some e }) c
    handle_read again buff_len (received chunk) c =
        let (packets, part) = decode_packet chunk c.part in
        (do
          for_each callback_handler (callback packets)
          again (change_buff_len buff_len (length chunk)))
          (record c { part = part })

    -- `recv`, at most so many rounds. The buffer's length is a variable of the loop.
    unfoldable pub read_loop : ℕ → ℕ → Exec Connected (Unit {0})
    read_loop zero buff_len c = (ret tt, c)
    read_loop (suc rounds) buff_len c =
        let (got, socket) = net.read buff_len c.socket in
        handle_read (read_loop rounds) buff_len got
          (record c { socket = socket; reads = measure_add 1 c.reads })

    unfoldable pub first_buff_len : ℕ
    first_buff_len = 1024

-- What `atomic.LoadInt64` makes of a counter.
unfoldable pub measure_get : ℕ → ℤ
measure_get n = if ltb n (2 ^ 63) then pos n else negsuc (2 ^ 64 - n - 1)
