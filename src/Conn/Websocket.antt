-- ===== src/Conn/Websocket.antt =====
-- core/conn_ws.go with its socket. The socket of the library websocket is the parameter `WsNet`.
use sara.Common.{
  ℕ, zero, suc, [], ◌∷◌, Option, none, some, if◌then◌else◌, Bytes, is_empty, length, Exec, ret,
  panic, pure, recovered, ◌>>=◌, ◌>>◌,
}
use sara.Conn.{ReadPacketResult, Read, received, failed, write_ws}

-- A read returns a message, a write an error or none.
pub record WsNet : Type 1 where
  pub Socket : Type 0
  pub read_message : Socket → Read × Socket
  pub write_message : Bytes → Socket → Option Bytes × Socket
  pub close : Socket → Socket
  pub set_deadline : ℕ → Socket → Socket

module _ (net : WsNet) (W : Type 0) where
  pub record WsConnected : Type 0 where
    pub socket : net.Socket
    pub world : W

  unfoldable pub ws_new_connected : net.Socket → W → WsConnected
  ws_new_connected socket world = record { socket = socket; world = world }

  unfoldable pub ws_set_read_timeout : ℕ → Exec WsConnected (Unit {0})
  ws_set_read_timeout sec c = (ret tt, record c { socket = net.set_deadline sec c.socket })

  unfoldable pub ws_close : Exec WsConnected (Unit {0})
  ws_close c = (ret tt, record c { socket = net.close c.socket })

  -- The slice `packet[0 : len(packet)-1]` of an empty packet is out of range.
  unfoldable pub ws_write_packet : Bytes → Exec WsConnected (ℕ × Option Bytes)
  ws_write_packet [] c = (panic, c)
  ws_write_packet (b ∷ packet) c =
      let r = write_ws (b ∷ packet) in
      let (e, socket) = net.write_message r c.socket in
      (ret (length r, e), record c { socket = socket })

  module _ (handler : ReadPacketResult → Exec WsConnected (Unit {0})) where
    -- The loop of `recv`, at most so many rounds.
    unfoldable pub ws_read_loop : ℕ → Exec WsConnected (Unit {0})
    ws_read_loop zero = pure tt
    ws_read_loop (suc rounds) = do
      r ← λ c.
          let (got, socket) = net.read_message c.socket in (ret got, record c { socket = socket })
      elim r [
        | failed e ↦ handler (record { packets = []; error = some e })
        | received p ↦ do
          (if is_empty p then pure tt else handler (record { packets = p ∷ []; error = none }))
          ws_read_loop rounds
      ]

    -- A panic of the handler ends the loop.
    unfoldable pub ws_recv : ℕ → Exec WsConnected (Unit {0})
    ws_recv rounds = recovered (ws_read_loop rounds) tt
