-- ===== src/Conn.antt =====
-- core/conn_tcp.go and core/conn_ws.go: what a connection hands to the session, and what it writes.
-- The socket is the list of results that its reads return. The session's handler, which is modelled
-- in Session.antt, catches its own panics, so a loop goes on after every call.
pub mod Buffer
pub mod Stream
pub mod Socket
pub mod Websocket
mod Tests
use sara.Common.{
  ℕ, ◌+◌, ◌-◌, ◌/◌, ◌≡◌, Bool, true, false, List, [], ◌∷◌, ◌++◌, Option, none, some, if◌then◌else◌,
  ltb, ◌==◌, length, Bytes, codes, bytes_eq, is_empty,
}
use sara.Packet.{heart_beat, kill}
use sara.Decoder.{decode_packet}

-- core/session.go, `ReadPacketResult`.
pub record ReadPacketResult : Type 0 where
  pub packets : List Bytes
  pub error : Option Bytes

-- What one read of the socket returns.
pub data Read : Type 0 where
  received : Bytes → Read
  failed : Bytes → Read

pub record TcpSessionConn : Type 0 where
  pub part : Bytes
  pub buff_len : ℕ

abbrev pub max_buf_len : ℕ
max_buf_len = 4096

-- The two `switch` statements of `change_buff_len`.
unfoldable pub resize : ℕ → ℕ → ℕ
resize buff_len n =
    if n == buff_len
    then buff_len + buff_len / 4
    else if ltb n buff_len
    then buff_len - buff_len / 4
    else buff_len

unfoldable pub clip : ℕ → ℕ → ℕ
clip buff_len n =
    if ltb max_buf_len buff_len then max_buf_len else if ltb buff_len n then n + n / 4 else buff_len

unfoldable pub change_buff_len : ℕ → ℕ → ℕ
unfolding resize clip
change_buff_len buff_len n = if ltb 2 n then clip (resize buff_len n) n else buff_len

-- `if len(packetList) > 0 { callbackHandler(…) }`.
unfoldable pub callback : List Bytes → List ReadPacketResult
callback [] = []
callback (p ∷ ps) = record { packets = p ∷ ps; error = none } ∷ []

abbrev pub new_tcp : TcpSessionConn
new_tcp = record { part = []; buff_len = 1024 }

-- The loop of `TcpSessionConn.recv`: the calls of the handler, and the connection as it is left.
unfoldable pub recv_tcp : TcpSessionConn → List Read → List ReadPacketResult × TcpSessionConn
unfolding callback
recv_tcp conn [] = ([], conn)
recv_tcp conn (failed e ∷ reads) = (record { packets = []; error = some e } ∷ [], conn)
recv_tcp conn (received chunk ∷ reads) =
    let (packets, part) = decode_packet chunk conn.part in
    let buff_len = change_buff_len conn.buff_len (length chunk) in
    let rest = recv_tcp (record { part = part; buff_len = buff_len }) reads in
    (callback packets ++ rest.0, rest.1)

-- The loop of `WsSessionConn.recv`: a message is a packet.
unfoldable pub recv_ws : List Read → List ReadPacketResult
recv_ws [] = []
recv_ws (failed e ∷ reads) = record { packets = []; error = some e } ∷ []
recv_ws (received message ∷ reads) =
    (if is_empty message then [] else record { packets = message ∷ []; error = none } ∷ [])
    ++ recv_ws reads

-- `packet[0 : len(packet)-1]`.
unfoldable pub drop_last : Bytes → Bytes
drop_last [] = []
drop_last (c ∷ []) = []
drop_last (c ∷ d ∷ s) = c ∷ drop_last (d ∷ s)

-- What `WritePacket` puts on the wire.
unfoldable pub write_tcp : Bytes → Bytes
write_tcp packet = packet

unfoldable pub write_ws : Bytes → Bytes
unfolding drop_last
write_ws packet =
    let r = drop_last packet in
    if bytes_eq r (heart_beat ∷ [])
    then codes "\\02"
    else if bytes_eq r (kill ∷ [])
    then codes "\\03"
    else r
