-- ===== src/Conn/Stream.antt =====
-- What the connections hand to the session, and what they write, against the framing.
use sara.Common.{
  ℕ, ◌≡◌, ◌≢◌, refl, ap, ◌∙◌, List, [], ◌∷◌, ◌++◌, map, append-nil, append_assoc, arith,
  if◌then◌else◌, ◌==◌, Bytes, codes, Lacks, All, All-append, Bool-cases, length, bytes_eq, inl, inr,
}
use sara.Packet.{end_flag, heart_beat, kill}
use sara.Decoder.{decode_packet}
use sara.Decoder.Pieces.{frames, emit}
use sara.Decoder.Frames.{IsAligned, decode_packet-frames}
use sara.Decoder.Stream.{decode_chunks, AllAligned, concat, decode_chunks-frames}
use sara.Conn.{
  TcpSessionConn, received, ReadPacketResult, recv_tcp, callback, change_buff_len, drop_last,
  write_tcp, write_ws,
}

-- All packets that the handler was called with, in order.
abbrev pub handed : List ReadPacketResult → List Bytes
handed [] = []
handed (r ∷ rs) = r.packets ++ handed rs

handed-callback :
    (ps : List Bytes) (rs : List ReadPacketResult) → handed (callback ps ++ rs) ≡ ps ++ handed rs
unfolding callback
handed-callback [] rs = refl
handed-callback (p ∷ ps) rs = refl

recv_tcp-decode_chunks :
    (conn : TcpSessionConn) (chunks : List Bytes)
    → (handed (recv_tcp conn (map received chunks)).0, (recv_tcp conn (map received chunks)).1.part)
      ≡ decode_chunks conn.part chunks
unfolding recv_tcp decode_chunks
recv_tcp-decode_chunks conn [] = refl
recv_tcp-decode_chunks conn (chunk ∷ chunks) =
    let next : TcpSessionConn = record {
      part = (decode_packet chunk conn.part).1;
      buff_len = change_buff_len conn.buff_len (length chunk);
    } in
    rw (handed-callback, ← recv_tcp-decode_chunks next chunks)

-- However the network cuts a stream with no zero byte, the handler is called with the packets of
-- its framing, in order, and what is left pending is what the framing leaves, if no chunk begins
-- with the end flag of a packet that began in an earlier chunk.
pub recv_tcp-frames :
    (conn : TcpSessionConn) (chunks : List Bytes)
    → AllAligned conn.part chunks
    → (handed (recv_tcp conn (map received chunks)).0, (recv_tcp conn (map received chunks)).1.part)
      ≡ frames conn.part (concat chunks)
recv_tcp-frames conn chunks h =
    recv_tcp-decode_chunks conn chunks ∙ decode_chunks-frames conn.part chunks h

-- A packet that can be sent: it is not empty, and holds neither the end flag nor a zero byte.
abbrev pub Sendable : Bytes → Type 0
Sendable p = (p ≢ []) × Lacks end_flag p × Lacks 0 p

-- The stream that the server writes for some packets.
abbrev pub written : List Bytes → Bytes
written [] = []
written (p ∷ ps) = write_tcp (p ++ end_flag ∷ []) ++ written ps

frames-packet :
    (cur p s : Bytes)
    → Lacks end_flag p
    → frames cur ((p ++ end_flag ∷ []) ++ s) ≡ (emit (cur ++ p) (frames [] s).0, (frames [] s).1)
unfolding frames
frames-packet cur [] s h = rw append-nil
frames-packet cur (c ∷ p) s (n, h) = elim (Bool-cases (c == end_flag)) [
  | inl e ↦ absurd (n (ground arith))
  | inr e ↦ rw (e, frames-packet (cur ++ c ∷ []) p s h, append_assoc)
]

written-Lacks : (ps : List Bytes) → All Sendable ps → Lacks 0 (written ps)
unfolding write_tcp
written-Lacks [] h = tt
written-Lacks (p ∷ ps) ((n, e, z), hs) =
    All-append _ (p ++ end_flag ∷ []) (written ps) (All-append _ p (end_flag ∷ []) z (omega arith))
      (written-Lacks ps hs)

pub frames-written : (ps : List Bytes) → All Sendable ps → frames [] (written ps) ≡ (ps, [])
unfolding write_tcp
frames-written [] h = unfold frames in refl
frames-written ([] ∷ ps) ((n, e, z), hs) = absurd (n refl)
frames-written ((c ∷ p) ∷ ps) ((n, e, z), hs) =
    rw (frames-packet [] (c ∷ p) (written ps) e, frames-written ps hs)

pub IsAligned-nil : (s : Bytes) → IsAligned [] s
IsAligned-nil [] = tt
IsAligned-nil (c ∷ s) = inl refl

-- What the server writes over TCP for packets none of which is empty or holds the end flag or a zero byte
-- is decoded to these packets, with nothing left.
pub decode_packet-written :
    (ps : List Bytes) → All Sendable ps → decode_packet (written ps) [] ≡ (ps, [])
decode_packet-written ps h =
    decode_packet-frames (written ps) [] (written-Lacks ps h) (IsAligned-nil (written ps))
    ∙ frames-written ps h

drop_last-append : (p : Bytes) (c : ℕ) → drop_last (p ++ c ∷ []) ≡ p
unfolding drop_last
drop_last-append [] c = refl
drop_last-append (x ∷ []) c = refl
drop_last-append (x ∷ y ∷ p) c = ap (◌∷◌ x) (drop_last-append (y ∷ p) c)

-- Over a websocket a message is written without its end flag, and unchanged but for the two
-- signals, which are written as the texts `\02` and `\03`.
pub write_ws_lem :
    (p : Bytes)
    → write_ws (p ++ end_flag ∷ []) ≡ (
        if bytes_eq p (heart_beat ∷ [])
        then codes "\\02"
        else if bytes_eq p (kill ∷ [])
        then codes "\\03"
        else p)
unfolding write_ws
write_ws_lem p = rw (drop_last-append p end_flag)
