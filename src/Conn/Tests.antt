-- ===== src/Conn/Tests.antt =====
-- The theorems on the connections at concrete reads.
use sara.Common.{◌≡◌, List, [], ◌∷◌, map, arith, inr, codes, Bytes}
use sara.Packet.{end_flag}
use sara.Decoder.{decode_packet}
use sara.Decoder.Pieces.{frames}
use sara.Decoder.Stream.{concat}
use sara.Conn.{TcpSessionConn, Read, received, failed, recv_tcp, new_tcp}
use sara.Conn.Stream.{handed, written, recv_tcp-frames, decode_packet-written}

abbrev chunks : List Bytes
chunks = (97 ∷ end_flag ∷ 98 ∷ []) ∷ (99 ∷ end_flag ∷ []) ∷ []

recv_tcp-frames_example :
    (
      handed (recv_tcp new_tcp (map received chunks)).0,
      (recv_tcp new_tcp (map received chunks)).1.part,
    )
    ≡ frames [] (concat chunks)
recv_tcp-frames_example =
    recv_tcp-frames new_tcp chunks
      (ground arith, inr (omega arith), (ground arith, inr (omega arith), tt))

decode_packet-written_example :
    decode_packet (written ((97 ∷ []) ∷ (98 ∷ 99 ∷ []) ∷ [])) []
    ≡ ((97 ∷ []) ∷ (98 ∷ 99 ∷ []) ∷ [], [])
decode_packet-written_example =
    decode_packet-written ((97 ∷ []) ∷ (98 ∷ 99 ∷ []) ∷ [])
      ((cc, ground arith, ground arith), ((cc, ground arith, ground arith), tt))

abbrev reads : List Read
reads = received (97 ∷ 98 ∷ 99 ∷ []) ∷ failed (codes "EOF") ∷ []

abbrev small : TcpSessionConn
small = record { part = []; buff_len = 3 }
