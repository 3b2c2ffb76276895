-- ===== src/Decoder/Tests.antt =====
-- The theorems on the decoder at concrete data.
use sara.Common.{◌≡◌, [], ◌∷◌, Bytes, arith}
use sara.Packet.{end_flag}
use sara.Decoder.{decode_packet}
use sara.Decoder.Pieces.{frames}
use sara.Decoder.Frames.{decode_packet_loses_pending}

-- A packet that goes on, one that is complete, and one that begins.
abbrev chunk : Bytes
chunk = 98 ∷ end_flag ∷ 99 ∷ end_flag ∷ 100 ∷ []

decode_packet_loses_pending_example :
    (decode_packet (end_flag ∷ 98 ∷ end_flag ∷ []) (97 ∷ []) ≡ frames [] (98 ∷ end_flag ∷ []))
    × (frames (97 ∷ []) (end_flag ∷ 98 ∷ end_flag ∷ [])
        ≡ ((97 ∷ []) ∷ (frames [] (98 ∷ end_flag ∷ [])).0, (frames [] (98 ∷ end_flag ∷ [])).1))
decode_packet_loses_pending_example =
    decode_packet_loses_pending (97 ∷ []) (98 ∷ end_flag ∷ []) (cc) (ground arith)
