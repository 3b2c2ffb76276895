-- ===== src/Decoder.antt =====
-- core/decoder.go, `DecodePacket`: packets end with the byte 1; what stands behind the last one is
-- handed to the next call. A nil slice and an empty one are the empty list, as `len` sees them.
pub mod Pieces
pub mod Frames
pub mod Stream
mod Tests
use sara.Common.{
  ℕ, zero, suc, ◌+◌, ◌-◌, ◌≡◌, Bool, true, false, not, ◌&&◌, List, [], ◌∷◌, ◌++◌, if◌then◌else◌,
  ◌==◌, ltb, length, Bytes, is_empty, split,
}
use sara.Packet.{end_flag}

-- `data[:bytes.IndexByte(data, 0)]`, or all of `data`.
unfoldable pub before_nul : Bytes → Bytes
before_nul [] = []
before_nul (c ∷ s) = if c == 0 then [] else c ∷ before_nul s

-- `data[len(data)-1]`, of data that is not empty.
unfoldable pub last_byte : Bytes → ℕ
last_byte [] = 0
last_byte (c ∷ []) = c
last_byte (c ∷ d ∷ s) = last_byte (d ∷ s)

-- One round of the loop over the pieces, at piece `i`; the state is `packets` and `new_part`.
unfoldable pub decode_round : ℕ → ℕ → Bytes → ℕ → Bytes → List Bytes × Bytes → List Bytes × Bytes
decode_round size last part i packet (packets, new_part) =
    if is_empty packet
    then (packets, new_part)
    else if i == 0 && not (is_empty part)
    then (packets ++ (part ++ packet) ∷ [], new_part)
    else if i == size && not (last == end_flag)
    then (packets, packet)
    else (packets ++ packet ∷ [], new_part)

unfoldable pub decode_loop :
    ℕ → ℕ → Bytes → ℕ → List Bytes → List Bytes × Bytes → List Bytes × Bytes
unfolding decode_round
decode_loop size last part i [] state = state
decode_loop size last part i (packet ∷ pieces) state =
    decode_loop size last part (i + 1) pieces (decode_round size last part i packet state)

-- The branch for data with no end flag: there is one piece.
unfoldable pub decode_single : ℕ → Bytes → List Bytes → List Bytes × Bytes
decode_single last part [] = ([], [])
decode_single last part (piece ∷ pieces) =
    let packet = if is_empty part then piece else part ++ piece in
    if not (last == end_flag) then ([], packet) else (packet ∷ [], [])

unfoldable pub decode_pieces : Bytes → Bytes → List Bytes → List Bytes × Bytes
unfolding decode_loop decode_single last_byte
decode_pieces chunk part pieces =
    let size = length pieces - 1 in
    if ltb 0 size
    then decode_loop size (last_byte chunk) part 0 pieces ([], [])
    else decode_single (last_byte chunk) part pieces

unfoldable pub decode_cut : Bytes → Bytes → List Bytes × Bytes
unfolding decode_pieces
decode_cut chunk part =
    if is_empty chunk then ([], part) else decode_pieces chunk part (split end_flag chunk)

-- The packets, and the new pending part; the error of the source is always nil.
unfoldable pub decode_packet : Bytes → Bytes → List Bytes × Bytes
unfolding decode_cut before_nul
decode_packet chunk part = decode_cut (before_nul chunk) part
