-- ===== src/Decoder/Stream.antt =====
-- The reads of a connection, decoded one by one, against the framing of the whole stream.
use sara.Common.{◌≡◌, refl, List, [], ◌∷◌, ◌++◌, ◌==◌, Bytes, Lacks, Bool-cases, inl, inr}
use sara.Packet.{end_flag}
use sara.Decoder.{decode_packet}
use sara.Decoder.Pieces.{frames, emit}
use sara.Decoder.Frames.{IsAligned, decode_packet-frames}

-- Each chunk is decoded with what the one before it left.
unfoldable pub decode_chunks : Bytes → List Bytes → List Bytes × Bytes
decode_chunks part [] = ([], part)
decode_chunks part (chunk ∷ chunks) =
    let (packets, new_part) = decode_packet chunk part in
    let rest = decode_chunks new_part chunks in (packets ++ rest.0, rest.1)

abbrev pub concat : List Bytes → Bytes
concat [] = []
concat (c ∷ cs) = c ++ concat cs

-- No chunk begins with the end flag of a packet that began in an earlier one.
abbrev pub AllAligned : Bytes → List Bytes → Type 0
AllAligned part [] = Unit {0}
AllAligned part (chunk ∷ chunks) =
    Lacks 0 chunk × IsAligned part chunk × AllAligned (frames part chunk).1 chunks

emit-append : (p : Bytes) (xs ys : List Bytes) → emit p (xs ++ ys) ≡ emit p xs ++ ys
emit-append [] xs ys = refl
emit-append (c ∷ p) xs ys = refl

-- The framing of two parts of a stream, one behind the other.
frames-append :
    (cur s t : Bytes)
    → frames cur (s ++ t)
      ≡ ((frames cur s).0 ++ (frames (frames cur s).1 t).0, (frames (frames cur s).1 t).1)
unfolding frames
frames-append cur [] t = refl
frames-append cur (c ∷ s) t = elim (Bool-cases (c == end_flag)) [
  | inl e ↦ rw (e, frames-append [] s t, emit-append)
  | inr e ↦ rw (e, frames-append (cur ++ c ∷ []) s t)
]

-- However a stream with no zero byte is cut into chunks, decoding them one by one gives the packets
-- and the rest that the framing of the whole stream gives, if no chunk begins with the end flag of
-- a packet that began in an earlier chunk.
pub decode_chunks-frames :
    (part : Bytes) (chunks : List Bytes)
    → AllAligned part chunks
    → decode_chunks part chunks ≡ frames part (concat chunks)
unfolding decode_chunks
decode_chunks-frames part [] h = unfold frames in refl
decode_chunks-frames part (chunk ∷ chunks) (nul, aligned, rest) = rw (
  decode_packet-frames chunk part nul aligned,
  frames-append,
  decode_chunks-frames (frames part chunk).1 chunks rest,
)
