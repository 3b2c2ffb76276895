-- ===== src/Decoder/Frames.antt =====
-- Where `DecodePacket` performs the framing of the stream, and where it does not.
use sara.Common.{
  ℕ, suc, ◌-◌, ◌≡◌, ◌≢◌, ◌⊎◌, inl, inr, refl, sym, ap, ◌<◌, ◌∙◌, false, List, [], ◌∷◌, ◌++◌, arith,
  if◌then◌else◌, ◌==◌, length, Bytes, Lacks, is_empty, split, cons_head, split-ne-nil,
}
use sara.Packet.{end_flag}
use sara.Decoder.{
  before_nul, last_byte, decode_round, decode_loop, decode_single, decode_pieces, decode_cut,
  decode_packet,
}
use sara.Decoder.Pieces.{
  emit, frames, frame_pieces, frames-split, EndsWell, SingleFull, split-SingleFull, split-EndsWell,
  emit-append, decode_loop-tail,
}

-- A pending part is put out only if bytes stand before the first end flag.
abbrev pub Joins : Bytes → List Bytes → Type 0
Joins part [] = Unit {0}
Joins part (p ∷ ps) = is_empty part ≡ false → is_empty p ≡ false

decode_round_first :
    (size last : ℕ) (part p : Bytes)
    → 0 < size
    → (is_empty part ≡ false → is_empty p ≡ false)
    → decode_round size last part 0 p ([], []) ≡ (emit (part ++ p) [], [])
unfolding decode_round
decode_round_first size last [] p h j = ground arith
decode_round_first size last (c ∷ part) p h j = ground (arith, j refl)

decode_loop-frame_pieces :
    (size last : ℕ) (part p q : Bytes) (ps : List Bytes)
    → size ≡ suc (length ps)
    → EndsWell last (q ∷ ps)
    → (is_empty part ≡ false → is_empty p ≡ false)
    → decode_loop size last part 0 (p ∷ q ∷ ps) ([], []) ≡ frame_pieces part (p ∷ q ∷ ps)
decode_loop-frame_pieces size last part p q ps e w j =
    unfold decode_loop frame_pieces in
    rw (
      decode_round_first size last part p (omega arith) j,
      decode_loop-tail size last part 1 q ps (emit (part ++ p) []) (omega arith) (omega arith) w,
      emit-append,
    )

decode_single-append :
    (last : ℕ) (part p : Bytes)
    → (last == end_flag) ≡ false
    → decode_single last part (p ∷ []) ≡ ([], part ++ p)
unfolding decode_single
decode_single-append last [] p e = rw e
decode_single-append last (c ∷ part) p e = rw e

decode_pieces-frame_pieces :
    (chunk part : Bytes) (ps : List Bytes)
    → ps ≢ []
    → EndsWell (last_byte chunk) ps
    → SingleFull ps
    → Joins part ps
    → decode_pieces chunk part ps ≡ frame_pieces part ps
unfolding decode_pieces
decode_pieces-frame_pieces chunk part [] h w f j = absurd (h refl)
decode_pieces-frame_pieces chunk part (p ∷ []) h w f j =
    unfold frame_pieces in decode_single-append (last_byte chunk) part p (w f)
decode_pieces-frame_pieces chunk part (p ∷ q ∷ ps) h w f j = ground (
  arith,
  decode_loop-frame_pieces (length (p ∷ q ∷ ps) - 1) (last_byte chunk) part p q ps (omega arith) w
      j,
)

before_nul-Lacks : (s : Bytes) → Lacks 0 s → before_nul s ≡ s
unfolding before_nul
before_nul-Lacks [] h = refl
before_nul-Lacks (c ∷ s) h = ground (arith, before_nul-Lacks s h.1)

-- No packet is pending when the data begins with an end flag.
abbrev pub IsAligned : Bytes → Bytes → Type 0
IsAligned part [] = Unit {0}
IsAligned part (c ∷ s) = (part ≡ []) ⊎ (c ≢ end_flag)

Joins-nil : (ps : List Bytes) → Joins [] ps
Joins-nil [] = tt
Joins-nil (p ∷ ps) = λ h. cc

split-Joins :
    (part : Bytes) (c : ℕ) (s : Bytes)
    → IsAligned part (c ∷ s)
    → Joins part (split end_flag (c ∷ s))
unfolding split
split-Joins part c s a = go (split end_flag s) a
  where
    go :
        (ps : List Bytes)
        → (part ≡ []) ⊎ (c ≢ end_flag)
        → Joins part (if c == end_flag then [] ∷ ps else cons_head c ps)
    go ps (inl e) = rw e (Joins-nil (if c == end_flag then [] ∷ ps else cons_head c ps))
    go [] (inr n) = ground arith
    go (p ∷ ps) (inr n) = ground arith

-- On data with no zero byte, `DecodePacket` is the framing of the stream, if no packet is pending
-- when the data begins with an end flag.
pub decode_packet-frames :
    (chunk part : Bytes)
    → Lacks 0 chunk
    → IsAligned part chunk
    → decode_packet chunk part ≡ frames part chunk
unfolding decode_packet decode_cut
decode_packet-frames [] part h a = unfold frames before_nul in refl
decode_packet-frames (c ∷ s) part h a =
    rw (before_nul-Lacks (c ∷ s) h, frames-split)
      (decode_pieces-frame_pieces (c ∷ s) part (split end_flag (c ∷ s))
        (split-ne-nil end_flag (c ∷ s)) (split-EndsWell c s) (split-SingleFull c s)
        (split-Joins part c s a))

before_nul-append : (s t : Bytes) → Lacks 0 s → before_nul (s ++ 0 ∷ t) ≡ s
unfolding before_nul
before_nul-append [] t h = refl
before_nul-append (c ∷ s) t h = ground (arith, before_nul-append s t h.1)

-- Whatever stands in the data from its first zero byte on is not looked at.
pub decode_packet_nul :
    (s t part : Bytes) → Lacks 0 s → decode_packet (s ++ 0 ∷ t) part ≡ decode_packet s part
unfolding decode_packet
decode_packet_nul s t part h = rw (before_nul-append s t h, before_nul-Lacks s h)

frames-emit :
    (p s : Bytes)
    → is_empty p ≡ false
    → frames p (end_flag ∷ s) ≡ (p ∷ (frames [] s).0, (frames [] s).1)
unfolding frames
frames-emit p s h = rw h

decode_loop_skips :
    (size last : ℕ) (part q : Bytes) (ps : List Bytes)
    → size ≡ suc (length ps)
    → EndsWell last (q ∷ ps)
    → decode_loop size last part 0 ([] ∷ q ∷ ps) ([], []) ≡ frame_pieces [] (q ∷ ps)
unfolding decode_loop decode_round
decode_loop_skips size last part q ps e w =
    decode_loop-tail size last part 1 q ps [] (omega arith) (omega arith) w

decode_pieces_skips :
    (part s : Bytes) (ps : List Bytes)
    → ps ≢ []
    → EndsWell (last_byte (end_flag ∷ s)) ([] ∷ ps)
    → decode_pieces (end_flag ∷ s) part ([] ∷ ps) ≡ frame_pieces [] ps
unfolding decode_pieces
decode_pieces_skips part s [] h w = absurd (h refl)
decode_pieces_skips part s (q ∷ ps) h w = ground (
  arith,
  decode_loop_skips (length ([] ∷ q ∷ ps) - 1) (last_byte (end_flag ∷ s)) part q ps (omega arith) w,
)

split_at : (s : Bytes) → split end_flag (end_flag ∷ s) ≡ [] ∷ split end_flag s
unfolding split
split_at s = refl

decode_cut_skips :
    (part s : Bytes) → decode_cut (end_flag ∷ s) part ≡ frame_pieces [] (split end_flag s)
unfolding decode_cut
decode_cut_skips part s = rw (split_at s) (
    decode_pieces_skips part s (split end_flag s) (split-ne-nil end_flag s)
      (rw (split_at s) at (split-EndsWell end_flag s)))

-- When the end flag of a pending packet is the first byte of the next data, the framing puts the
-- packet out, and `DecodePacket` loses it; of the rest it makes what the framing makes.
pub decode_packet_loses_pending :
    (part s : Bytes)
    → part ≢ []
    → Lacks 0 s
    → (decode_packet (end_flag ∷ s) part ≡ frames [] s)
      × (frames part (end_flag ∷ s) ≡ (part ∷ (frames [] s).0, (frames [] s).1))
unfolding decode_packet
decode_packet_loses_pending [] s n h = absurd (n refl)
decode_packet_loses_pending (c ∷ part) s n h = (
  ap (λ d. decode_cut d (c ∷ part)) (before_nul-Lacks (end_flag ∷ s) (omega arith, h))
      ∙ decode_cut_skips (c ∷ part) s
      ∙ sym (frames-split [] s),
  frames-emit (c ∷ part) s refl,
)
