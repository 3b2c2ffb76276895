-- ===== src/Decoder/Pieces.antt =====
-- The framing of a stream byte by byte, over the pieces of its split, and the rounds of the decoder's
-- loop over them.
use sara.Common.{
  ℕ, ◌+◌, ◌≡◌, ◌≢◌, inl, inr, refl, sym, ◌<◌, false, List, [], ◌∷◌, ◌++◌, append-nil, append_assoc,
  arith, if◌then◌else◌, ◌==◌, length, Bytes, is_empty, split, cons_head, split-ne-nil, Bool-cases,
}
use sara.Packet.{end_flag}
use sara.Decoder.{last_byte, decode_round, decode_loop}

-- What is complete is put out, unless it is empty.
abbrev pub emit : Bytes → List Bytes → List Bytes
emit p out = if is_empty p then out else p ∷ out

-- The packets of a stream that continues `cur`, and what is left behind the last end flag.
unfoldable pub frames : Bytes → Bytes → List Bytes × Bytes
frames cur [] = ([], cur)
frames cur (c ∷ s) =
    let finished = frames [] s in
    let pending = frames (cur ++ c ∷ []) s in
    if c == end_flag then (emit cur finished.0, finished.1) else pending

-- The same over the pieces of the split.
unfoldable pub frame_pieces : Bytes → List Bytes → List Bytes × Bytes
frame_pieces cur [] = ([], cur)
frame_pieces cur (p ∷ []) = ([], cur ++ p)
frame_pieces cur (p ∷ q ∷ ps) =
    let rest = frame_pieces [] (q ∷ ps) in (emit (cur ++ p) rest.0, rest.1)

pub frame_pieces-cons_head :
    (cur : Bytes) (c : ℕ) (ps : List Bytes)
    → ps ≢ []
    → frame_pieces cur (cons_head c ps) ≡ frame_pieces (cur ++ c ∷ []) ps
unfolding frame_pieces
frame_pieces-cons_head cur c [] h = absurd (h refl)
frame_pieces-cons_head cur c (p ∷ []) h = simp append_assoc
frame_pieces-cons_head cur c (p ∷ q ∷ ps) h = simp append_assoc

pub frames-split : (cur s : Bytes) → frames cur s ≡ frame_pieces cur (split end_flag s)
unfolding frames frame_pieces split
frames-split cur [] = rw append-nil
frames-split cur (c ∷ s) = elim (Bool-cases (c == end_flag)) [
  | inl e ↦ rw (e, frames-split [] s) (at (split end_flag s) (split-ne-nil end_flag s))
  | inr e ↦
      rw (e, frames-split (cur ++ c ∷ []) s)
        (sym (frame_pieces-cons_head cur c (split end_flag s) (split-ne-nil end_flag s)))
]
  where
    at :
        (ps : List Bytes)
        → ps ≢ []
        → (emit cur (frame_pieces [] ps).0, (frame_pieces [] ps).1) ≡ frame_pieces cur ([] ∷ ps)
    at [] h = absurd (h refl)
    at (p ∷ ps) h = rw append-nil

-- A last piece that is not empty goes with a last byte that is no end flag.
abbrev pub EndsWell : ℕ → List Bytes → Type 0
EndsWell last [] = Unit {0}
EndsWell last (p ∷ []) = is_empty p ≡ false → (last == end_flag) ≡ false
EndsWell last (p ∷ q ∷ ps) = EndsWell last (q ∷ ps)

-- A text with no end flag is one piece, which is not empty.
abbrev pub SingleFull : List Bytes → Type 0
SingleFull [] = Unit {0}
SingleFull (p ∷ []) = is_empty p ≡ false
SingleFull (p ∷ q ∷ ps) = Unit {0}

pub split-SingleFull : (c : ℕ) (s : Bytes) → SingleFull (split end_flag (c ∷ s))
unfolding split
split-SingleFull c s = go (split end_flag s) (split-ne-nil end_flag s)
  where
    go :
        (ps : List Bytes) → ps ≢ [] → SingleFull (if c == end_flag then [] ∷ ps else cons_head c ps)
    go [] h = absurd (h refl)
    go (p ∷ []) h = ground arith
    go (p ∷ q ∷ ps) h = ground arith

pub split-EndsWell : (c : ℕ) (s : Bytes) → EndsWell (last_byte (c ∷ s)) (split end_flag (c ∷ s))
unfolding split last_byte
split-EndsWell c [] = ground arith
split-EndsWell c (d ∷ s) =
    go (split end_flag (d ∷ s)) (last_byte (d ∷ s)) (split-ne-nil end_flag (d ∷ s))
      (split-EndsWell d s) (split-SingleFull d s)
  where
    go :
        (ps : List Bytes) (last : ℕ)
        → ps ≢ []
        → EndsWell last ps
        → SingleFull ps
        → EndsWell last (if c == end_flag then [] ∷ ps else cons_head c ps)
    go [] last h w f = absurd (h refl)
    go (p ∷ []) last h w f = ground (arith, w f)
    go (p ∷ q ∷ ps) last h w f = ground arith

-- The rounds behind the first: all but the last put their piece out, the last keeps it.
module _ (size last : ℕ) (part : Bytes) (i : ℕ) (p : Bytes) (out : List Bytes) (h : 0 < i) where
  pub decode_round_inner :
      i < size
      → (new : Bytes) → decode_round size last part i p (out, new) ≡ (out ++ emit p [], new)
  unfolding decode_round
  decode_round_inner le new = ground (arith, append-nil out)

  pub decode_round_last :
      i ≡ size
      → (is_empty p ≡ false → (last == end_flag) ≡ false)
      → decode_round size last part i p (out, []) ≡ (out, p)
  unfolding decode_round
  decode_round_last e w = go p w
    where
      go :
          (r : Bytes)
          → (is_empty r ≡ false → (last == end_flag) ≡ false)
          → decode_round size last part i r (out, []) ≡ (out, r)
      go [] w = refl
      go (c ∷ r) w = ground (arith, w refl)

pub emit-append : (p : Bytes) (out : List Bytes) → emit p [] ++ out ≡ emit p out
emit-append [] out = refl
emit-append (c ∷ p) out = refl

pub decode_loop-tail :
    (size last : ℕ) (part : Bytes) (i : ℕ) (p : Bytes) (ps out : List Bytes)
    → 0 < i
    → size ≡ i + length ps
    → EndsWell last (p ∷ ps)
    → decode_loop size last part i (p ∷ ps) (out, [])
      ≡ (out ++ (frame_pieces [] (p ∷ ps)).0, (frame_pieces [] (p ∷ ps)).1)
unfolding decode_loop frame_pieces
decode_loop-tail size last part i p [] out h e w =
    rw (decode_round_last size last part i p out h (omega arith) w, append-nil)
decode_loop-tail size last part i p (q ∷ ps) out h e w = rw (
  decode_round_inner size last part i p out h (omega arith) [],
  decode_loop-tail size last part (i + 1) q ps (out ++ emit p []) (omega arith) (omega arith) w,
  append_assoc,
  emit-append,
)
