-- ===== src/Session/Ranges.antt =====
-- What holds of the elements of a list holds in any order of it, for the map that pkgBuffToStore of
-- core/session.go ranges over.
use mathlib.Core.List.{Permᴰ}
use sara.Common.{◌≡◌, sym, ◌∙◌, ap, subst, List, [], ◌∷◌, Bytes, All, ◌⊎◌, inl, inr}
use sara.Packet.{Packet}

pub All-Perm : {A : Type 0} (P : A → Type 0) {xs ys : List A} → Permᴰ xs ys → All P xs → All P ys
All-Perm P Permᴰ.nil h = tt
All-Perm P (Permᴰ.cons e d) (h, hs) = (subst P e h, All-Perm P d hs)
All-Perm P (Permᴰ.swap e f) (g, (h, hs)) = (subst P f h, (subst P e g, hs))
All-Perm P (Permᴰ.trans d e) h = All-Perm P e (All-Perm P d h)

-- The packet is in the buffer.
abbrev pub Holds : Packet → List (Bytes × Packet) → Type 0
Holds p [] = ⊥
Holds p (e ∷ rest) = (e.1 ≡ p) ⊎ Holds p rest

pub Holds-Perm :
    (p : Packet) {xs ys : List (Bytes × Packet)} → Permᴰ xs ys → Holds p xs → Holds p ys
Holds-Perm p Permᴰ.nil h = h
Holds-Perm p (Permᴰ.cons e d) (inl h) = inl (ap (λ x. x.1) (sym e) ∙ h)
Holds-Perm p (Permᴰ.cons e d) (inr h) = inr (Holds-Perm p d h)
Holds-Perm p (Permᴰ.swap e f) (inl h) = inr (inl (ap (λ x. x.1) (sym e) ∙ h))
Holds-Perm p (Permᴰ.swap e f) (inr (inl h)) = inl (ap (λ x. x.1) (sym f) ∙ h)
Holds-Perm p (Permᴰ.swap e f) (inr (inr h)) = inr (inr h)
Holds-Perm p (Permᴰ.trans d e) h = Holds-Perm p e (Holds-Perm p d h)
