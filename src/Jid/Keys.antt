-- ===== src/Jid/Keys.antt =====
-- Addresses compared without their resource, and the keys of the store that are made of them.
use sara.Common.{codes, ℕ, arith, ℕ, ◌≡◌, ◌≢◌, ◌↔◌, refl, ap, [], ◌∷◌, ◌++◌, Bytes, Lacks}
use sara.Jid.{
  Jid, session_prefix, offline_prefix, string_without_resource, to_sessionid, to_offline_key,
}
use sara.Jid.Parse.{IsParsed}

append_left_cancel : (p a b : Bytes) → p ++ a ≡ p ++ b → a ≡ b
append_left_cancel [] a b e = e
append_left_cancel (x ∷ p) a b e = append_left_cancel p a b cc

-- What stands before the first separator, and what behind it, is determined by the text.
append-sep_injective :
    (c : ℕ) (a b s t : Bytes) → Lacks c a → Lacks c b → a ++ c ∷ s ≡ b ++ c ∷ t → (a ≡ b) × (s ≡ t)
append-sep_injective c [] [] s t ha hb e = (refl, cc)
append-sep_injective c [] (y ∷ b) s t ha hb e = absurd (hb.0 cc)
append-sep_injective c (x ∷ a) [] s t ha hb e = absurd (ha.0 cc)
append-sep_injective c (x ∷ a) (y ∷ b) s t ha hb e =
    let (p, q) = append-sep_injective c a b s t ha.1 hb.1 (cc) in (cc, q)

-- Two addresses have the same bare text exactly if they have the same user and domain.
pub string_without_resource_iff :
    (j k : Jid)
    → IsParsed j
    → IsParsed k
    → (string_without_resource j ≡ string_without_resource k)
      ↔ ((j.user ≡ k.user) × (j.domain ≡ k.domain))
unfolding string_without_resource
string_without_resource_iff j k v w = (
  append-sep_injective b'@' j.user k.user j.domain k.domain v.user_at w.user_at,
  λ h. cc (h.0, h.1),
)

abbrev first : Bytes → ℕ
first [] = 0
first (c ∷ s) = c

session-offline : (a b : Bytes) → session_prefix ++ a ≢ offline_prefix ++ b
session-offline a b e =
    let h : first (codes "s") ≡ first (codes "o") = ap first e in omega (arith, h)

-- Two addresses share the session key exactly if they share user and domain, and likewise the
-- offline key; no session key is an offline key.
pub key_iff :
    (j k : Jid)
    → IsParsed j
    → IsParsed k
    → ((to_sessionid j ≡ to_sessionid k) ↔ ((j.user ≡ k.user) × (j.domain ≡ k.domain)))
      × ((to_offline_key j ≡ to_offline_key k) ↔ ((j.user ≡ k.user) × (j.domain ≡ k.domain)))
      × (to_sessionid j ≢ to_offline_key k)
unfolding to_sessionid to_offline_key
key_iff j k v w =
    let same = string_without_resource_iff j k v w in
    (
      (
        (λ e. same.0 (append_left_cancel session_prefix _ _ e)),
        λ h. ap (◌++◌ session_prefix) (same.1 h),
      ),
      (
        (λ e. same.0 (append_left_cancel offline_prefix _ _ e)),
        λ h. ap (◌++◌ offline_prefix) (same.1 h),
      ),
      λ e. session-offline (string_without_resource j) (string_without_resource k) e,
    )
