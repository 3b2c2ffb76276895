-- ===== src/Jid/Parse.antt =====
-- What `NewJID` accepts, and that `String` and `NewJID` undo one another.
use sara.Common.{
  ◌↔◌, ◌≡◌, ◌≢◌, inl, inr, List, [], ◌∷◌, ◌++◌, arith, Bytes, Lacks, AllPieces, All-append, subst,
  split, split-append, split-Lacks, split-AllPieces, split-Lacks_other, split_cases, ok, err,
}
use sara.Jid.{Jid, fail_format, domain_resource, from_pieces, new_jid, string}

-- The texts that `NewJID` can put into its fields.
pub record IsParsed (j : Jid) : Type 0 where
  pub user_at : Lacks b'@' j.user
  pub domain_at : Lacks b'@' j.domain
  pub domain_slash : Lacks b'/' j.domain
  pub resource_at : Lacks b'@' j.resource
  pub resource_slash : Lacks b'/' j.resource

domain_resource-IsParsed :
    (user : Bytes) (ps : List Bytes)
    → Lacks b'@' user
    → AllPieces (λ x. x ≢ b'@') ps
    → AllPieces (λ x. x ≢ b'/') ps
    → IsParsed (domain_resource user ps)
unfolding domain_resource
domain_resource-IsParsed user [] hu ha hs = record {
  user_at = hu;
  domain_at = tt;
  domain_slash = tt;
  resource_at = tt;
  resource_slash = tt;
}
domain_resource-IsParsed user (d ∷ []) hu ha hs = record {
  user_at = hu;
  domain_at = ha.0;
  domain_slash = hs.0;
  resource_at = tt;
  resource_slash = tt;
}
domain_resource-IsParsed user (d ∷ r ∷ []) hu ha hs = record {
  user_at = hu;
  domain_at = ha.0;
  domain_slash = hs.0;
  resource_at = ha.1.0;
  resource_slash = hs.1.0;
}
domain_resource-IsParsed user (d ∷ r ∷ q ∷ ps) hu ha hs = record {
  user_at = hu;
  domain_at = ha.0;
  domain_slash = hs.0;
  resource_at = tt;
  resource_slash = tt;
}

from_pieces-IsParsed :
    (s : Bytes) (ps : List Bytes) (j : Jid)
    → AllPieces (λ x. x ≢ b'@') ps
    → from_pieces s ps ≡ ok j
    → IsParsed j
unfolding from_pieces
from_pieces-IsParsed s [] j h e = cc
from_pieces-IsParsed s (u ∷ []) j h e = cc
from_pieces-IsParsed s (u ∷ a ∷ rest) j h e =
    let same : domain_resource u (split b'/' a) ≡ j = cc in
    subst IsParsed same (
      domain_resource-IsParsed u (split b'/' a) h.0 (split-Lacks_other b'/' b'@' a h.1.0)
        (split-AllPieces b'/' a))

-- An accepted text gives a JID whose fields hold no separator.
pub new_jid-IsParsed : (s : Bytes) (j : Jid) → new_jid s ≡ ok j → IsParsed j
unfolding new_jid
new_jid-IsParsed s j e = from_pieces-IsParsed s (split b'@' s) j (split-AllPieces b'@' s) e

-- A bare address is read back.
pub new_jid-bare :
    (u d : Bytes)
    → Lacks b'@' u
    → Lacks b'@' d
    → Lacks b'/' d
    → new_jid (u ++ b'@' ∷ d) ≡ ok (record { user = u; domain = d; resource = [] })
unfolding new_jid
new_jid-bare u d hu ha hs =
    rw (split-append b'@' u d hu, split-Lacks b'@' d ha, from_pieces, split-Lacks b'/' d hs)

new_jid-full :
    (u d r : Bytes)
    → Lacks b'@' u
    → Lacks b'@' d
    → Lacks b'/' d
    → Lacks b'@' r
    → Lacks b'/' r
    → new_jid (u ++ b'@' ∷ (d ++ b'/' ∷ r)) ≡ ok (record { user = u; domain = d; resource = r })
unfolding new_jid
new_jid-full u d r hu ha hs hra hrs =
    let whole : Lacks b'@' (d ++ b'/' ∷ r) = All-append _ d (b'/' ∷ r) ha (omega arith, hra) in
    rw (
      split-append b'@' u (d ++ b'/' ∷ r) hu,
      split-Lacks b'@' (d ++ b'/' ∷ r) whole,
      from_pieces,
      split-append b'/' d r hs,
      split-Lacks b'/' r hrs,
    )

-- A JID with no separator in its fields is read back from its text.
pub new_jid-string : (j : Jid) → IsParsed j → new_jid (string j) ≡ ok j
unfolding string
new_jid-string j v = go j.resource v.resource_at v.resource_slash
  where
    open j use {user, domain}

    go :
        (r : Bytes)
        → Lacks b'@' r
        → Lacks b'/' r
        → new_jid (string (record { user = user; domain = domain; resource = r }))
          ≡ ok (record { user = user; domain = domain; resource = r })
    go [] ha hs = new_jid-bare user domain v.user_at v.domain_at v.domain_slash
    go (c ∷ r) ha hs = new_jid-full user domain (c ∷ r) v.user_at v.domain_at v.domain_slash ha hs

-- Whatever text a JID was read from, its own text reads back as the same JID.
pub new_jid-string-new_jid : (s : Bytes) (j : Jid) → new_jid s ≡ ok j → new_jid (string j) ≡ ok j
new_jid-string-new_jid s j e = new_jid-string j (new_jid-IsParsed s j e)

ok≢err {ℓ} : {A : Type ℓ} {a : A} {m : Bytes} → ok a ≡ err m → ⊥
ok≢err e = cc

-- `NewJID` fails exactly on the texts with no `@`, and the error names the text.
pub new_jid_fails : (s : Bytes) → (new_jid s ≡ err (fail_format ++ s)) ↔ Lacks b'@' s
unfolding new_jid from_pieces
new_jid_fails s = (
  (λ e. elim (split_cases b'@' s) [
    | inl h ↦ h
    | inr (p, q, rest, two) ↦ absurd (ok≢err (rw (two, from_pieces) at e))
  ]),
  λ h. rw (split-Lacks b'@' s h),
)
