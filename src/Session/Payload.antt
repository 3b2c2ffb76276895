-- ===== src/Session/Payload.antt =====
-- What holds of the packets of a group chat that core/session.go makes, and what becomes of the payload.
use sara.Common.{
  ℕ, ◌≡◌, refl, subst, Bool, true, false, List, [], ◌∷◌, none, arith, if◌then◌else◌, ltb, length,
  All, Bytes, codes, bytes_eq, contains, split, join, pos, Result, ok, err, Outcome, ret, panic,
  Exec, pure, continue, ◌>>=◌, ◌>>◌,
}
use sara.Jid.{Jid}
use sara.Packet.{Packet, Json, new_packet}
use sara.Session.State.{Env, Shared, on_db}
use sara.Session.Group.{
  group_packet, group_users_key, packet_for, packets_for, gen_group_packets, permitted, ask_service,
  generate_group_packets,
}
use sara.Session.Handler.{stamp}

-- What a step returns, if it returns, satisfies `Q`.
pub record Ensures {S A : Type 0} (Q : A → Type 0) (m : Exec S A) : Type 0 where
  pub at : (s : S) (a : A) → (m s).0 ≡ ret a → Q a

module _ {S A : Type 0} {Q : A → Type 0} where
  continue-Ensures :
      {B : Type 0} (f : B → Exec S A) (o : Outcome B) (s : S) (a : A)
      → ((b : B) → o ≡ ret b → Ensures Q (f b))
      → (continue f o s).0 ≡ ret a
      → Q a
  continue-Ensures f (ret b) s a h e = (h b refl).at s a e
  continue-Ensures f panic s a h e = absurd (cc)

  Ensures-bind :
      {B : Type 0} {R : B → Type 0} (m : Exec S B) (f : B → Exec S A)
      → Ensures R m
      → ((b : B) → R b → Ensures Q (f b))
      → Ensures Q (m >>= f)
  unfolding ◌>>=◌
  Ensures-bind m f hm hf = record {
    at = λ s a. continue-Ensures f (m s).0 (m s).1 a (λ b e. hf b (hm.at s b e));
  }

  Ensures-after :
      {B : Type 0} (m : Exec S B) (f : B → Exec S A)
      → ((b : B) → Ensures Q (f b))
      → Ensures Q (m >>= f)
  unfolding ◌>>=◌
  Ensures-after m f hf = record { at = λ s a. continue-Ensures f (m s).0 (m s).1 a (λ b e. hf b) }

  Ensures-pure : (a : A) → Q a → Ensures {S = S} Q (pure a)
  unfolding pure
  Ensures-pure a q = record { at = λ s b e. subst Q (cc) q }

-- Only the envelope is left of a packet.
abbrev pub IsBare : Packet → Type 0
IsBare p = (p.payload ≡ none) × (p.raw ≡ none)

-- Each of the packets, if any.
abbrev pub Each : (Packet → Type 0) → Result (List Packet) → Type 0
Each Q (ok ps) = All Q ps
Each Q (err e) = Unit {0}

-- What holds of every packet that the loop over the members makes.
module _ (env : Env) (packet : Packet) (Q : Packet → Type 0)
    (made : (to ct : Bytes) (n : ℕ) → Q (group_packet packet to (env.uuid n) ct)) where
  packet_for-Each : (j : Jid) (user : Bytes) → Ensures Q (packet_for env packet j user)
  unfolding packet_for
  packet_for-Each j user = Ensures-after _ _ λ to_jid.
      Ensures-after _ _
        λ id. Ensures-after _ _ λ ct. Ensures-pure _ (made _ (env.timestamp13 ct) id)

  packets_for-Each :
      (j : Jid) (users : List Bytes) → Ensures (All Q) (packets_for env packet j users)
  unfolding packets_for
  packets_for-Each j [] = Ensures-pure [] tt
  packets_for-Each j (user ∷ users) = go (bytes_eq j.user user) (packets_for-Each j users)
    where
      go :
          (same : Bool)
          → Ensures (All Q) (packets_for env packet j users)
          → Ensures {S = Shared env} (All Q) (elim same [
            | true ↦ packets_for env packet j users
            | false ↦ do
              p ← packet_for env packet j user
              ps ← packets_for env packet j users
              pure (p ∷ ps)
          ])
      go true rest = rest
      go false rest =
          Ensures-bind _ _ (packet_for-Each j user)
            λ p hp. Ensures-bind _ _ rest λ ps hps. Ensures-pure (p ∷ ps) (hp, hps)

  gen_group_packets-Each : (users : Bytes) → Ensures (All Q) (gen_group_packets env users packet)
  unfolding gen_group_packets
  gen_group_packets-Each users = Ensures-after _ _ λ j. packets_for-Each j (split b',' users)

  permitted-Each : (j : Jid) (users : Bytes) → Ensures (Each Q) (permitted env j users packet)
  unfolding permitted
  permitted-Each j users = go (contains users j.user)
    where
      go :
          (member : Bool)
          → Ensures {S = Shared env} (Each Q) (
              if member
              then (do packets ← gen_group_packets env users packet; pure (ok packets))
              else pure (err (codes "no_permission")))
      go true = Ensures-bind _ _ (gen_group_packets-Each users) λ ps h. Ensures-pure (ok ps) h
      go false = Ensures-pure _ tt

  ask_service-Each : (j : Jid) (key : Bytes) → Ensures (Each Q) (ask_service env j key packet)
  unfolding ask_service
  ask_service-Each j key = Ensures-after _ _ λ answer. named answer
    where
      enough :
          (many : Bool) (ulist : List Bytes)
          → Ensures {S = Shared env} (Each Q) (
              if many
              then (do
                on_db env (env.db.put_ex key (join b',' ulist) (pos 3600))
                permitted env j (join b',' ulist) packet)
              else pure (err (codes "group_notfound")))
      enough true ulist = Ensures-after _ _ λ _. permitted-Each j (join b',' ulist)
      enough false ulist = Ensures-pure _ tt

      named :
          (answer : Result (List Bytes))
          → Ensures {S = Shared env} (Each Q) (elim answer [
            | err e ↦ pure (err (codes "group_notfound"))
            | ok ulist ↦
                if ltb 1 (length ulist)
                then (do
                  on_db env (env.db.put_ex key (join b',' ulist) (pos 3600))
                  permitted env j (join b',' ulist) packet)
                else pure (err (codes "group_notfound"))
          ])
      named (err e) = Ensures-pure _ tt
      named (ok ulist) = enough (ltb 1 (length ulist)) ulist

  pub generate_group_packets-Each : Ensures (Each Q) (generate_group_packets env packet)
  unfolding generate_group_packets
  generate_group_packets-Each = Ensures-after _ _ λ j. Ensures-after _ _ λ found. members j found
    where
      members :
          (j : Jid) (found : Result Bytes)
          → Ensures {S = Shared env} (Each Q) (elim found [
            | ok users ↦ permitted env j users packet
            | err e ↦ ask_service env j (group_users_key packet.envelope.gid j.domain) packet
          ])
      members j (ok users) = permitted-Each j users
      members j (err e) = ask_service-Each j _

new_packet-no_payload :
    (json : Json) (text : Bytes) (packet : Packet)
    → new_packet json text ≡ ok packet
    → packet.payload ≡ none
unfolding new_packet
new_packet-no_payload json text packet made = ground (arith, made)

-- The payload of a group chat is lost: whatever text a client sent, none of the packets that are
-- made of it for the members has a payload, nor the bytes that were received.
pub generate_group_packets-IsBare :
    (env : Env) (text ct : Bytes) (packet : Packet) (s : Shared env) (packets : List Packet)
    → new_packet env.json text ≡ ok packet
    → (generate_group_packets env (stamp ct packet) s).0 ≡ ret (ok packets)
    → All IsBare packets
generate_group_packets-IsBare env text ct packet s packets e made =
    (generate_group_packets-Each env (stamp ct packet) IsBare (λ to ct n.
        unfold group_packet stamp in (new_packet-no_payload env.json text packet e, refl))).at
      s (ok packets) made
