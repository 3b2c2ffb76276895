-- ===== src/Node/Workers.antt =====
-- node/router.go, `newRouter` and `worker`: the workers of a router side by side. A worker takes an
-- item from the queue and then handles it; in between other workers go on. The handling of an item
-- is one step here.
mod Tests
use sara.Common.{
  ℕ, ◌<◌, ◌≡◌, refl, ap, subst, false, List, [], ◌∷◌, ◌++◌, some, Bytes, bytes_eq_refl,
  lookup-insert, insert, length, ok, Result, ret, arith,
}
use sara.Jid.{Jid, new_jid, string_without_resource}
use sara.Packet.{Packet, to_json, end_flag}
use sara.Session.State.{Env, Session, RouterItem}
use sara.Session.Delivery.{IsLoggedIn}
use sara.Node.{Node, fetch_session, handle_item}
use sara.Node.Chat.{received, taken_lem}

-- core/types/defines.go.
abbrev pub router_worker_num : ℕ
router_worker_num = 500

module _ (env : Env) (channel : Bytes) (publish : Bytes → Bytes → ℕ → Result (Unit {0})) where
  -- A node, and the items that workers have taken and not yet handled.
  pub record Workers : Type 0 where
    pub node : Node env channel publish
    pub held : List RouterItem

  pub data Turn (s : Workers) : Workers → Type 0 where
    take :
        (item : RouterItem) (rest : List RouterItem)
        → s.node.shared.routed ≡ item ∷ rest
        → length s.held < router_worker_num
        → Turn s (record {
          node = record s.node { shared = record s.node.shared { routed = rest } };
          held = s.held ++ item ∷ [];
        })
    handle :
        (before : List RouterItem) (item : RouterItem) (after : List RouterItem)
        → s.held ≡ before ++ item ∷ after
        → (handle_item env channel publish item s.node).0 ≡ ret tt
        → Turn s (record {
          node = (handle_item env channel publish item s.node).1;
          held = before ++ after;
        })

  pub data Reach (s : Workers) : Workers → Type 0 where
    here : Reach s s
    next : {t u : Workers} → Reach s t → Turn t u → Reach s u

  -- An item with a packet for the session `sb` of this node, whose text this is.
  pub record IsFor (item : RouterItem) (packet : Packet) (text : Bytes) (jb to : Jid) : Type 0 where
    pub here : item.channel ≡ channel
    pub plain : item.signal ≡ 0
    pub carries : item.packet ≡ some packet
    pub recipient : new_jid packet.envelope.to ≡ ok to
    pub his : string_without_resource to ≡ string_without_resource jb
    pub raw : to_json env.json packet ≡ text

  -- Two packets that are queued one behind the other for the same session, which is logged in and
  -- open, can be written to its client in the other order.
  pub overtaken :
      (first second : RouterItem) (p q : Packet) (one two : Bytes) (jb to to' : Jid)
      (n : Node env channel publish) (sb : Session)
      → n.shared.routed ≡ first ∷ second ∷ []
      → first.sid ≡ second.sid
      → fetch_session second.sid n.sessions ≡ some sb
      → IsLoggedIn env (record { shared = n.shared; session = sb }) jb
      → sb.closed ≡ false
      → IsFor first p one jb to
      → IsFor second q two jb to'
      → (u : Workers) × Reach (record { node = n; held = [] }) u
        × (t : Session) × (fetch_session second.sid u.node.sessions ≡ some t)
        × (t.sent ≡ (sb.sent ++ (two ++ end_flag ∷ []) ∷ []) ++ (one ++ end_flag ∷ []) ∷ [])
  overtaken first second p q one two jb to to' n sb queued same found l open_conn a b =
      let start : Workers = record { node = n; held = [] } in
      let rest : Node env channel publish = record n { shared = record n.shared { routed = [] } } in
      let once = received env channel publish q two sb in
      let after_second : Node env channel publish = record {
        shared = rest.shared;
        sessions = insert second.sid once n.sessions;
      } in
      let twice = received env channel publish p one once in
      let after_both : Node env channel publish = record {
        shared = rest.shared;
        sessions = insert first.sid twice after_second.sessions;
      } in
      let second_done : handle_item env channel publish second rest ≡ (ret tt, after_second) =
        taken_lem env channel publish second q two rest sb jb to' b.here b.plain b.carries found
          (record { status = l.status; address = l.address }) open_conn b.recipient b.his b.raw in
      let still : fetch_session first.sid after_second.sessions ≡ some once =
        unfold fetch_session in rw (same, lookup-insert, bytes_eq_refl second.sid) refl in
      let first_done : handle_item env channel publish first after_second ≡ (ret tt, after_both) =
        taken_lem env channel publish first p one after_second once jb to a.here a.plain a.carries
          still (record { status = l.status; address = l.address }) open_conn a.recipient a.his
          a.raw in
      let taken : Reach start (record { node = rest; held = first ∷ second ∷ [] }) =
        next (next here (take first (second ∷ []) queued (omega arith)))
          (take second [] refl (omega arith)) in
      let overtook : Reach start (record { node = after_second; held = first ∷ [] }) =
        subst (λ m. Reach start (record { node = m; held = first ∷ [] }))
          (ap (λ r. r.1) second_done)
          (next taken (handle (first ∷ []) second [] refl (ap (λ r. r.0) second_done))) in
      let done : Reach start (record { node = after_both; held = [] }) =
        subst (λ m. Reach start (record { node = m; held = [] })) (ap (λ r. r.1) first_done)
          (next overtook (handle [] first [] refl (ap (λ r. r.0) first_done))) in
      (
        record { node = after_both; held = [] },
        done,
        twice,
        unfold fetch_session in rw (same, lookup-insert, bytes_eq_refl second.sid) refl,
        refl,
      )
