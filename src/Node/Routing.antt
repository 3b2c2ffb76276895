-- ===== src/Node/Routing.antt =====
-- What a router worker does to the sessions of its node, and to the node.
use sara.Common.{
  subst, Bool-cases, inl, inr, ◌<◌, ℕ, ◌≡◌, ◌≢◌, refl, sym, ◌∙◌, ap, Bool, true, false, ◌||◌, List,
  [], ◌∷◌, ◌++◌, Option, none, some, if◌then◌else◌, Bytes, bytes_eq, bytes_eq_iff, is_empty, lookup,
  lookup-insert, insert, arith, Result, ok, err, Outcome, ret, panic, Exec, pure, fault, ◌>>=◌,
  length,
}
use sara.Jid.{Jid, new_jid, to_sessionid}
use sara.Packet.{Packet, new_packet, to_json}
use sara.Packet.MsgType
use sara.Session.State.{Env, Shared, Session, RouterItem, on_db, tick, route, router_queue_size}
use sara.Session.Actions.{route_packet, store_packet}
use sara.Session.Progress.{Advances-if, Follows, Follows-refl, Advances, Advances-pure}
use sara.Session.Progress.Methods.{route_packet-Advances, kill_session-Advances}
use sara.Node.{
  SessionMap, Node, fetch_session, on_session, signal_session, deliver, forward, handle_item, work,
  router_worker, on_shared, route_found, node_route_packet, handle_decoded, data_channel_handler,
}

module _ (env : Env) (channel : Bytes) (publish : Bytes → Bytes → ℕ → Result (Unit {0})) where
  -- Where the first item of the queue is for another node, that is, for a channel that is not empty
  -- and not this node's, and carries no packet, the worker panics.
  pub router_worker_panics :
      (item : RouterItem) (rest : List RouterItem) (n : Node env channel publish)
      → n.shared.routed ≡ item ∷ rest
      → item.packet ≡ none
      → is_empty item.channel ≡ false
      → channel ≢ item.channel
      → (router_worker env channel publish n).0 ≡ panic
  unfolding router_worker work handle_item forward fault
  router_worker_panics item rest n queue empty named other =
      ground (arith, queue, bytes_eq_iff channel item.channel)

  abbrev Continues : SessionMap → SessionMap → Type 0
  Continues before after =
      (sid : Bytes) (s : Session)
      → fetch_session sid before ≡ some s
      → (t : Session) × (fetch_session sid after ≡ some t) × Follows s t

  Continues-refl : (m : SessionMap) → Continues m m
  Continues-refl m sid s e = (s, e, Follows-refl s)

  fault-Advances : Advances {env = env} (fault {A = Unit {0}})
  unfolding fault
  fault-Advances = record { at = λ w. Follows-refl w.session }

  signal_session-Advances : (item : RouterItem) → Advances (signal_session env channel publish item)
  unfolding signal_session
  signal_session-Advances item =
      Advances-if _ _ _ (packet item.packet)
        (Advances-if _ _ _ (kill_session-Advances env) (Advances-pure tt))
    where
      packet :
          (p : Option Packet)
          → Advances {env = env} {A = Unit {0}}
              (elim p [ some packet ↦ route_packet env packet | none ↦ fault ])
      packet (some p) = route_packet-Advances env p
      packet none = fault-Advances

  insert-Continues :
      (sid : Bytes) (session t : Session) (m : SessionMap)
      → fetch_session sid m ≡ some session
      → Follows session t
      → Continues m (insert sid t m)
  unfolding fetch_session
  insert-Continues sid session t m found f k s e = elim (Bool-cases (bytes_eq sid k)) [
    | inl h ↦
        let same : some session ≡ some s =
          sym found ∙ ap (λ i. lookup i m) ((bytes_eq_iff sid k).0 h) ∙ e in
        (t, rw (lookup-insert, h), subst (λ u. Follows u t) (cc) f)
    | inr h ↦ (s, rw (lookup-insert, h) e, Follows-refl s)
  ]

  deliver-Continues :
      (item : RouterItem) (n : Node env channel publish)
      → Continues n.sessions (deliver env channel publish item n).1.sessions
  unfolding deliver on_session
  deliver-Continues item n = go (fetch_session item.sid n.sessions) refl
    where
      go :
          (found : Option Session)
          → fetch_session item.sid n.sessions ≡ found
          → Continues n.sessions (
              (elim found as (λ _. Outcome (Unit {0}) × Node env channel publish) [
                | some session ↦
                    on_session env channel publish item.sid session
                      (signal_session env channel publish item)
                      n
                | none ↦ (ret tt, n)
              ]).1.sessions)
      go none e = Continues-refl n.sessions
      go (some session) e =
          insert-Continues item.sid session _ n.sessions e
            ((signal_session-Advances item).at (record { shared = n.shared; session = session }))

  forward-sessions :
      (item : RouterItem) (n : Node env channel publish)
      → (forward env channel publish item n).1.sessions ≡ n.sessions
  unfolding forward fault ◌>>=◌ on_shared tick pure
  forward-sessions item n = go item.packet
    where
      called :
          (packet : Packet) (r : Result (Unit {0})) (v : Node env channel publish)
          → ((elim r as (λ _. Exec (Node env channel publish) (Unit {0})) [
            | ok _ ↦ pure tt
            | err e ↦ on_shared env channel publish (store_packet env packet)
          ])
              v).1.sessions
            ≡ v.sessions
      called packet (ok _) v = refl
      called packet (err e) v = refl

      go :
          (p : Option Packet)
          → (forward env channel publish (record item { packet = p }) n).1.sessions ≡ n.sessions
      go none = refl
      go (some packet) = called packet _ _

  handle_item-Continues :
      (item : RouterItem) (n : Node env channel publish)
      → Continues n.sessions (handle_item env channel publish item n).1.sessions
  unfolding handle_item
  handle_item-Continues item n = go (is_empty item.channel || bytes_eq channel item.channel)
    where
      go :
          (here : Bool)
          → Continues n.sessions
              ((if here then deliver env channel publish item else forward env channel publish item)
                n).1.sessions
      go true = deliver-Continues item n
      go false = rw forward-sessions (Continues-refl n.sessions)

  -- Whatever a router worker takes from the queue, and also if it panics, every session that was
  -- registered is registered still, under the same id, and has only gone forward: from `conn` over
  -- `login` to `close`, with what was sent kept.
  pub router_worker-Follows :
      (n : Node env channel publish) (sid : Bytes) (s : Session)
      → fetch_session sid n.sessions ≡ some s
      → (t : Session) × (fetch_session sid (router_worker env channel publish n).1.sessions
          ≡ some t)
        × Follows s t
  unfolding router_worker work
  router_worker-Follows n = go n.shared.routed
    where
      go :
          (items : List RouterItem)
          → Continues n.sessions (work env channel publish items n).1.sessions
      go [] = Continues-refl n.sessions
      go (item ∷ rest) =
          handle_item-Continues item (record n { shared = record n.shared { routed = rest } })

  -- A packet from another node, no group chat, for a client that is registered: it is queued for the
  -- client's session as it was received, byte by byte, if the router's queue has room.
  pub data_channel_handler_registered :
      (message ssb : Bytes) (packet : Packet) (to : Jid) (s : Shared env) (db : env.db.State)
      → new_packet env.json message ≡ ok packet
      → packet.envelope.msg_type ≢ MsgType.group_chat
      → new_jid packet.envelope.to ≡ ok to
      → env.db.get (to_sessionid to) s.db ≡ (ret (ok ssb), db)
      → length s.routed < router_queue_size
      → (data_channel_handler env channel publish message s ≡ (
        ret tt,
        record s {
          db = db;
          routed =
              s.routed
              ++ record {
                channel = (env.unmarshal_status ssb).channel;
                sid = (env.unmarshal_status ssb).sid;
                packet = some packet;
                signal = 0;
              }
                ∷ [];
        },
      ))
        × (to_json env.json packet ≡ message)
  data_channel_handler_registered message ssb packet to s db made chat address found room = (
    unfold data_channel_handler handle_decoded node_route_packet route_found ◌>>=◌ on_db route
          pure in
        ground (arith, made, address, found),
    unfold new_packet to_json in ground (arith, made),
  )
