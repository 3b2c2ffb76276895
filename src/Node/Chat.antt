-- ===== src/Node/Chat.antt =====
-- A chat packet from one client of a node to another.
use sara.Common.{
  ◌+◌, ◌≡◌, ◌≢◌, refl, ap, ◌∙◌, ℕ, false, [], ◌∷◌, ◌++◌, some, arith, Bytes, bytes_eq, bytes_eq_iff,
  bytes_eq_refl, insert, lookup-insert, Result, ok, ret,
}
use sara.Jid.{Jid, new_jid, to_sessionid, string_without_resource}
use sara.Packet.{Packet, to_json, end_flag}
use sara.Session.State.{Env, Shared, Session, RouterItem}
use sara.Session.Actions.{route_packet}
use sara.Session.Handler.{handle_packet, stamp}
use sara.Session.Delivery.{IsLoggedIn, route_packet_incoming}
use sara.Session.Forwarding.{IsChat, now, handle_packet_lem, to_json-stamp}
use sara.Node.{
  Node, fetch_session, on_session, signal_session, deliver, handle_item, work, router_worker,
}

module _ (env : Env) (channel : Bytes) (publish : Bytes → Bytes → ℕ → Result (Unit {0})) where
  -- A session of the node, with its client's address.
  pub record IsClient (n : Node env channel publish) (sid : Bytes) (session : Session) (j : Jid)
      : Type 0 where
    pub registered : fetch_session sid n.sessions ≡ some session
    pub login : IsLoggedIn env (record { shared = n.shared; session = session }) j

  -- The session behind the delivery of a packet.
  abbrev pub received : Packet → Bytes → Session → Session
  received packet text session = record session {
    pkg_buff = insert packet.envelope.id packet session.pkg_buff;
    sent = session.sent ++ (text ++ end_flag ∷ []) ∷ [];
  }

  handled :
      (item : RouterItem) (packet : Packet) (s : Shared env) (n : Node env channel publish)
      (session t : Session)
      → item.channel ≡ channel
      → item.signal ≡ 0
      → item.packet ≡ some packet
      → fetch_session item.sid n.sessions ≡ some session
      → route_packet env packet (record { shared = n.shared; session = session })
        ≡ (ret tt, record { shared = s; session = t })
      → handle_item env channel publish item n
        ≡ (ret tt, record { shared = s; sessions = insert item.sid t n.sessions })
  handled item packet s n session t here plain carries found e =
      unfold handle_item deliver on_session signal_session in
      ground (
        arith,
        here,
        plain,
        carries,
        found,
        e,
        bytes_eq_refl channel,
        bytes_eq_iff channel item.channel,
      )

  -- The item that is queued, and the node once it is.
  abbrev item_of : Packet → Bytes → Node env channel publish → RouterItem
  item_of packet ssb n = record {
    channel = (env.unmarshal_status ssb).channel;
    sid = (env.unmarshal_status ssb).sid;
    packet = some (stamp (now env n.shared) packet);
    signal = 0;
  }

  sent_lem :
      (text : Bytes) (packet : Packet) (n : Node env channel publish) (a : Bytes) (sa : Session)
      (ja from to : Jid) (ssb : Bytes) (db : env.db.State)
      → IsLoggedIn env (record { shared = n.shared; session = sa }) ja
      → IsChat env text packet from to
      → string_without_resource from ≡ string_without_resource ja
      → string_without_resource to ≢ string_without_resource ja
      → env.db.get (to_sessionid to) n.shared.db ≡ (ret (ok ssb), db)
      → n.shared.routed ≡ []
      → on_session env channel publish a sa (handle_packet env text) n ≡ (
        ret tt,
        record n {
          shared = record n.shared {
            db = db;
            calls = n.shared.calls + 1;
            routed = item_of packet ssb n ∷ [];
          };
          sessions = insert a sa n.sessions;
        },
      )
  sent_lem text packet n a sa ja from to ssb db l c own other found empty =
      unfold on_session in
      rw
        (handle_packet_lem env text packet (record { shared = n.shared; session = sa }) ja from to
          ssb db l c own other found (rw empty (omega arith)))
        (ap
          (λ q. (
            ret tt,
            record n {
              shared = record n.shared {
                db = db;
                calls = n.shared.calls + 1;
                routed = q ++ item_of packet ssb n ∷ [];
              };
              sessions = insert a sa n.sessions;
            },
          ))
          empty)

  pub taken_lem :
      (item : RouterItem) (packet : Packet) (text : Bytes) (m : Node env channel publish)
      (sb : Session) (jb to : Jid)
      → item.channel ≡ channel
      → item.signal ≡ 0
      → item.packet ≡ some packet
      → fetch_session item.sid m.sessions ≡ some sb
      → IsLoggedIn env (record { shared = m.shared; session = sb }) jb
      → sb.closed ≡ false
      → new_jid packet.envelope.to ≡ ok to
      → string_without_resource to ≡ string_without_resource jb
      → to_json env.json packet ≡ text
      → handle_item env channel publish item m ≡ (
        ret tt,
        record {
          shared = m.shared;
          sessions = insert item.sid (received packet text sb) m.sessions;
        },
      )
  taken_lem item packet text m sb jb to here plain carries found l open_conn t same raw =
      handled item packet m.shared m sb (received packet text sb) here plain carries found (
        route_packet_incoming env packet (record { shared = m.shared; session = sb }) jb to l
          open_conn t same
        ∙ ap
            (λ x. (
              ret tt,
              record {
                shared = m.shared;
                session = record sb {
                  pkg_buff = insert packet.envelope.id packet sb.pkg_buff;
                  sent = sb.sent ++ (x ++ end_flag ∷ []) ∷ [];
                };
              },
            ))
            raw)

  -- A chat packet from one client of a node to another. The sender's session is logged in and the
  -- packet names it as its sender; the recipient's is logged in, open and another one; the database
  -- finds the recipient's session, on this node; the packet asks for no acknowledgement, and the
  -- router's queue is empty. Once the handler of the sender and then a router worker have run, the
  -- text of the packet is on the recipient's connection, byte by byte and with the end flag, behind
  -- what was sent before, and the packet waits there to be acknowledged.
  pub chat_delivered :
      (text : Bytes) (packet : Packet) (n : Node env channel publish) (a b : Bytes)
      (sa sb : Session) (ja jb from to : Jid) (ssb : Bytes) (db : env.db.State)
      → IsClient n a sa ja
      → IsClient n b sb jb
      → bytes_eq a b ≡ false
      → sb.closed ≡ false
      → IsChat env text packet from to
      → string_without_resource from ≡ string_without_resource ja
      → string_without_resource to ≡ string_without_resource jb
      → string_without_resource to ≢ string_without_resource ja
      → env.db.get (to_sessionid to) n.shared.db ≡ (ret (ok ssb), db)
      → (env.unmarshal_status ssb).channel ≡ channel
      → (env.unmarshal_status ssb).sid ≡ b
      → n.shared.routed ≡ []
      → let sent = on_session env channel publish a sa (handle_packet env text) n in
        let delivered = router_worker env channel publish sent.1 in
        (sent.0 ≡ ret tt)
        × (delivered.0 ≡ ret tt)
        × (fetch_session b delivered.1.sessions
            ≡ some (received (stamp (now env n.shared) packet) text sb))
  unfolding router_worker work fetch_session
  chat_delivered text packet n a b sa sb ja jb from to ssb db ca cb differ open_conn c own his other
        found here there empty =
      let stamped = stamp (now env n.shared) packet in
      let m : Node env channel publish = record {
        shared = record n.shared { db = db; calls = n.shared.calls + 1; routed = [] };
        sessions = insert a sa n.sessions;
      } in
      let taken =
        taken_lem (item_of packet ssb n) stamped text m sb jb to here refl refl
          (rw there (rw (lookup-insert, differ) cb.registered))
          (record { status = cb.login.status; address = cb.login.address }) open_conn
          (unfold stamp in c.recipient) his
          (to_json-stamp env text (now env n.shared) packet c.decoded) in
      rw (sent_lem text packet n a sa ja from to ssb db ca.login c own other found empty, taken)
        (refl, refl, rw (there, lookup-insert, bytes_eq_refl b) refl)
