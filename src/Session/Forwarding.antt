-- ===== src/Session/Forwarding.antt =====
-- A chat packet of a client, from its arrival to the router's queue.
use sara.Common.{
  ◌+◌, ◌<◌, ◌≡◌, ◌≢◌, false, [], ◌∷◌, ◌++◌, some, arith, length, Bytes, bytes_eq, bytes_eq_iff, ok,
  ret, pure, fault, ◌>>=◌,
}
use sara.Jid.{Jid, new_jid, to_sessionid, string_without_resource}
use sara.Packet.{Packet, new_packet, to_json, heart_beat}
use sara.Packet.MsgType
use sara.Session.State.{Env, Shared, World, shared, tick, deref, read_session, router_queue_size}
use sara.Session.Actions.{route_packet, route_logged_in, route_outgoing, equal_without_resource}
use sara.Session.Handler.{handle_packet, handle_message, dispatch, handle_chat, stamp}
use sara.Session.Delivery.{IsLoggedIn, route_to_registered}

module _ (env : Env) where
  -- A text that a client sends to another address, with no acknowledgement asked for.
  pub record IsChat (text : Bytes) (packet : Packet) (from to : Jid) : Type 0 where
    pub no_signal : bytes_eq text (heart_beat ∷ []) ≡ false
    pub decoded : new_packet env.json text ≡ ok packet
    pub chat : packet.envelope.msg_type ≡ MsgType.chat
    pub no_ack : packet.envelope.ack ≡ 0
    pub sender : new_jid packet.envelope.from ≡ ok from
    pub recipient : new_jid packet.envelope.to ≡ ok to

  abbrev pub now : Shared env → Bytes
  now s = env.timestamp13 s.calls

  -- The state behind the packet, where the recipient is registered with `ssb` and the queue has room.
  abbrev pub routed : Shared env → env.db.State → Bytes → Packet → Shared env
  routed s db ssb packet = record s {
    db = db;
    calls = s.calls + 1;
    routed =
        s.routed
        ++ record {
          channel = (env.unmarshal_status ssb).channel;
          sid = (env.unmarshal_status ssb).sid;
          packet = some (stamp (now s) packet);
          signal = 0;
        }
          ∷ [];
  }

  route_packet_lem :
      (packet : Packet) (w : World env) (j from to : Jid) (ssb : Bytes) (db : env.db.State)
      → IsLoggedIn env w j
      → new_jid packet.envelope.from ≡ ok from
      → new_jid packet.envelope.to ≡ ok to
      → string_without_resource from ≡ string_without_resource j
      → string_without_resource to ≢ string_without_resource j
      → env.db.get (to_sessionid to) w.shared.db ≡ (ret (ok ssb), db)
      → length w.shared.routed < router_queue_size
      → route_packet env packet w ≡ (
        ret tt,
        record w {
          shared = record w.shared {
            db = db;
            routed =
                w.shared.routed
                ++ record {
                  channel = (env.unmarshal_status ssb).channel;
                  sid = (env.unmarshal_status ssb).sid;
                  packet = some packet;
                  signal = 0;
                }
                  ∷ [];
          };
        },
      )
  route_packet_lem packet w j from to ssb db l f t own other found room =
      unfold route_packet route_logged_in route_outgoing ◌>>=◌ read_session deref pure fault
        equal_without_resource shared in
      ground (
        arith,
        l.status,
        l.address,
        f,
        t,
        room,
        bytes_eq_iff (string_without_resource j) (string_without_resource to),
        bytes_eq_iff (string_without_resource j) (string_without_resource from),
        route_to_registered env packet to w.shared ssb db found,
      )

  abbrev ticked : World env → World env
  ticked w = record w { shared = record w.shared { calls = w.shared.calls + 1 } }

  dispatch_lem :
      (packet : Packet) (w v : World env)
      → packet.envelope.msg_type ≡ MsgType.chat
      → packet.envelope.ack ≡ 0
      → route_packet env packet w ≡ (ret tt, v)
      → dispatch env packet w ≡ (ret tt, v)
  dispatch_lem packet w v c a e = unfold dispatch handle_chat ◌>>=◌ pure in ground (arith, c, a, e)

  -- Handling such a text is to queue it for the session that is registered.
  pub handle_packet_lem :
      (text : Bytes) (packet : Packet) (w : World env) (j from to : Jid) (ssb : Bytes)
      (db : env.db.State)
      → IsLoggedIn env w j
      → IsChat text packet from to
      → string_without_resource from ≡ string_without_resource j
      → string_without_resource to ≢ string_without_resource j
      → env.db.get (to_sessionid to) w.shared.db ≡ (ret (ok ssb), db)
      → length w.shared.routed < router_queue_size
      → handle_packet env text w ≡ (ret tt, record w { shared = routed w.shared db ssb packet })
  handle_packet_lem text packet w j from to ssb db l c own other found room =
      unfold handle_packet handle_message ◌>>=◌ read_session shared tick in
      ground (
        arith,
        l.status,
        c.no_signal,
        c.decoded,
        dispatch_lem (stamp (env.timestamp13 w.shared.calls) packet) (ticked w)
            (record w { shared = routed w.shared db ssb packet }) (unfold stamp in c.chat)
            (unfold stamp in c.no_ack)
            (route_packet_lem (stamp (env.timestamp13 w.shared.calls) packet) (ticked w) j from to
              ssb db (record { status = l.status; address = l.address }) (unfold stamp in c.sender)
              (unfold stamp in c.recipient) own other found room),
      )

  -- A received packet is forwarded as it was received.
  pub to_json-stamp :
      (text ct : Bytes) (packet : Packet)
      → new_packet env.json text ≡ ok packet
      → to_json env.json (stamp ct packet) ≡ text
  to_json-stamp text ct packet made = unfold new_packet to_json stamp in ground (arith, made)
