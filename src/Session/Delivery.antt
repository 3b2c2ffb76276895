-- ===== src/Session/Delivery.antt =====
-- What `RoutePacket` does with a packet, in each direction, and with an address it cannot read.
use sara.Common.{
  ◌+◌, ◌≡◌, false, List, [], ◌∷◌, ◌++◌, none, some, arith, if◌then◌else◌, ltb, length, Bytes,
  bytes_eq, bytes_eq_iff, insert, ok, err, ret, panic, pure, fault, for_each, ◌>>=◌,
}
use sara.Jid.{Jid, new_jid, to_sessionid, string_without_resource}
use sara.Packet.{Packet, to_json, end_flag, new_packet, heart_beat}
use sara.Packet.MsgType
use sara.Session.State.{
  Env, Shared, World, login, on_db, shared, tick, deref, read_session, update_session, route,
  router_queue_size, packet_handler_timeout,
}
use sara.Session.Actions.{
  send_message, pkg_buff_add, route_to, route_logged_in, route_packet, equal_without_resource,
}
use sara.Session.Handler.{
  stamp, handle_chat, dispatch, handle_message, handle_packet, handle_result, packet_handler,
  set_session_timeout, timeout_of,
}

module _ (env : Env) where
  -- The conditions on the session that the lemmas share.
  pub record IsLoggedIn (w : World env) (j : Jid) : Type 0 where
    pub status : w.session.status.status ≡ login
    pub address : new_jid w.session.status.jid ≡ ok j

  -- A packet with this client's address in `to`, with any resource, is written to the open
  -- connection with the end flag behind it, and waits in the buffer under its id.
  pub route_packet_incoming :
      (packet : Packet) (w : World env) (j to : Jid)
      → IsLoggedIn w j
      → w.session.closed ≡ false
      → new_jid packet.envelope.to ≡ ok to
      → string_without_resource to ≡ string_without_resource j
      → route_packet env packet w ≡ (
        ret tt,
        record w {
          session = record w.session {
            pkg_buff = insert packet.envelope.id packet w.session.pkg_buff;
            sent = w.session.sent ++ (to_json env.json packet ++ end_flag ∷ []) ∷ [];
          };
        },
      )
  route_packet_incoming packet w j to l open_conn e same =
      unfold route_packet route_logged_in ◌>>=◌ read_session deref pure fault equal_without_resource
        pkg_buff_add send_message update_session in
      ground (
        arith,
        l.status,
        l.address,
        bytes_eq_iff (string_without_resource j) (string_without_resource to),
      )

  -- A packet of this client for another address goes to the session that is registered there, if
  -- the router's queue has room. If it has none, the packet is dropped: nothing but the database's
  -- answer is different afterwards, and the caller is not told.
  pub route_to_registered :
      (packet : Packet) (to : Jid) (s : Shared env) (text : Bytes) (db : env.db.State)
      → env.db.get (to_sessionid to) s.db ≡ (ret (ok text), db)
      → let ss = env.unmarshal_status text in
        route_to env packet to s ≡ (
          ret tt,
          (if ltb (length s.routed) router_queue_size
              then record s {
                db = db;
                routed =
                    s.routed
                    ++ record {
                      channel = ss.channel;
                      sid = ss.sid;
                      packet = some packet;
                      signal = 0;
                    }
                      ∷ [];
              }
              else record s { db = db }),
        )
  route_to_registered packet to s text db e =
      unfold route_to ◌>>=◌ on_db route pure fault in ground (arith, e)

  -- An address that `NewJID` cannot read makes the call panic, with nothing changed: the branch
  -- that is to answer with the error is not reached.
  pub route_packet_panics :
      (packet : Packet) (w : World env) (j : Jid) (m : Bytes)
      → IsLoggedIn w j
      → new_jid packet.envelope.to ≡ err m
      → route_packet env packet w ≡ (panic, w)
  route_packet_panics packet w j m l e =
      unfold route_packet route_logged_in ◌>>=◌ read_session deref pure fault
        equal_without_resource in
      ground (arith, l.status, l.address, e)

  -- One chat packet to such an address, with no acknowledgement asked for.
  pub record IsUnreadable (text : Bytes) (packet : Packet) (m : Bytes) : Type 0 where
    pub no_signal : bytes_eq text (heart_beat ∷ []) ≡ false
    pub decoded : new_packet env.json text ≡ ok packet
    pub chat : packet.envelope.msg_type ≡ MsgType.chat
    pub no_ack : packet.envelope.ack ≡ 0
    pub address : new_jid packet.envelope.to ≡ err m

  abbrev ticked : World env → World env
  ticked w = record w { shared = record w.shared { calls = w.shared.calls + 1 } }

  dispatch_panics :
      (packet : Packet) (w : World env) (j : Jid) (m : Bytes)
      → IsLoggedIn w j
      → packet.envelope.msg_type ≡ MsgType.chat
      → packet.envelope.ack ≡ 0
      → new_jid packet.envelope.to ≡ err m
      → dispatch env packet w ≡ (panic, w)
  dispatch_panics packet w j m l c a e =
      unfold dispatch handle_chat ◌>>=◌ pure in
      ground (arith, c, a, route_packet_panics packet w j m l e)

  handle_packet_panics :
      (text : Bytes) (packet : Packet) (w : World env) (j : Jid) (m : Bytes)
      → IsLoggedIn w j
      → IsUnreadable text packet m
      → handle_packet env text w ≡ (panic, ticked w)
  handle_packet_panics text packet w j m l u =
      unfold handle_packet handle_message ◌>>=◌ read_session shared tick in
      ground (
        arith,
        l.status,
        u.no_signal,
        u.decoded,
        dispatch_panics (stamp (env.timestamp13 w.shared.calls) packet) (ticked w) j m
            (record { status = l.status; address = l.address }) (unfold stamp in u.chat)
            (unfold stamp in u.no_ack) (unfold stamp in u.address),
      )

  -- So one such packet from a client makes the handler drop all the packets behind it that came in
  -- the same read: none is handled, nothing is answered, and the read timeout of the handler is
  -- not set back.
  pub packet_handler_drops :
      (text : Bytes) (rest : List Bytes) (packet : Packet) (w : World env) (j : Jid) (m : Bytes)
      → IsLoggedIn w j
      → IsUnreadable text packet m
      → packet_handler env (record { packets = text ∷ rest; error = none }) w ≡ (
        ret tt,
        record w {
          shared = record w.shared { calls = w.shared.calls + 1 };
          session = record w.session { read_timeout = packet_handler_timeout };
        },
      )
  packet_handler_drops text rest packet w j m l u =
      unfold packet_handler set_session_timeout update_session timeout_of handle_result for_each
        ◌>>=◌ in
      ground (
        arith,
        handle_packet_panics text packet
            (record w { session = record w.session { read_timeout = packet_handler_timeout } }) j m
            (record { status = l.status; address = l.address }) u,
      )
