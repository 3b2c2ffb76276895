-- ===== src/Node/Remote.antt =====
-- A packet from one node to another.
use sara.Common.{
  ◌+◌, ◌≡◌, ◌≢◌, refl, ℕ, false, List, [], ◌∷◌, ◌++◌, some, pos, arith, Bytes, codes, bytes_eq,
  bytes_eq_refl, is_empty, lookup-insert, Result, ok, err, ret, pure, ◌>>=◌,
}
use sara.Jid.{Jid, new_jid, to_sessionid, string_without_resource}
use sara.Packet.{Packet, new_packet, to_json}
use sara.Packet.MsgType
use sara.Redis.{Redis, hset}
use sara.Database.{idx_suffix, write}
use sara.Rpc.{Thrift, RpcDataChannel, process, publish}
use sara.Session.State.{Env, Session, RouterItem, tick, offline_expired}
use sara.Session.Unacknowledged.{
  with_database, IsStorable, offline_key_of, queued, store_packet_lem,
}
use sara.Node.{
  Node, fetch_session, handle_item, forward, work, router_worker, on_shared, data_channel_handler,
}
use sara.Node.Chat.{IsClient, received, taken_lem}
use sara.Node.Routing.{data_channel_handler_registered}

process_lem :
    (thrift : Thrift) (content : Bytes) (d : RpcDataChannel)
    → process thrift content d
      ≡ (ret (ok (codes "success")), record d { data_ch = d.data_ch ++ content ∷ [] })
process_lem thrift content d =
    unfold process publish ◌>>=◌ pure in ground (arith, bytes_eq_refl d.id)

module _ (env : Env) (channel : Bytes) (publish : Bytes → Bytes → ℕ → Result (Unit {0})) where
  -- A packet that another node sends by a call of this node's RPC server, no group chat, for a client
  -- with an open session here. The call answers with success and puts the text into the data channel,
  -- which was empty; the handler of the channel finds the session, and queues the packet behind nothing
  -- else. Once a router worker has run, the text is on the client's connection, byte by byte and
  -- with the end flag, and the packet waits there to be acknowledged.
  pub remote_delivered :
      (thrift : Thrift) (d : RpcDataChannel) (text : Bytes) (packet : Packet)
      (n : Node env channel publish) (b : Bytes) (sb : Session) (jb to : Jid) (ssb : Bytes)
      (db : env.db.State)
      → d.data_ch ≡ []
      → new_packet env.json text ≡ ok packet
      → packet.envelope.msg_type ≢ MsgType.group_chat
      → new_jid packet.envelope.to ≡ ok to
      → string_without_resource to ≡ string_without_resource jb
      → IsClient env channel publish n b sb jb
      → sb.closed ≡ false
      → env.db.get (to_sessionid to) n.shared.db ≡ (ret (ok ssb), db)
      → (env.unmarshal_status ssb).channel ≡ channel
      → (env.unmarshal_status ssb).sid ≡ b
      → n.shared.routed ≡ []
      → let arrived = process thrift text d in
        let handled = data_channel_handler env channel publish text n.shared in
        let delivered = router_worker env channel publish (record n { shared = handled.1 }) in
        (arrived.0 ≡ ret (ok (codes "success")))
        × (arrived.1.data_ch ≡ text ∷ [])
        × (handled.0 ≡ ret tt)
        × (delivered.0 ≡ ret tt)
        × (fetch_session b delivered.1.sessions
            ≡ some (received env channel publish packet text sb))
  unfolding router_worker work fetch_session
  remote_delivered thrift d text packet n b sb jb to ssb db idle made chat address his cb open_conn
        found here there empty =
      let item : RouterItem = record {
        channel = (env.unmarshal_status ssb).channel;
        sid = (env.unmarshal_status ssb).sid;
        packet = some packet;
        signal = 0;
      } in
      let handled =
        data_channel_handler_registered env channel publish text ssb packet to n.shared db made chat
          address found (rw empty (omega arith)) in
      let m : Node env channel publish = record n {
        shared = record n.shared { db = db; routed = [] };
      } in
      let taken =
        taken_lem env channel publish item packet text m sb jb to here refl refl
          (rw there cb.registered) (record { status = cb.login.status; address = cb.login.address })
          open_conn address his handled.1 in
      rw (process_lem thrift text d, idle, handled.0, empty, taken)
        (refl, refl, refl, refl, rw (there, lookup-insert, bytes_eq_refl b) refl)

module _ (r : Redis) (env0 : Env) (channel : Bytes)
    (publish : Bytes → Bytes → ℕ → Result (Unit {0})) where
  abbrev env : Env
  env = with_database r env0

  -- A worker that has a packet for another node, whose channel is not empty and not this node's, makes
  -- one call, with the packet's text. If the call succeeds, the item is done with. If it fails, the
  -- packet is not lost: its two writes join the message channel, to be stored for its address. The
  -- packet can be stored, and the database is open.
  pub forwarded_or_stored :
      (item : RouterItem) (rest : List RouterItem) (packet : Packet) (n : Node env channel publish)
      → n.shared.routed ≡ item ∷ rest
      → item.packet ≡ some packet
      → is_empty item.channel ≡ false
      → bytes_eq channel item.channel ≡ false
      → IsStorable packet
      → n.shared.db.wb_closed ≡ false
      → let taken = record n.shared { routed = rest; calls = n.shared.calls + 1 } in
        let text = to_json env0.json packet in
        router_worker env channel publish n ≡ (
          ret tt,
          record n {
            shared = elim (publish item.channel text n.shared.calls) [
              | ok _ ↦ taken
              | err e ↦
                  queued r env0
                    (hset (offline_key_of packet ++ idx_suffix) packet.envelope.id text
                      ∷ write r packet.envelope.id text (pos offline_expired)
                      ∷ [])
                    taken
            ];
          },
        )
  unfolding router_worker work handle_item forward
  forwarded_or_stored item rest packet n queue carries named other storable open_db =
      unfold ◌>>=◌ on_shared tick pure in
      ground (
        arith,
        queue,
        carries,
        named,
        other,
        store_packet_lem r env0 packet
            (record n.shared { routed = rest; calls = n.shared.calls + 1 }) storable open_db,
      )
