-- ===== src/Node/RemoteTests.antt =====
-- The theorems on packets between nodes, at the node of the tests on nodes.
use sara.Common.{
  ℕ, ◌+◌, ◌≡◌, refl, [], ◌∷◌, ◌++◌, some, pos, arith, Bytes, codes, lookup, bytes_eq, split,
  has_prefix, Result, ok, err, ret,
}
use sara.Jid.{new_jid, to_sessionid}
use sara.Packet.{new_packet, to_json}
use sara.Redis.{hset}
use sara.Database.{idx_suffix, is4s, write}
use sara.Database
use sara.Database.Tests.{redis}
use sara.Rpc.{Thrift, new_rpc_data_channel, process}
use sara.Session.State.{RouterItem, offline_expired}
use sara.Session.Unacknowledged.{with_database, IsStorable, offline_key_of, queued}
use sara.Session.Tests.{env, shared_state, message, bob}
use sara.Node.{Node, fetch_session, router_worker, data_channel_handler}
use sara.Node.Chat.{received}
use sara.Node.Tests.{chatting, bobs, bob_on_node, publish}
use sara.Node.Remote.{remote_delivered, forwarded_or_stored}

abbrev thrift : Thrift
thrift = record {
  connect = λ addr n. ok n;
  process = λ c lic sn content n. ok (codes "success");
  uuid = λ n. n ∷ [];
}

remote_delivered_example :
    let arrived = process thrift (codes "bob@x") (new_rpc_data_channel (codes "c1")) in
    let handled = data_channel_handler env (codes "c1") publish (codes "bob@x") shared_state in
    let delivered =
      router_worker env (codes "c1") publish (record chatting { shared = handled.1 }) in
    (arrived.0 ≡ ret (ok (codes "success")))
    × (arrived.1.data_ch ≡ codes "bob@x" ∷ [])
    × (handled.0 ≡ ret tt)
    × (delivered.0 ≡ ret tt)
    × (fetch_session (codes "s2") delivered.1.sessions
        ≡ some (received env (codes "c1") publish (message (codes "bob@x")) (codes "bob@x") bobs))
remote_delivered_example =
    remote_delivered env (codes "c1") publish thrift (new_rpc_data_channel (codes "c1"))
      (codes "bob@x") (message (codes "bob@x")) chatting (codes "s2") bobs bob bob (codes "s2")
      shared_state.db refl (unfold new_packet in refl) (ground arith) (unfold new_jid split in refl)
      refl bob_on_node refl (unfold Database.get to_sessionid lookup bytes_eq in refl) refl refl
      refl

-- The node behind the other channel cannot be reached.
abbrev unreachable : Bytes → Bytes → ℕ → Result (Unit {0})
unreachable channel text call = err (codes "refused")

abbrev for_other : RouterItem
for_other = record {
  channel = codes "c1b";
  sid = codes "s2";
  packet = some (message (codes "bob@x"));
  signal = 0;
}

abbrev sending : Node env (codes "c1") unreachable
sending = record { shared = record shared_state { routed = for_other ∷ [] }; sessions = [] }

storable : IsStorable (message (codes "bob@x"))
storable = record {
  jid = bob;
  address = unfold new_jid split in refl;
  message = unfold is4s has_prefix in refl;
}

forwarded_or_stored_example :
    router_worker (with_database redis env) (codes "c1") unreachable sending ≡ (
      ret tt,
      record sending {
        shared =
            queued redis env
              (hset
                  (offline_key_of (message (codes "bob@x")) ++ idx_suffix)
                  (codes "m1")
                  (codes "bob@x")
                ∷ write redis (codes "m1") (codes "bob@x") (pos offline_expired)
                ∷ [])
              (record shared_state { calls = shared_state.calls + 1 });
      },
    )
unfolding to_json
forwarded_or_stored_example =
    forwarded_or_stored redis env (codes "c1") unreachable for_other [] (message (codes "bob@x"))
      sending refl refl refl (unfold bytes_eq in refl) storable refl
