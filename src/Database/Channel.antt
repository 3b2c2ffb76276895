-- ===== src/Database/Channel.antt =====
-- saradb/channel.go, the channel between nodes by Redis, and `getRedisClient` and `GenDataChannel` of
-- saradb/database.go. Nothing calls them any more. The clients of the library radix are parameters: a
-- client that publishes, and one that has subscribed.
use sara.Common.{
  ℕ, zero, suc, ◌≤◌, ◌≡◌, refl, ap, ◌∙◌, List, [], ◌∷◌, ◌++◌, length, Option, none, some, Bytes,
  Result, ok, err, Outcome, ret, panic, Exec, arith,
}
use sara.Database.Opening.{
  Server, Opened, Model, single, cluster, new_database, new_cluster_database,
}

-- `pubsub.SubResp`, with its fields `Message` and `Err`.
pub record SubResp : Type 0 where
  pub message : Bytes
  pub resp_failure : Option Bytes

-- `publish` gives the field `Err` of the response; `receive` gives nothing where it waits.
pub record PubSub : Type 1 where
  pub Broker : Type 0
  pub publish_cmd : Bytes → Bytes → Broker → Option Bytes × Broker
  pub subscribe_cmd : Bytes → Broker → Broker
  pub receive_cmd : Broker → Option SubResp × Broker

-- What a receive gives, in front of the rest. An error comes with an empty message, which is handed
-- over too.
unfoldable pub hand_over : Option SubResp → List Bytes → List Bytes
hand_over none rest = []
hand_over (some r) rest = r.message ∷ rest

module _ (p : PubSub) where
  pub record NodeChannel : Type 0 where
    pub channel_id : Bytes
    pub broker : p.Broker

  -- `newChannel`.
  unfoldable pub new_channel : Bytes → p.Broker → NodeChannel
  new_channel name broker = record { channel_id = name; broker = broker }

  unfoldable pub get_channel : NodeChannel → Bytes
  get_channel c = c.channel_id

  -- An error of Redis is logged, and not returned.
  unfoldable pub node_publish : Bytes → Bytes → Exec NodeChannel (Result (Unit {0}))
  node_publish channel message c =
      (ret (ok tt), record c { broker = (p.publish_cmd channel message c.broker).1 })

  -- The loop of `Subscribe`, at most so many rounds: what the handler is called with.
  unfoldable pub receive_loop : ℕ → p.Broker → List Bytes
  receive_loop zero b = []
  receive_loop (suc rounds) b = let (r, c) = p.receive_cmd b in hand_over r (receive_loop rounds c)

  unfoldable pub node_subscribe : ℕ → NodeChannel → List Bytes
  node_subscribe rounds c = receive_loop rounds (p.subscribe_cmd c.channel_id c.broker)

  -- What Redis promises to a client that has subscribed to a channel: `inbox` is what has come for it.
  pub record IsBroker (id : Bytes) (inbox : p.Broker → List Bytes) : Type 0 where
    pub comes :
        (message : Bytes) (b : p.Broker)
        → (p.publish_cmd id message b).0 ≡ none
        → inbox (p.publish_cmd id message b).1 ≡ inbox b ++ message ∷ []
    pub lost :
        (message e : Bytes) (b : p.Broker)
        → (p.publish_cmd id message b).0 ≡ some e
        → inbox (p.publish_cmd id message b).1 ≡ inbox b
    pub taken :
        (message : Bytes) (rest : List Bytes) (b : p.Broker)
        → inbox b ≡ message ∷ rest
        → ((p.receive_cmd b).0 ≡ some (record { message = message; resp_failure = none }))
          × (inbox (p.receive_cmd b).1 ≡ rest)
    pub waits : (b : p.Broker) → inbox b ≡ [] → (p.receive_cmd b).0 ≡ none

  -- The loop hands over what has come, once and in order.
  receive_loop_lem :
      (id : Bytes) (inbox : p.Broker → List Bytes) (rounds : ℕ) (waiting : List Bytes)
      (b : p.Broker)
      → IsBroker id inbox
      → inbox b ≡ waiting
      → length waiting ≤ rounds
      → receive_loop rounds b ≡ waiting
  unfolding receive_loop hand_over
  receive_loop_lem id inbox zero [] b k e h = refl
  receive_loop_lem id inbox zero (m ∷ ms) b k e h = absurd (omega (arith, h))
  receive_loop_lem id inbox (suc rounds) [] b k e h =
      ap (λ r. hand_over r (receive_loop rounds (p.receive_cmd b).1)) (k.waits b e)
  receive_loop_lem id inbox (suc rounds) (m ∷ ms) b k e h =
      let (got, left) = k.taken m ms b e in
      ap (λ r. hand_over r (receive_loop rounds (p.receive_cmd b).1)) got
      ∙ ap (◌∷◌ m)
          (receive_loop_lem id inbox rounds ms (p.receive_cmd b).1 k left (omega (arith, h)))

  -- `Publish` reports no error, also where Redis has lost the message.
  node_publish_loses :
      (message e : Bytes) (c : NodeChannel) (inbox : p.Broker → List Bytes)
      → IsBroker c.channel_id inbox
      → (p.publish_cmd c.channel_id message c.broker).0 ≡ some e
      → ((node_publish (get_channel c) message c).0 ≡ ret (ok tt))
        × (inbox (node_publish (get_channel c) message c).1.broker ≡ inbox c.broker)
  unfolding node_publish get_channel
  node_publish_loses message e c inbox k failed = (refl, k.lost message e c.broker failed)

-- `getRedisClient`: the errors of the pool and of the cluster are dropped, and leave nil.
unfoldable pub get_redis_client :
    {C : Type 0} → Model → (Result C) → (Bytes → Result C) → Bytes → Option C
get_redis_client single pooled for_key k = elim pooled [ ok c ↦ some c | err e ↦ none ]
get_redis_client cluster pooled for_key k = elim (for_key k) [ ok c ↦ some c | err e ↦ none ]

-- `GenDataChannel`: a database of its own of the same kind; where it cannot be opened, the call of
-- `getRedisClient` on nil panics.
unfoldable pub opened_again : Server → Model → Bytes → Result {1} Opened
opened_again server single addr = new_database server addr 5
opened_again server cluster addr = new_cluster_database server addr 5

unfoldable pub gen_data_channel :
    (p : PubSub) → (Opened → p.Broker) → Server → Model → Bytes → Bytes → Outcome (NodeChannel p)
unfolding opened_again
gen_data_channel p clients server model addr name = elim (opened_again server model addr) [
  | ok opened ↦ ret (new_channel p name (clients opened))
  | err e ↦ panic
]
