-- ===== src/Rpc.antt =====
-- sararpc/: the messages between nodes. A node publishes a message to another one by a Thrift call,
-- and the other one puts it into its own channel, which it reads. Thrift is the record `Thrift`: a
-- client is a number, `connect` opens one and `process` makes the call. A send on a full data channel
-- waits, so its capacity is left out.
pub mod Clients
pub mod Server
mod Tests
use sara.Common.{
  ℕ, ◌+◌, ◌≡◌, Bool, true, false, List, [], ◌∷◌, ◌++◌, Option, none, some, if◌then◌else◌, ltb,
  length, Bytes, codes, bytes_eq, lookup, insert, Result, ok, err, Outcome, ret, Exec, pure,
  for_each, modify, continue, fault, ◌>>=◌, ◌>>◌,
}

abbrev pub pp_size : ℕ
pp_size = 100

abbrev pub licence : Bytes
licence = codes "ABECDD3C-B737-42BA-8F49-92A3267BB822"

-- The last argument is the number of the call, which is another one at each call.
pub record Thrift : Type 0 where
  pub connect : Bytes → ℕ → Result ℕ
  pub process : ℕ → Bytes → Bytes → Bytes → ℕ → Result Bytes
  pub uuid : ℕ → Bytes

-- `closed` is what was closed, `calls` the number of the next call.
pub record RpcClient : Type 0 where
  pub client_pool : List (Bytes × List ℕ)
  pub pool_size : ℕ
  pub closed : List ℕ
  pub calls : ℕ

pub record RpcDataChannel : Type 0 where
  pub id : Bytes
  pub data_ch : List Bytes
  pub rpcclient : RpcClient

abbrev pub new_rpc_client : RpcClient
new_rpc_client = record { client_pool = []; pool_size = pp_size; closed = []; calls = 0 }

abbrev pub new_rpc_data_channel : Bytes → RpcDataChannel
new_rpc_data_channel addr = record { id = addr; data_ch = []; rpcclient = new_rpc_client }

-- The queue of an address, an empty one where there is none.
unfoldable pub queue_of : Bytes → List (Bytes × List ℕ) → List ℕ
queue_of addr pool = elim (lookup addr pool) [ some queue ↦ queue | none ↦ [] ]

abbrev pub with_queue : Bytes → List ℕ → RpcClient → RpcClient
with_queue addr queue s = record s { client_pool = insert addr queue s.client_pool }

unfoldable pub put_client : Bytes → ℕ → Exec RpcClient (Unit {0})
unfolding queue_of
put_client addr c s =
    let queue = queue_of addr s.client_pool in
    (
      ret tt,
      (if ltb (length queue) s.pool_size
          then with_queue addr (queue ++ c ∷ []) s
          else record (with_queue addr queue s) { closed = s.closed ++ c ∷ [] }),
    )

module _ (thrift : Thrift) where
  unfoldable pub tick : Exec RpcClient ℕ
  tick s = (ret s.calls, record s { calls = s.calls + 1 })

  unfoldable pub new_client : Bytes → Exec RpcClient (Result ℕ)
  new_client addr = do n ← tick; pure (thrift.connect addr n)

  -- The first client of the queue, or a new one.
  unfoldable pub get_from : Bytes → List ℕ → Exec RpcClient (Result ℕ)
  get_from addr [] s = new_client addr (with_queue addr [] s)
  get_from addr (c ∷ queue) s = (ret (ok c), with_queue addr queue s)

  unfoldable pub get_client : Bytes → Exec RpcClient (Result ℕ)
  get_client addr s = get_from addr (queue_of addr s.client_pool) s

  -- A client whose call failed is dropped.
  unfoldable pub call_with : Bytes → Bytes → Bytes → Bytes → ℕ → Exec RpcClient (Result Bytes)
  call_with addr lic sn content c = do
    n ← tick
    elim (thrift.process c lic sn content n) [
      | err e ↦ pure (err e)
      | ok rtn ↦ do put_client addr c; pure (ok rtn)
    ]

  unfoldable pub call : Bytes → Bytes → Bytes → Bytes → Exec RpcClient (Result Bytes)
  call addr lic sn content = do
    client ← get_client addr
    elim client [ err e ↦ pure (err e) | ok c ↦ call_with addr lic sn content c ]

  unfoldable pub on_client : {A : Type 0} → Exec RpcClient A → Exec RpcDataChannel A
  on_client m s = ((m s.rpcclient).0, record s { rpcclient = (m s.rpcclient).1 })

  abbrev pub failure : Result Bytes → Result (Unit {0})
  failure (ok r) = ok tt
  failure (err e) = err e

  unfoldable pub publish_remote : Bytes → Bytes → Exec RpcDataChannel (Result (Unit {0}))
  publish_remote channel message = do
    n ← on_client tick
    answer ← on_client (call channel licence (thrift.uuid n) message)
    pure (failure answer)

  unfoldable pub publish : Bytes → Bytes → Exec RpcDataChannel (Result (Unit {0}))
  publish channel message s =
      if bytes_eq channel s.id
      then (ret (ok tt), record s { data_ch = s.data_ch ++ message ∷ [] })
      else publish_remote channel message s

  -- The two methods of the server; what `Publish` returns is dropped.
  unfoldable pub process : Bytes → Exec RpcDataChannel (Result Bytes)
  process content s = (do publish s.id content; pure (ok (codes "success"))) s

  unfoldable pub process_batch : List Bytes → Exec RpcDataChannel (Result Bytes)
  process_batch contents = do
    for_each (λ content s. (do publish s.id content; pure tt) s) contents
    pure (ok (codes "success"))
