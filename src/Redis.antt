-- ===== src/Redis.antt =====
-- Redis and its client (the vendored radix.v2), which the server only calls.
use sara.Common.{List, Option, Bytes, ℤ, Result}

-- The commands that the server sends to Redis; an expiry is in seconds.
pub data Command : Type 0 where
  set : Bytes → Bytes → Command
  setex : Bytes → ℤ → Bytes → Command
  get : Bytes → Command
  del : Bytes → Command
  expire : Bytes → ℤ → Command
  hset : Bytes → Bytes → Bytes → Command
  hdel : Bytes → Bytes → Command
  hkeys : Bytes → Command
  hvals : Bytes → Command
  hlen : Bytes → Command

-- `redis.Resp` with its field `Err` and its methods `Bytes`, `ListBytes` and `Int`.
pub record Redis : Type 1 where
  pub Store : Type 0
  pub Resp : Type 0
  pub cmd : Command → Store → Resp × Store
  pub resp_err : Resp → Option Bytes
  pub resp_bytes : Resp → Result Bytes
  pub resp_list : Resp → Result (List Bytes)
  pub resp_int : Resp → Result ℤ
