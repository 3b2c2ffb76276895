-- ===== src/Database/Opening.antt =====
-- saradb/database.go: `NewDatabase` and `NewClusterDatabase`, `keepalive`, and what is made of a
-- command. The pool and the cluster of the vendored client are the record `Server`: each gives a
-- client, which is a Redis with what it stores, or an error.
use sara.Common.{
  zero, suc, false, length, ◌≤◌, ℕ, ◌≡◌, refl, List, [], ◌∷◌, ◌++◌, Bytes, codes, pos, Result, ok,
  err, Exec, arith,
}
use sara.Redis.{Redis, setex}
use sara.Database.{SaraDatabase, execute_direct}
use sara.Database.Worker.{Worker, new_worker, consumer_total}

pub data Model : Type 0 where
  cluster single : Model

pub record Client : Type 1 where
  pub redis : Redis
  pub store : redis.Store

pub record Server : Type 1 where
  pub new_cluster : Bytes → ℕ → Result {1} Client
  pub new_pool : Bytes → ℕ → Result {1} Client

-- A database with its workers, those of each channel.
pub record Opened : Type 1 where
  pub model : Model
  pub redis : Redis
  pub db : SaraDatabase redis
  pub consumers : List Worker
  pub consumers4s : List Worker

-- One of the loops that start the workers.
unfoldable pub start_workers : ℕ → ℕ → List Worker
start_workers pool_size zero = []
start_workers pool_size (suc n) = new_worker pool_size ∷ start_workers pool_size n

-- `wbfConsumer`: as many workers for the sessions as for the messages.
unfoldable pub wbf_consumer : ℕ → List Worker × List Worker
wbf_consumer pool_size =
    let workers = start_workers pool_size (consumer_total pool_size) in (workers, workers)

-- What both kinds have in common: the channels are empty, and the workers run.
unfoldable pub start : Model → ℕ → Client → Opened
start model pool_size client = record {
  model = model;
  redis = client.redis;
  db = record { store = client.store; wb_ch = []; wb_ch4s = []; wb_closed = false };
  consumers = (wbf_consumer pool_size).0;
  consumers4s = (wbf_consumer pool_size).1;
}

unfoldable pub init_db : Server → Bytes → ℕ → Result Opened
init_db server addr pool_size = elim (server.new_pool addr pool_size) [
  | ok p ↦ ok (start single pool_size p)
  | err e ↦ err e
]

unfoldable pub init_cluster_db : Server → Bytes → ℕ → Result Opened
init_cluster_db server addr pool_size = elim (server.new_cluster addr pool_size) [
  | ok c ↦ ok (start cluster pool_size c)
  | err e ↦ err e
]

-- `NewDatabase` and `NewClusterDatabase` return what the initialisation does.
abbrev pub new_database : Server → Bytes → ℕ → Result Opened
new_database = init_db

abbrev pub new_cluster_database : Server → Bytes → ℕ → Result Opened
new_cluster_database = init_cluster_db

-- A round of `keepalive`; `id` is the random id of its key.
unfoldable pub keepalive : (r : Redis) → Bytes → Exec (SaraDatabase r) r.Resp
keepalive r id = execute_direct r (setex (codes "keep_" ++ id) (pos 4) (codes "1"))

length-start_workers : (pool_size n : ℕ) → length (start_workers pool_size n) ≡ n
unfolding start_workers
length-start_workers pool_size zero = refl
length-start_workers pool_size (suc n) = omega (arith, length-start_workers pool_size n)

at_least : (pool_size : ℕ) → 20 ≤ consumer_total pool_size
unfolding consumer_total
at_least pool_size = ground arith

-- Each channel of a database has the same number of workers, at least twenty.
pub length-wbf_consumer :
    (pool_size : ℕ)
    → (length (wbf_consumer pool_size).0 ≡ length (wbf_consumer pool_size).1)
      × (20 ≤ length (wbf_consumer pool_size).0)
unfolding wbf_consumer
length-wbf_consumer pool_size = (refl, rw length-start_workers (at_least pool_size))
