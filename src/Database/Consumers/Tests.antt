-- ===== src/Database/Consumers/Tests.antt =====
-- The theorems on the workers of a channel, at the Redis of the tests on the store.
use mathlib.Core.List.{Perm}
use sara.Common.{
  ◌≡◌, ◌≤◌, refl, List, [], ◌∷◌, some, arith, codes, lookup, insert, delete, pos, ok, ret, ◌>>◌,
}
use sara.Redis.{Command, set, del}
use sara.Database.{put_ex_with_idx, delete_by_idx_key}
use sara.Database.Tests.{redis, redis_answers, empty_db, key, message-is4s}
use sara.Database.Writes.{apply, commands}
use sara.Database.Consumers.{Consumers, Reach, here, next, take, make, work, waiting, IsQuiet, left}
use sara.Database.Consumers.Order.{Reach-once}
use sara.Database.Consumers.Progress.{Works, stop, more, workers_finish}
use sara.Database.Consumers.Survival.{stored_deleted, message_survives}

abbrev two_writes : List Command
two_writes = set key (codes "a") ∷ del key ∷ []

-- Both writes are taken, and the second is made first.
abbrev out_of_order : Consumers redis
out_of_order = record {
  store = (insert key (codes "a") [], []);
  queue = [];
  held = [];
  made = del key ∷ set key (codes "a") ∷ [];
  sent = two_writes;
}

out_of_order-Reach : Reach redis 2 (waiting empty_db.store two_writes) out_of_order
unfolding delete insert
out_of_order-Reach =
    next
      (next
        (next (next here (work (take _ (set key (codes "a")) (del key ∷ []) refl (omega arith))))
          (work (take _ (del key) [] refl (omega arith))))
        (work (make _ (set key (codes "a") ∷ []) (del key) [] refl)))
      (work (make _ [] (set key (codes "a")) [] refl))

Reach-once_example :
    Perm two_writes (del key ∷ set key (codes "a") ∷ [])
    × (out_of_order.store ≡ apply redis (del key ∷ set key (codes "a") ∷ []) empty_db.store)
Reach-once_example =
    Reach-once redis 2 empty_db.store two_writes out_of_order out_of_order-Reach
      (record { queue = refl; held = refl })

-- A worker has taken the first of two writes.
abbrev begun : Consumers redis
begun = record {
  store = empty_db.store;
  queue = del key ∷ [];
  held = set key (codes "a") ∷ [];
  made = [];
  sent = two_writes;
}

workers_finish_example :
    (1 ≤ left (waiting {r = redis} empty_db.store two_writes))
    × (u : Consumers redis) × Works redis 2
        (waiting empty_db.store two_writes)
        (left (waiting {r = redis} empty_db.store two_writes))
        u
    × IsQuiet u
workers_finish_example =
    workers_finish redis 2 (waiting empty_db.store two_writes) begun 1 (omega arith)
      (more stop (take _ (set key (codes "a")) (del key ∷ []) refl (omega arith)))

message_survives_example :
    ((put_ex_with_idx redis (codes "offline_u@d") (codes "m1") (codes "hi") (pos 60)
          >> delete_by_idx_key redis (codes "offline_u@d") (codes "m1"))
        empty_db
      ≡ (
        ret (ok tt),
        record empty_db {
          wb_ch = commands redis (
              stored_deleted redis redis_answers
                (codes "offline_u@d")
                (codes "m1")
                (codes "hi")
                (pos 60));
        },
      ))
    × (s : Consumers redis) × Reach redis 2
        (waiting empty_db.store (
          stored_deleted redis redis_answers
            (codes "offline_u@d")
            (codes "m1")
            (codes "hi")
            (pos 60)))
        s
    × IsQuiet s
    × (lookup (codes "m1") s.store.0 ≡ some (codes "hi"))
message_survives_example =
    message_survives redis redis_answers 2 (codes "offline_u@d") (codes "m1") (codes "hi") (pos 60)
      empty_db (omega arith) message-is4s refl refl
