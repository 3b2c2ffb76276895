-- ===== src/Service/Tests.antt =====
-- The theorems on the calls of other servers, at the Redis of the tests on the store.
use sara.Common.{refl, List, [], ◌∷◌, ◌++◌, Bytes, codes, length, ℤ, pos}
use sara.Database.{SaraDatabase, sara_database, get}
use sara.Database
use sara.Database.Tests.{redis, redis_answers, empty_db}
use sara.Service.{Value, text}
use sara.Service.Calls.{Entry}

abbrev first_node : Entry
first_node = record { nodeid = codes "n1"; started = codes "1400000000000"; full = refl }

-- A node with two sessions.
abbrev registered_db : SaraDatabase redis
registered_db = record empty_db {
  store = (
    [],
    (codes "sara_idx", (codes "n1", codes "n11400000000000") ∷ [])
        ∷ (codes "n1_idx", (codes "session_a@x", codes "a") ∷ (codes "session_b@x", codes "b") ∷ [])
        ∷ [],
  );
}

abbrev sessions_of : Bytes → ℤ
sessions_of nodeid = pos (length (Database.Tests.hash (nodeid ++ codes "_idx") registered_db.store))

abbrev group : List (Bytes × Value)
group = (codes "gid", text (codes "g1")) ∷ (codes "domain", text (codes "x")) ∷ []
