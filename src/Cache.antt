-- ===== src/Cache.antt =====
-- core/cache.go: for a login's envelope id, the ids of the offline messages that it was sent.
-- The lock of the source makes each call atomic, so a call is a function of the map.
use sara.Common.{List, [], none, some, Bytes, codes, lookup, insert, delete, Result, ok, err}

pub record OfflineMessageCache : Type 0 where
  pub cache : List (Bytes × List Bytes)

unfoldable pub del : Bytes → OfflineMessageCache → OfflineMessageCache
del key c = record { cache = delete key c.cache }

unfoldable pub get : Bytes → OfflineMessageCache → Result (List Bytes)
get key c = elim (lookup key c.cache) [ some v ↦ ok v | none ↦ err (codes "key notfound") ]

unfoldable pub put : Bytes → List Bytes → OfflineMessageCache → OfflineMessageCache
put key val c = record { cache = insert key val c.cache }

abbrev pub init : OfflineMessageCache
init = record { cache = [] }
