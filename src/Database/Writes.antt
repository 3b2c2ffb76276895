-- ===== src/Database/Writes.antt =====
-- Writes that are made at once and writes that wait in a channel.
use sara.Common.{
  ◌≡◌, refl, true, false, List, [], ◌∷◌, ◌++◌, append_assoc, arith, if◌then◌else◌, Bytes, ℤ, ok,
  ret,
}
use sara.Redis.{Redis, Command, del, hset, hdel}
use sara.Database.{
  SaraDatabase, WriteBufArgs, command, idx_suffix, is4s, write, put_ex_with_idx, delete_by_idx_key,
}

module _ (r : Redis) where
  -- The store after some writes.
  abbrev pub apply : List Command → r.Store → r.Store
  apply [] s = s
  apply (c ∷ cs) s = apply cs (r.cmd c s).1

  abbrev pub commands : List Command → List WriteBufArgs
  commands [] = []
  commands (c ∷ cs) = command c ∷ commands cs

  pub apply-append :
      (xs ys : List Command) (s : r.Store) → apply (xs ++ ys) s ≡ apply ys (apply xs s)
  apply-append [] ys s = refl
  apply-append (x ∷ xs) ys s = apply-append xs ys (r.cmd x s).1

  -- A message is stored and indexed later: on an open database nothing happens to the store, and
  -- the two writes join the message channel, in order. On a closed one the call does nothing, and
  -- reports no error.
  pub put_ex_with_idx_message :
      (name key value : Bytes) (ex : ℤ) (db : SaraDatabase r)
      → is4s key ≡ false
      → put_ex_with_idx r name key value ex db ≡ (
        ret (ok tt),
        (if db.wb_closed then db else record db {
          wb_ch =
              db.wb_ch
              ++ commands (hset (name ++ idx_suffix) key value ∷ write r key value ex ∷ []);
        }),
      )
  unfolding put_ex_with_idx
  put_ex_with_idx_message name key value ex db e = ground (
    arith,
    append_assoc db.wb_ch (command (hset (name ++ idx_suffix) key value) ∷ [])
        (command (write r key value ex) ∷ []),
  )

  -- A message is deleted later: the two deletions join the message channel, in order.
  pub delete_by_idx_key_message :
      (name key : Bytes) (db : SaraDatabase r)
      → is4s key ≡ false
      → db.wb_closed ≡ false
      → delete_by_idx_key r name key db ≡ (
        ret (ok tt),
        record db { wb_ch = db.wb_ch ++ commands (hdel (name ++ idx_suffix) key ∷ del key ∷ []) },
      )
  unfolding delete_by_idx_key
  delete_by_idx_key_message name key db e open_db = ground (
    arith,
    append_assoc db.wb_ch (command (hdel (name ++ idx_suffix) key) ∷ []) (command (del key) ∷ []),
  )

  -- A session is closed later: the two deletions join the session channel, in order, whatever the
  -- store holds for the key by then, and also when the message channel is closed.
  pub delete_by_idx_key_session :
      (name key : Bytes) (db : SaraDatabase r)
      → is4s key ≡ true
      → delete_by_idx_key r name key db ≡ (
        ret (ok tt),
        record db {
          wb_ch4s = db.wb_ch4s ++ commands (hdel (name ++ idx_suffix) key ∷ del key ∷ []);
        },
      )
  unfolding delete_by_idx_key
  delete_by_idx_key_session name key db e = ground (
    arith,
    append_assoc db.wb_ch4s (command (hdel (name ++ idx_suffix) key) ∷ []) (command (del key) ∷ []),
  )
