-- ===== src/Database.antt =====
-- saradb/interface.go and saradb/database.go: the store of sessions and offline messages.
-- Redis, and the vendored client that talks to it, are the parameter `Redis`: each command gives a
-- response and a new store. A write is either made at once (`execute_direct`) or put into one of
-- two channels, which the workers of Database/Worker.antt empty; a channel is the list of what is
-- in it, the oldest first. A send on a full channel waits until a worker has made room, which
-- delays the sender only, so the capacity is left out.
pub mod Worker
pub mod Writes
pub mod Shutdown
pub mod Sessions
pub mod Consumers
pub mod Opening
pub mod Channel
pub mod Tests
use sara.Common.{
  ℕ, ◌≡◌, Bool, true, false, List, [], ◌∷◌, ◌++◌, Option, none, some, if◌then◌else◌, Bytes, codes,
  has_prefix, ℤ, pos, is_positive, is_zero, Result, ok, err, Outcome, ret, panic, Exec, pure, fault,
  modify, recovered, for_each, ◌>>=◌, ◌>>◌,
}
use sara.Jid.{session_prefix}
use sara.Redis.{Redis, Command, set, setex, del, expire, hset, hdel, hkeys, hvals, hlen}

-- saradb/interface.go, without `GenDataChannel`, which nothing calls.
pub record Database : Type 1 where
  pub State : Type 0
  pub put : Bytes → Bytes → Exec State (Result (Unit {0}))
  pub put_ex : Bytes → Bytes → ℤ → Exec State (Result (Unit {0}))
  pub get : Bytes → Exec State (Result Bytes)
  pub put_ex_with_idx : Bytes → Bytes → Bytes → ℤ → Exec State (Result (Unit {0}))
  pub get_by_idx : Bytes → Exec State (Result (List Bytes))
  pub count_by_idx : Bytes → Exec State (Result ℤ)
  pub reset_expire : Bytes → ℤ → Exec State (Result ℤ)
  pub delete_by_idx : Bytes → Exec State (Result (Unit {0}))
  pub delete_by_idx_key : Bytes → Bytes → Exec State (Result (Unit {0}))
  pub delete : Bytes → Exec State (Result (Unit {0}))

-- An element of a write channel; nothing sets the response channel of the source's type.
pub data WriteBufArgs : Type 0 where
  command : Command → WriteBufArgs
  kill_worker : WriteBufArgs

abbrev pub idx_suffix : Bytes
idx_suffix = codes "_idx"

-- A key of a session: one that begins with `session_`.
unfoldable pub is4s : Bytes → Bool
is4s key = has_prefix session_prefix key

module _ (r : Redis) where
  pub record SaraDatabase : Type 0 where
    pub store : r.Store
    pub wb_ch : List WriteBufArgs
    pub wb_ch4s : List WriteBufArgs
    pub wb_closed : Bool

  unfoldable pub execute_direct : Command → Exec SaraDatabase r.Resp
  execute_direct c db =
      let (resp, store) = r.cmd c db.store in (ret resp, record db { store = store })

  -- A send on the closed channel panics.
  unfoldable pub execute : Command → Exec SaraDatabase (Unit {0})
  execute c db =
      if db.wb_closed
      then (panic, db)
      else (ret tt, record db { wb_ch = db.wb_ch ++ command c ∷ [] })

  unfoldable pub execute4s : Command → Exec SaraDatabase (Unit {0})
  execute4s c db = (ret tt, record db { wb_ch4s = db.wb_ch4s ++ command c ∷ [] })

  -- `if r.Err != nil { return r.Err }`, and what follows it.
  unfoldable pub check :
      r.Resp → Exec SaraDatabase (Result (Unit {0})) → Exec SaraDatabase (Result (Unit {0}))
  unfolding pure
  check resp next = elim (r.resp_err resp) [ some e ↦ pure (err e) | none ↦ next ]

  abbrev done : Exec SaraDatabase (Result (Unit {0}))
  done = pure (ok tt)

  unfoldable pub reset_expire : Bytes → ℤ → Exec SaraDatabase (Result ℤ)
  unfolding execute_direct ◌>>=◌
  reset_expire key ex = do
    resp ← execute_direct (expire key ex)
    elim (r.resp_err resp) [
      | some e ↦ pure (err e)
      | none ↦ elim (r.resp_int resp) [
        | err e ↦ pure (err e)
        | ok i ↦ if is_zero i then pure (err (codes "key_not_found")) else pure (ok i)
      ]
    ]

  unfoldable pub put : Bytes → Bytes → Exec SaraDatabase (Result (Unit {0}))
  unfolding execute_direct execute check ◌>>=◌
  put key value =
      if is4s key
      then (do resp ← execute_direct (set key value); check resp done)
      else (do execute (set key value); done)

  unfoldable pub put_ex : Bytes → Bytes → ℤ → Exec SaraDatabase (Result (Unit {0}))
  unfolding execute_direct execute check ◌>>=◌
  put_ex key value ex =
      if is4s key
      then (do resp ← execute_direct (setex key ex value); check resp done)
      else (do execute (setex key ex value); done)

  unfoldable pub get : Bytes → Exec SaraDatabase (Result Bytes)
  unfolding execute_direct ◌>>=◌
  get key = do resp ← execute_direct (Command.get key); pure (r.resp_bytes resp)

  -- Writes that go through a channel have no response, hence no error.
  unfoldable pub delete : Bytes → Exec SaraDatabase (Result (Unit {0}))
  unfolding execute execute4s ◌>>=◌
  delete key = do (if is4s key then execute4s (del key) else execute (del key)); done

  -- `SETEX` where the time is positive, `SET` where it is not.
  abbrev pub write : Bytes → Bytes → ℤ → Command
  write key value ex = if is_positive ex then setex key ex value else set key value

  -- The two branches of `PutExWithIdx`.
  unfoldable pub put_session : Bytes → Bytes → Bytes → ℤ → Exec SaraDatabase (Result (Unit {0}))
  unfolding execute_direct check ◌>>=◌
  put_session idx key value ex = do
    resp ← execute_direct (hset idx key value)
    check resp do second ← execute_direct (write key value ex); check second done

  unfoldable pub put_message : Bytes → Bytes → Bytes → ℤ → Exec SaraDatabase (Result (Unit {0}))
  unfolding execute ◌>>=◌ recovered
  put_message idx key value ex =
      recovered (do execute (hset idx key value); execute (write key value ex); done) (ok tt)

  unfoldable pub put_ex_with_idx : Bytes → Bytes → Bytes → ℤ → Exec SaraDatabase (Result (Unit {0}))
  unfolding put_session put_message
  put_ex_with_idx name key value ex =
      let idx = name ++ idx_suffix in
      if is4s key then put_session idx key value ex else put_message idx key value ex

  unfoldable pub delete_by_idx : Bytes → Exec SaraDatabase (Result (Unit {0}))
  unfolding execute_direct delete for_each ◌>>=◌
  delete_by_idx name =
      let idx = name ++ idx_suffix in
      do
        resp ← execute_direct (hkeys idx)
        elim (r.resp_list resp) [
          | err e ↦ pure (err e)
          | ok ids ↦ do for_each (λ k. do delete k; pure tt) ids; delete idx; done
        ]

  unfoldable pub delete_by_idx_key : Bytes → Bytes → Exec SaraDatabase (Result (Unit {0}))
  unfolding execute execute4s delete ◌>>=◌
  delete_by_idx_key name key =
      let idx = name ++ idx_suffix in
      do (if is4s key then execute4s (hdel idx key) else execute (hdel idx key)); delete key; done

  unfoldable pub count_by_idx : Bytes → Exec SaraDatabase (Result ℤ)
  unfolding execute_direct ◌>>=◌
  count_by_idx name = do resp ← execute_direct (hlen (name ++ idx_suffix)); pure (r.resp_int resp)

  unfoldable pub get_by_idx : Bytes → Exec SaraDatabase (Result (List Bytes))
  unfolding execute_direct ◌>>=◌
  get_by_idx name = do resp ← execute_direct (hvals (name ++ idx_suffix)); pure (r.resp_list resp)

  -- The implementation of the interface.
  abbrev pub sara_database : Database
  sara_database = record {
    State = SaraDatabase;
    put = put;
    put_ex = put_ex;
    get = get;
    put_ex_with_idx = put_ex_with_idx;
    get_by_idx = get_by_idx;
    count_by_idx = count_by_idx;
    reset_expire = reset_expire;
    delete_by_idx = delete_by_idx;
    delete_by_idx_key = delete_by_idx_key;
    delete = delete;
  }
