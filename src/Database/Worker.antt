-- ===== src/Database/Worker.antt =====
-- saradb/database.go, `wbfConsumerWorker` and `Close`: the goroutines that empty the two write
-- channels. A round of a worker's `select` is a step at an event. `_wbTotal` is passed by value, so
-- the count that a worker lowers is its own.
use sara.Common.{
  ℕ, ◌-◌, ◌/◌, Bool, true, false, not, ◌&&◌, List, [], ◌∷◌, ◌++◌, if◌then◌else◌, ltb, Exec, ret,
  panic, pure, modify, ◌>>=◌, ◌>>◌,
}
use sara.Redis.{Redis}
use sara.Database.{SaraDatabase, WriteBufArgs, command, kill_worker, execute_direct}

-- Which channel a worker reads.
pub data Channel : Type 0 where
  messages sessions : Channel

-- What the `select` of a worker finds: an element or the end of its channel, a signal on its
-- `wbSyncCh`, or two seconds without either.
pub data Event : Type 0 where
  receive signal timeout : Event

pub record Worker : Type 0 where
  pub killed : Bool
  pub send_kill : Bool
  pub wb_total : ℕ
  pub running : Bool

unfoldable pub consumer_total : ℕ → ℕ
consumer_total pool_size = if ltb 100 pool_size then pool_size / 5 else 20

abbrev pub new_worker : ℕ → Worker
new_worker pool_size = record {
  killed = false;
  send_kill = false;
  wb_total = consumer_total pool_size;
  running = true;
}

module _ (r : Redis) where
  abbrev pub Db : Type 0
  Db = SaraDatabase r

  unfoldable pub stop : Worker → Exec Db Worker
  unfolding pure
  stop w = pure (record w { running = false })

  -- `self.wbCh <- KILL`, in a worker of either channel.
  unfoldable pub forward_kill : Worker → Exec Db Worker
  forward_kill w db =
      if w.killed && not w.send_kill
      then if db.wb_closed then (panic, db) else (
        ret (record w { send_kill = true }),
        record db { wb_ch = db.wb_ch ++ kill_worker ∷ [] },
      )
      else (ret w, db)

  unfoldable pub handle : WriteBufArgs → Worker → Exec Db Worker
  unfolding execute_direct stop ◌>>=◌
  handle kill_worker w =
      if ltb 1 w.wb_total then stop (record w { wb_total = w.wb_total - 1 }) else pure w
  handle (command c) w = do execute_direct r c; pure w

  -- The case of an element `wb`, which has been taken from the channel.
  unfoldable pub consume : WriteBufArgs → Worker → Exec Db Worker
  unfolding forward_kill handle ◌>>=◌
  consume wb w = do w' ← forward_kill w; handle wb w'

  -- On a channel with no element a worker waits, or ends if the channel is closed; only `wbCh` is
  -- ever closed.
  unfoldable pub receive_from : Channel → List WriteBufArgs → Worker → Exec Db Worker
  unfolding consume stop
  receive_from messages [] w db = if db.wb_closed then stop w db else (ret w, db)
  receive_from sessions [] w db = (ret w, db)
  receive_from messages (wb ∷ rest) w db = consume wb w (record db { wb_ch = rest })
  receive_from sessions (wb ∷ rest) w db = consume wb w (record db { wb_ch4s = rest })

  unfoldable pub channel : Channel → Db → List WriteBufArgs
  channel messages db = db.wb_ch
  channel sessions db = db.wb_ch4s

  unfoldable pub select : Channel → Event → Worker → Exec Db Worker
  unfolding receive_from channel stop
  select ch receive w db = receive_from ch (channel ch db) w db
  select ch signal w db = (ret (record w { killed = true }), db)
  select ch timeout w db =
      if w.killed then stop (record w { wb_total = w.wb_total - 1 }) db else (ret w, db)

  -- The rounds of one worker; a worker that has ended does nothing.
  unfoldable pub run : Channel → List Event → Worker → Exec Db Worker
  unfolding select ◌>>=◌
  run ch [] w = pure w
  run ch (e ∷ es) w = do w' ← (if w.running then select ch e w else pure w); run ch es w'

  -- What `Close` does to the channels: `wbCh` is closed, with what is in it. The signals to the
  -- workers of `wbCh4s` are events of those workers.
  unfoldable pub close : Exec Db (Unit {0})
  unfolding modify
  close = modify λ db. record db { wb_closed = true }
