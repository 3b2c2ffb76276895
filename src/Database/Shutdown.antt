-- ===== src/Database/Shutdown.antt =====
-- The workers over the elements of a channel, before and after `Close`.
use sara.Common.{ℕ, ◌-◌, ◌≡◌, refl, Bool, true, false, List, [], ◌∷◌, ◌++◌, ret, panic}
use sara.Redis.{Redis, Command}
use sara.Database.{SaraDatabase, WriteBufArgs}
use sara.Database.Writes.{apply, commands}
use sara.Database.Worker.{
  Channel, messages, sessions, Event, receive, signal, timeout, Worker, run, close,
}

-- A worker that runs and was not told to end.
abbrev pub live : ℕ → Worker
live total = record { killed = false; send_kill = false; wb_total = total; running = true }

-- A worker that has ended.
abbrev pub ended : Bool → ℕ → Worker
ended killed total = record {
  killed = killed;
  send_kill = false;
  wb_total = total;
  running = false;
}

module _ (r : Redis) where
  abbrev pub with_channel : Channel → List WriteBufArgs → SaraDatabase r → SaraDatabase r
  with_channel messages ch db = record db { wb_ch = ch }
  with_channel sessions ch db = record db { wb_ch4s = ch }

  -- One round for each of some commands.
  abbrev pub receives : List Command → List Event
  receives [] = []
  receives (c ∷ cs) = receive ∷ receives cs

  -- Such a worker makes the writes of its channel, in order.
  pub run-receives :
      (ch : Channel) (cs : List Command) (es : List Event) (total : ℕ) (db : SaraDatabase r)
      → run r ch (receives cs ++ es) (live total) (with_channel ch (commands r cs) db)
        ≡ run r ch es (live total) (record (with_channel ch [] db) { store = apply r cs db.store })
  unfolding run
  run-receives messages [] es total db = refl
  run-receives sessions [] es total db = refl
  run-receives messages (c ∷ cs) es total db =
      run-receives messages cs es total (record db { store = (r.cmd c db.store).1 })
  run-receives sessions (c ∷ cs) es total db =
      run-receives sessions cs es total (record db { store = (r.cmd c db.store).1 })

  -- Closing the message channel drops nothing: after `Close`, a worker that is alone on the channel still
  -- makes all the writes in it, in order, and ends only then.
  close-run_messages :
      (cs : List Command) (total : ℕ) (db : SaraDatabase r)
      → run r messages
          (receives cs ++ receive ∷ [])
          (live total)
          (close r (record db { wb_ch = commands r cs })).1
        ≡ (
          ret (ended false total),
          record db { wb_ch = []; wb_closed = true; store = apply r cs db.store },
        )
  unfolding close
  close-run_messages cs total db =
      rw (run-receives messages cs (receive ∷ []) total (record db { wb_closed = true }))
        (unfold run in refl)

  -- A worker of the session channel that is signalled when the channel is empty ends after a time
  -- without elements; all the writes have been made.
  pub close-run_sessions :
      (cs : List Command) (total : ℕ) (db : SaraDatabase r)
      → run r sessions
          (receives cs ++ signal ∷ timeout ∷ [])
          (live total)
          (close r (record db { wb_ch4s = commands r cs })).1
        ≡ (
          ret (ended true (total - 1)),
          record db { wb_ch4s = []; wb_closed = true; store = apply r cs db.store },
        )
  unfolding close
  close-run_sessions cs total db =
      rw (run-receives sessions cs (signal ∷ timeout ∷ []) total (record db { wb_closed = true }))
        (unfold run in refl)

  -- A worker of the session channel that is signalled before the channel is empty panics at its
  -- next element: it sends `KILL` on the message channel, which `Close` has closed. The element is
  -- gone, and neither it nor any behind it is written.
  pub close-run_panics :
      (wb : WriteBufArgs) (rest : List WriteBufArgs) (es : List Event) (total : ℕ)
      (db : SaraDatabase r)
      → run r sessions
          (signal ∷ receive ∷ es)
          (live total)
          (close r (record db { wb_ch4s = wb ∷ rest })).1
        ≡ (panic, record db { wb_ch4s = rest; wb_closed = true })
  unfolding close run
  close-run_panics wb rest es total db = refl
