-- ===== src/Database/Consumers.antt =====
-- saradb/database.go, `wbfConsumer`: a channel is emptied by many workers at once. A worker takes an
-- element and then makes its write; between the two other workers go on. While the database is open
-- no element is `KILL`.
pub mod Order
pub mod Survival
pub mod Progress
mod Tests
use sara.Common.{ℕ, ◌+◌, ◌*◌, ◌<◌, ◌≤◌, ◌≡◌, List, [], ◌∷◌, ◌++◌, length}
use sara.Redis.{Redis, Command}

-- A channel with its workers: what is in it, what workers have taken, what they have made, in the
-- order in which the writes were made, and all that was ever sent.
pub record Consumers (r : Redis) : Type 0 where
  pub store : r.Store
  pub queue : List Command
  pub held : List Command
  pub made : List Command
  pub sent : List Command

module _ (r : Redis) (total : ℕ) where
  -- A step of one of the `total` workers.
  pub data Work : Consumers r → Consumers r → Type 0 where
    take :
        (s : Consumers r) (c : Command) (rest : List Command)
        → s.queue ≡ c ∷ rest
        → length s.held < total
        → Work s (record s { queue = rest; held = s.held ++ c ∷ [] })
    make :
        (s : Consumers r) (before : List Command) (c : Command) (after : List Command)
        → s.held ≡ before ++ c ∷ after
        → Work s (record s {
          store = (r.cmd c s.store).1;
          held = before ++ after;
          made = s.made ++ c ∷ [];
        })

  -- What happens to a channel: a step of a worker, or a send.
  pub data Step : Consumers r → Consumers r → Type 0 where
    work : {s t : Consumers r} → Work s t → Step s t
    send :
        (s : Consumers r) (c : Command)
        → Step s (record s { queue = s.queue ++ c ∷ []; sent = s.sent ++ c ∷ [] })

  pub data Reach (s : Consumers r) : Consumers r → Type 0 where
    here : Reach s s
    next : {t u : Consumers r} → Reach s t → Step t u → Reach s u

-- A channel of an open database, before the workers start.
abbrev pub waiting : {r : Redis} → r.Store → List Command → Consumers r
waiting store cs = record { store = store; queue = cs; held = []; made = []; sent = cs }

-- Nothing is left to be done.
pub record IsQuiet {r : Redis} (s : Consumers r) : Type 0 where
  pub queue : s.queue ≡ []
  pub held : s.held ≡ []

-- How many steps of workers are left.
abbrev pub left : {r : Redis} → Consumers r → ℕ
left s = 2 * length s.queue + length s.held
