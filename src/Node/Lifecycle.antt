-- ===== src/Node/Lifecycle.antt =====
-- node/node.go, `Wait`, `Stop` and the accepting loops, with the goroutines that stand around them:
-- what happens to connections while a node serves, and while it stops. A step is what one goroutine
-- does between two waits. A connection is a number, and so is its session. Closing sessions is in
-- Stop.antt, what a session does is left out here, but for its end.
pub mod Accounts
pub mod Closing
pub mod Races
mod Tests
use mathlib.Core.List.{Memᴰ, Permᴰ}
use sara.Common.{
  ℕ, ◌+◌, ◌<◌, ◌≡◌, ◌≢◌, Bool, true, false, List, [], ◌∷◌, ◌++◌, if◌then◌else◌, ◌==◌, length,
}
use sara.Start.{Transport, tcp, ws, tls, wss}

-- core/types/defines.go.
abbrev pub accept_queue_size : ℕ
accept_queue_size = 65536

abbrev pub accept_worker_num : ℕ
accept_worker_num = 100

-- Where `Wait` stands: before `<-self.stop`, behind `close(self.acceptCh)`, behind `closeListener`,
-- in the loop that closes the sessions, with those that are left, there in `CloseSession` of a session that
-- it has sent on `cleanSession`, and at the end.
pub data Phase : Type 0 where
  serving channel_closed listeners_closed stopped : Phase
  closing : List ℕ → Phase
  ending : ℕ → List ℕ → Phase

-- `started` are the listeners that were opened and `opened` those that still are. `held` are the
-- connections that an acceptor has and has not yet sent on `acceptCh`, `queue` is that channel,
-- `dispatching` are those that a goroutine of `Wait` has taken. `sessions` is the map of sessions and
-- `cleaning` the channel `cleanSession`. The other lists say what has happened: what was `accepted`,
-- what was `lost` to a panic that net/http catches, which sessions were `registered`, which of them
-- when `Wait` made its list, which have `begun` to end by themselves, which of them had when `Wait` made
-- its list (`left`), and which have `ended`: whose status `CloseSession` has set to close.
pub record Life : Type 0 where
  pub phase : Phase
  pub crashed : Bool
  pub started : List Transport
  pub opened : List Transport
  pub held : List (Transport × ℕ)
  pub queue : List ℕ
  pub dispatching : List ℕ
  pub sessions : List ℕ
  pub cleaning : List ℕ
  pub accepted : List ℕ
  pub lost : List ℕ
  pub registered : List ℕ
  pub listed : List ℕ
  pub begun : List ℕ
  pub left : List ℕ
  pub ended : List ℕ

-- A node in `Wait`, with these listeners.
abbrev pub waiting : List Transport → Life
waiting listeners = record {
  phase = serving;
  crashed = false;
  started = listeners;
  opened = listeners;
  held = [];
  queue = [];
  dispatching = [];
  sessions = [];
  cleaning = [];
  accepted = [];
  lost = [];
  registered = [];
  listed = [];
  begun = [];
  left = [];
  ended = [];
}

abbrev pub is_serving : Phase → Bool
is_serving serving = true
is_serving _ = false

-- `acceptTCP` and `acceptTLS` are goroutines of their own; `acceptWs` runs in a handler of net/http.
abbrev pub has_loop : Transport → Bool
has_loop tcp = true
has_loop ws = false
has_loop tls = true
has_loop wss = false

abbrev pub same : Transport → Transport → Bool
same tcp tcp = true
same ws ws = true
same tls tls = true
same wss wss = true
same _ _ = false

-- The loop of a listener waits in `Accept`.
unfoldable pub is_idle : Transport → List (Transport × ℕ) → Bool
is_idle t [] = true
is_idle t ((u, c) ∷ held) = let rest = is_idle t held in if same t u then false else rest

-- A loop accepts while its listener is open; a request for a websocket may also come on a connection
-- that net/http has taken before.
abbrev pub MayAccept : Transport → Life → Type 0
MayAccept t s = if has_loop t then Memᴰ t s.opened × (is_idle t s.held ≡ true) else Memᴰ t s.started

-- A connection, before it is sent on `acceptCh`.
unfoldable pub hold : Transport → ℕ → Life → Life
hold t c s = record s { held = s.held ++ (t, c) ∷ []; accepted = s.accepted ++ c ∷ [] }

unfoldable pub accept_tcp : ℕ → Life → Life
accept_tcp c s = hold tcp c s

unfoldable pub accept_tls : ℕ → Life → Life
accept_tls c s = hold tls c s

-- The connection could be upgraded; if not, nothing happens.
unfoldable pub accept_ws : Transport → ℕ → Life → Life
accept_ws t c s = hold t c s

unfoldable pub accept_by : Transport → ℕ → Life → Life
accept_by tcp c s = accept_tcp c s
accept_by ws c s = accept_ws ws c s
accept_by tls c s = accept_tls c s
accept_by wss c s = accept_ws wss c s

-- `delete(sessionMap, sid)`.
unfoldable pub without : ℕ → List ℕ → List ℕ
without c [] = []
without c (x ∷ xs) = let rest = without c xs in if c == x then rest else x ∷ rest

-- `close(self.acceptCh)`.
unfoldable pub close_channel : Life → Life
close_channel s = record s { phase = channel_closed }

unfoldable pub close_listener : Life → Life
close_listener s = record s { phase = listeners_closed; opened = [] }

-- `slist`, in the order in which the map is ranged over.
unfoldable pub list_sessions : List ℕ → Life → Life
list_sessions slist s = record s { phase = closing slist; listed = s.registered; left = s.begun }

-- `CloseSession` first sends on `cleanSession`, then removes the registration and sets the status; what it
-- does behind that, on the connection and the store, is left out. On a session that has ended it does
-- nothing in the source; here the session is then listed once more.
unfoldable pub send_clean : ℕ → Life → Life
send_clean c s = record s { cleaning = s.cleaning ++ c ∷ [] }

unfoldable pub end_session : ℕ → Life → Life
end_session c s = record s { ended = s.ended ++ c ∷ [] }

pub data Act (s : Life) : Life → Type 0 where
  -- The acceptors.
  accept : (t : Transport) (c : ℕ) → MayAccept t s → Act s (accept_by t c s)
  send :
      (before : List (Transport × ℕ)) (t : Transport) (c : ℕ) (after : List (Transport × ℕ))
      → is_serving s.phase ≡ true
      → s.held ≡ before ++ (t, c) ∷ after
      → length s.queue < accept_queue_size
      → Act s (record s { held = before ++ after; queue = s.queue ++ c ∷ [] })
  -- A send on the closed channel panics.
  send_panics :
      (before : List (Transport × ℕ)) (t : Transport) (c : ℕ) (after : List (Transport × ℕ))
      → is_serving s.phase ≡ false
      → s.held ≡ before ++ (t, c) ∷ after
      → has_loop t ≡ true
      → Act s (record s { crashed = true })
  send_fails :
      (before : List (Transport × ℕ)) (t : Transport) (c : ℕ) (after : List (Transport × ℕ))
      → is_serving s.phase ≡ false
      → s.held ≡ before ++ (t, c) ∷ after
      → has_loop t ≡ false
      → Act s (record s { held = before ++ after; lost = s.lost ++ c ∷ [] })
  -- The goroutines that `Wait` starts, which go on until the closed channel is empty.
  take :
      (c : ℕ) (rest : List ℕ)
      → s.queue ≡ c ∷ rest
      → length s.dispatching < accept_worker_num
      → Act s (record s { queue = rest; dispatching = s.dispatching ++ c ∷ [] })
  register :
      (before : List ℕ) (c : ℕ) (after : List ℕ)
      → s.dispatching ≡ before ++ c ∷ after
      → Act s (record s {
        dispatching = before ++ after;
        sessions = s.sessions ++ c ∷ [];
        registered = s.registered ++ c ∷ [];
      })
  -- A session ends by itself; its read loop starts before it is registered.
  leave :
      (c : ℕ)
      → Memᴰ c (s.dispatching ++ s.registered)
      → Act s (record (send_clean c s) { begun = s.begun ++ c ∷ [] })
  leave_end : (c : ℕ) → Memᴰ c s.begun → Act s (end_session c s)
  clean :
      (c : ℕ) (rest : List ℕ)
      → s.cleaning ≡ c ∷ rest
      → Act s (record s { cleaning = rest; sessions = without c s.sessions })
  -- The goroutine of `Wait` itself.
  stop : s.phase ≡ serving → Act s (close_channel s)
  close_listeners : s.phase ≡ channel_closed → Act s (close_listener s)
  list :
      (slist : List ℕ)
      → s.phase ≡ listeners_closed
      → Permᴰ slist s.sessions
      → Act s (list_sessions slist s)
  close_one :
      (c : ℕ) (rest : List ℕ)
      → s.phase ≡ closing (c ∷ rest)
      → Act s (record (send_clean c s) { phase = ending c rest })
  close_end :
      (c : ℕ) (rest : List ℕ)
      → s.phase ≡ ending c rest
      → Act s (record (end_session c s) { phase = closing rest })
  finish : s.phase ≡ closing [] → Act s (record s { phase = stopped })

-- The process is there: no panic has ended it, and `Wait` has not returned.
pub record Runs (s : Life) : Type 0 where
  pub alive : s.crashed ≡ false
  pub going : s.phase ≢ stopped

pub data Reach (s : Life) : Life → Type 0 where
  here : Reach s s
  next : {t u : Life} → Reach s t → Runs t → Act t u → Reach s u
