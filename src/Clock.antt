-- ===== src/Clock.antt =====
-- utils/dateutils.go. The clock of the library time is the number of nanoseconds since 1970.
use sara.Common.{ℕ, ◌+◌, ◌*◌, ◌/◌, ◌≡◌, arith}

-- `time.Now().Unix()`.
unfoldable pub timestamp10 : ℕ → ℕ
timestamp10 now = now / 1000000000

unfoldable pub timestamp13 : ℕ → ℕ
timestamp13 now = now / 1000000

unfoldable pub timeout_time : ℕ → ℕ → ℕ
timeout_time second now = now + second * 1000000000

-- The two stamps of a moment agree on its second.
timestamp13-timestamp10 : (now : ℕ) → timestamp13 now / 1000 ≡ timestamp10 now
unfolding timestamp13 timestamp10
timestamp13-timestamp10 now = omega arith

-- A deadline is so many seconds later.
timestamp10-timeout_time :
    (second now : ℕ) → timestamp10 (timeout_time second now) ≡ timestamp10 now + second
unfolding timestamp10 timeout_time
timestamp10-timeout_time second now = omega arith
