-- ===== src/Node/Lifecycle/Tests.antt =====
-- A node with a TCP listener and one client.
use mathlib.Core.List.{Memᴰ}
use mathlib.Core.List.Permᴰ
use sara.Common.{◌⊎◌, ◌≡◌, refl, true, [], ◌∷◌, arith}
use sara.Start.{tcp}
use sara.Node.Lifecycle.{
  Life, stopped, waiting, Reach, accept, send, take, register, stop, close_listeners, list,
  close_one, close_end, finish, here, next, hold, is_idle, accept_by, accept_tcp, close_channel,
  close_listener, list_sessions, send_clean, end_session,
}
use sara.Node.Lifecycle.Accounts.{IsAccounted, Reach-IsAccounted}
use sara.Node.Lifecycle.Closing.{Reach-all_closed}
use sara.Node.Lifecycle.Races.{Waits, stop_crashes, late_session_open, early_return}

abbrev node : Life
node = waiting (tcp ∷ [])

-- Its client has connected.
abbrev connected : Life
connected = record node { held = (tcp, 7) ∷ []; accepted = 7 ∷ [] }

node-connected : Reach node connected
unfolding accept_by accept_tcp hold
node-connected =
    next here (record { alive = refl; going = λ e. cc })
      (accept tcp 7 (Memᴰ.head refl, unfold is_idle in refl))

abbrev registered_one : Life
registered_one = record node { accepted = 7 ∷ []; sessions = 7 ∷ []; registered = 7 ∷ [] }

node-registered_one : Reach node registered_one
node-registered_one =
    next
      (next
        (next node-connected (record { alive = refl; going = λ e. cc })
          (send [] tcp 7 [] refl refl (omega arith)))
        (record { alive = refl; going = λ e. cc }) (take 7 [] refl (omega arith)))
      (record { alive = refl; going = λ e. cc }) (register [] 7 [] refl)

abbrev at_end : Life
at_end = record registered_one {
  phase = stopped;
  opened = [];
  listed = 7 ∷ [];
  ended = 7 ∷ [];
  cleaning = 7 ∷ [];
}

node-at_end : Reach node at_end
unfolding close_channel close_listener list_sessions send_clean end_session
node-at_end =
    next
      (next
        (next
          (next
            (next (next node-registered_one (record { alive = refl; going = λ e. cc }) (stop refl))
              (record { alive = refl; going = λ e. cc }) (close_listeners refl))
            (record { alive = refl; going = λ e. cc }) (list (7 ∷ []) refl (Permᴰ.refl (7 ∷ []))))
          (record { alive = refl; going = λ e. cc }) (close_one 7 [] refl))
        (record { alive = refl; going = λ e. cc }) (close_end 7 [] refl))
      (record { alive = refl; going = λ e. cc }) (finish refl)

Reach-IsAccounted_example : IsAccounted 7 at_end
Reach-IsAccounted_example = Reach-IsAccounted 7 (tcp ∷ []) node-at_end

Reach-all_closed_example : Memᴰ 7 at_end.ended ⊎ Memᴰ 7 at_end.left
Reach-all_closed_example = Reach-all_closed (tcp ∷ []) node-at_end refl 7 (Memᴰ.head refl)

registered_one-Waits : Waits tcp registered_one
unfolding is_idle
registered_one-Waits = record {
  alive = refl;
  serves = refl;
  loop = refl;
  opened = Memᴰ.head refl;
  idle = refl;
}

stop_crashes_example :
    (u : Life) × Reach registered_one u
    × (u.crashed ≡ true)
    × (u.sessions ≡ 7 ∷ [])
    × (u.ended ≡ [])
stop_crashes_example = stop_crashes tcp 8 registered_one registered_one-Waits

late_session_open_example :
    (u : Life) × Reach registered_one u
    × (u.phase ≡ stopped)
    × (u.sessions ≡ 7 ∷ 8 ∷ [])
    × (u.ended ≡ 7 ∷ [])
late_session_open_example = late_session_open tcp 8 registered_one registered_one-Waits refl refl

early_return_example :
    (u : Life) × Reach registered_one u × (u.phase ≡ stopped) × Memᴰ 7 u.listed × (u.ended ≡ [])
early_return_example = early_return 7 registered_one refl refl (Memᴰ.head refl) refl refl
