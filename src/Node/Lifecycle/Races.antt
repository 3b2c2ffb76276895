-- ===== src/Node/Lifecycle/Races.antt =====
-- What the order of the last steps of `Wait` allows.
use mathlib.Core.List.{Memᴰ, Permᴰ}
use mathlib.Core.List.Memᴰ
use mathlib.Core.List.Permᴰ
use sara.Common.{
  ℕ, ◌≡◌, ◌≢◌, refl, sym, ◌∙◌, subst, true, false, List, [], ◌∷◌, ◌++◌, append-nil, append_assoc,
  arith, ap, ==_iff,
}
use sara.Start.{Transport}
use sara.Node.Lifecycle.{
  Life, Phase, serving, closing, stopped, has_loop, is_idle, Reach, Runs, accept, send, send_panics,
  take, register, stop, close_listeners, list, close_one, close_end, ending, leave, clean, without,
  finish, here, next, hold, close_channel, close_listener, list_sessions, send_clean, end_session,
}
use sara.Node.Lifecycle.Accounts.{accept_by-hold}

Reach-trans : {s t u : Life} → Reach s t → Reach t u → Reach s u
Reach-trans p here = p
Reach-trans p (next q runs a) = next (Reach-trans p q) runs a

-- A node that serves, with a loop that waits for a connection.
pub record Waits (t : Transport) (s : Life) : Type 0 where
  pub alive : s.crashed ≡ false
  pub serves : s.phase ≡ serving
  pub loop : has_loop t ≡ true
  pub opened : Memᴰ t s.opened
  pub idle : is_idle t s.held ≡ true

going : {p q : Phase} → p ≡ q → q ≢ stopped → p ≢ stopped
going e n f = n (sym e ∙ f)

-- The loop accepts a connection.
Reach-hold : (t : Transport) (c : ℕ) (s : Life) → Waits t s → Reach s (hold t c s)
Reach-hold t c s w = subst (Reach s) (accept_by-hold t c s) (
    next here (record { alive = w.alive; going = going w.serves λ e. cc })
      (accept t c (rw w.loop (w.opened, w.idle))))

-- Where a loop of TCP or TLS waits for a connection, a client that connects can end the node by a
-- panic, of the loop, when the node is told to stop; no session has then been closed by `Wait`.
pub stop_crashes :
    (t : Transport) (c : ℕ) (s : Life)
    → Waits t s
    → (u : Life) × Reach s u × (u.crashed ≡ true) × (u.sessions ≡ s.sessions) × (u.ended ≡ s.ended)
unfolding hold close_channel
stop_crashes t c s w = (
  _,
  next
      (next (Reach-hold t c s w) (record { alive = w.alive; going = going w.serves λ e. cc })
        (stop w.serves))
      (record { alive = w.alive; going = λ e. cc }) (send_panics s.held t c [] refl refl w.loop),
  refl,
  refl,
  refl,
)

-- The loop of `Wait` over the sessions, with nothing else in between.
Reach-closing :
    (slist : List ℕ) (s : Life)
    → s.crashed ≡ false
    → s.phase ≡ closing slist
    → (u : Life) × Reach s u
      × (u.phase ≡ closing [])
      × (u.crashed ≡ false)
      × (u.sessions ≡ s.sessions)
      × (u.ended ≡ s.ended ++ slist)
unfolding send_clean end_session
Reach-closing [] s alive p = (s, here, p, alive, refl, sym (append-nil s.ended))
Reach-closing (c ∷ slist) s alive p =
    let sent : Life = record (send_clean c s) { phase = ending c slist } in
    let v : Life = record (end_session c sent) { phase = closing slist } in
    let (u, q, done, lives, same, ended) = Reach-closing slist v alive refl in
    (
      u,
      Reach-trans
          (next
            (next here (record { alive = alive; going = going p λ e. cc }) (close_one c slist p))
            (record { alive = alive; going = λ e. cc }) (close_end c slist refl))
          q,
      done,
      lives,
      same,
      ended ∙ append_assoc s.ended (c ∷ []) slist,
    )

-- A connection that a goroutine of `Wait` has taken, on a node that served.
abbrev taken : Transport → ℕ → Life → Life
taken t c s = record (hold t c s) { held = s.held ++ []; queue = []; dispatching = c ∷ [] }

Reach-taken :
    (t : Transport) (c : ℕ) (s : Life)
    → Waits t s
    → s.queue ≡ []
    → s.dispatching ≡ []
    → Reach s (taken t c s)
unfolding hold
Reach-taken t c s w q d =
    let runs : Runs s = record { alive = w.alive; going = going w.serves λ e. cc } in
    let sent : Life = record (hold t c s) { held = s.held ++ []; queue = s.queue ++ c ∷ [] } in
    let p : Reach s sent =
      next (Reach-hold t c s w) (record { alive = runs.alive; going = runs.going })
        (send s.held t c [] (rw w.serves refl) refl (rw q (omega arith))) in
    subst (λ l. Reach s (record sent { queue = []; dispatching = l ++ c ∷ [] })) d
      (next p (record { alive = runs.alive; going = runs.going })
        (take c [] (rw q refl) (rw d (omega arith))))

-- A client that connects before the node is told to stop can have its session registered when `Wait`
-- has listed the sessions; then `Wait` closes all others and returns. So it is where a loop of TCP or
-- TLS waits for a connection and none is on its way to be registered.
pub late_session_open :
    (t : Transport) (c : ℕ) (s : Life)
    → Waits t s
    → s.queue ≡ []
    → s.dispatching ≡ []
    → (u : Life) × Reach s u
      × (u.phase ≡ stopped)
      × (u.sessions ≡ s.sessions ++ c ∷ [])
      × (u.ended ≡ s.ended ++ s.sessions)
unfolding hold close_channel close_listener list_sessions
late_session_open t c s w q d =
    let stopping : Life = close_listener (close_channel (taken t c s)) in
    let closing_all : Life = list_sessions s.sessions stopping in
    let late : Life = record closing_all {
      dispatching = [];
      sessions = s.sessions ++ c ∷ [];
      registered = s.registered ++ c ∷ [];
    } in
    let p : Reach s stopping =
      next
        (next (Reach-taken t c s w q d) (record { alive = w.alive; going = going w.serves λ e. cc })
          (stop w.serves))
        (record { alive = w.alive; going = λ e. cc }) (close_listeners refl) in
    let p' : Reach s late =
      next
        (next p (record { alive = w.alive; going = λ e. cc })
          (list s.sessions refl (Permᴰ.refl s.sessions)))
        (record { alive = w.alive; going = λ e. cc }) (register [] c [] refl) in
    let (u, p'', done, lives, same, ended) = Reach-closing s.sessions late w.alive refl in
    (
      record u { phase = stopped },
      next (Reach-trans p' p'') (record { alive = lives; going = going done λ e. cc })
          (finish done),
      refl,
      same,
      ended,
    )

without-one : (c : ℕ) (xs : List ℕ) → xs ≡ c ∷ [] → without c xs ≡ []
unfolding without
without-one c xs e = rw (e, (==_iff c c).1 refl) refl

-- A session that begins to end by itself may be out of the map before its status is set to close: then
-- `Wait` does not see it, and can return with that status not set. So it is on a node that serves, with one
-- registered session in its map and nothing to be taken out of it.
pub early_return :
    (c : ℕ) (s : Life)
    → s.crashed ≡ false
    → s.phase ≡ serving
    → Memᴰ c s.registered
    → s.sessions ≡ c ∷ []
    → s.cleaning ≡ []
    → (u : Life) × Reach s u × (u.phase ≡ stopped) × Memᴰ c u.listed × (u.ended ≡ s.ended)
unfolding send_clean close_channel close_listener list_sessions
early_return c s alive serves member sessions cleaning =
    let leaving : Life = record (send_clean c s) { begun = s.begun ++ c ∷ [] } in
    let gone : Life = record leaving { cleaning = []; sessions = without c s.sessions } in
    let p : Reach s gone =
      next
        (next here (record { alive = alive; going = going serves λ e. cc })
          (leave c (Memᴰ.append_right s.dispatching member)))
        (record { alive = alive; going = going serves λ e. cc })
        (clean c [] (ap (λ l. l ++ c ∷ []) cleaning)) in
    let stopping : Life = close_listener (close_channel gone) in
    let p' : Reach s stopping =
      next (next p (record { alive = alive; going = going serves λ e. cc }) (stop serves))
        (record { alive = alive; going = λ e. cc }) (close_listeners refl) in
    let none : Permᴰ [] (without c s.sessions) =
      subst (Permᴰ []) (sym (without-one c s.sessions sessions)) Permᴰ.nil in
    (
      _,
      next (next p' (record { alive = alive; going = λ e. cc }) (list [] refl none))
          (record { alive = alive; going = λ e. cc }) (finish refl),
      refl,
      member,
      refl,
    )
