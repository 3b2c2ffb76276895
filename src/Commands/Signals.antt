-- ===== src/Commands/Signals.antt =====
-- The signals that reach the server.
use sara.Common.{
  ◌≡◌, ◌⊎◌, inl, inr, refl, sym, ap, ◌∙◌, Bool, true, false, not, ◌&&◌, ◌||◌, List, [], ◌∷◌, Option,
  none, some, if◌then◌else◌, Bytes, Outcome, ret, panic, Exec, pure, continue, ◌>>=◌, ◌>>◌,
}
use sara.Commands.{
  Host, System, Server, Signal, sigint, sigusr1, sigtstp, other, blk_log, mem_log, handle_signal,
  signal_handler, stop_node, on_system, stop_cpu_profiles, stop_mem_profiles, stop_block_profile,
}

abbrev is_sigint : Signal → Bool
is_sigint sigint = true
is_sigint sigusr1 = false
is_sigint sigtstp = false
is_sigint (other n) = false

is_stop : (sig : Signal) → (sig ≡ sigint) ⊎ (is_sigint sig ≡ false)
is_stop sigint = inl refl
is_stop sigusr1 = inr refl
is_stop sigtstp = inr refl
is_stop (other n) = inr refl

-- A stop is among the signals.
unfoldable pub asks : List Signal → Bool
asks [] = false
asks (sig ∷ sigs) = is_sigint sig || asks sigs

-- No profile is taken, or its file can be written.
abbrev pub CanProfile : Host → Bool → Type 0
CanProfile h debug = (debug ≡ false) ⊎ (h.create_error blk_log ≡ none)

-- A step that returns this, and neither needs the node nor stops it.
record Quiet {A : Type 0} (m : Exec Server A) (a : A) : Type 0 where
  at : (v : Server) → (m v).0 ≡ ret a
  node : (v : Server) → (m v).1.node ≡ v.node
  stopping : (v : Server) → (m v).1.stopping ≡ v.stopping

Quiet-pure : {A : Type 0} (a : A) → Quiet (pure a) a
unfolding pure
Quiet-pure a = record { at = λ v. refl; node = λ v. refl; stopping = λ v. refl }

continue-ret :
    {A B : Type 0} (f : A → Exec Server B) (a : A) (o : Outcome A) (v : Server)
    → o ≡ ret a
    → continue f o v ≡ f a v
continue-ret f a o v e = ap (λ x. continue f x v) e

Quiet-bind :
    {B : Type 0} (m : Exec Server (Unit {0})) (k : Exec Server B) (b : B)
    → Quiet m tt
    → Quiet k b
    → Quiet (m >> k) b
unfolding ◌>>=◌
Quiet-bind m k b hm hk =
    let same : (v : Server) → continue (λ _. k) (m v).0 (m v).1 ≡ k (m v).1 =
      λ v. continue-ret (λ _. k) tt (m v).0 (m v).1 (hm.at v) in
    record {
      at = λ v. ap (λ r. r.0) (same v) ∙ hk.at (m v).1;
      node = λ v. ap (λ r. r.1.node) (same v) ∙ hk.node (m v).1 ∙ hm.node v;
      stopping = λ v. ap (λ r. r.1.stopping) (same v) ∙ hk.stopping (m v).1 ∙ hm.stopping v;
    }

on_system-Quiet : (h : Host) (f : System → System) → Quiet (on_system h f) tt
unfolding on_system
on_system-Quiet h f = record { at = λ v. refl; node = λ v. refl; stopping = λ v. refl }

-- Where there may be no file.
create-Quiet :
    (m k : Exec Server (Unit {0})) (o : Option Bytes)
    → ((e : Bytes) → o ≡ some e → Quiet m tt)
    → Quiet k tt
    → Quiet (let step : Exec Server (Unit {0}) = elim o [ some e ↦ m | none ↦ k ] in step) tt
create-Quiet m k (some e) hm hk = hm e refl
create-Quiet m k none hm hk = hk

module _ (h : Host) (debug : Bool) (can : CanProfile h debug) where
  no_failure : (e : Bytes) → debug ≡ true → h.create_error blk_log ≡ some e → ⊥
  no_failure e on failed = elim can [ inl off ↦ cc | inr made ↦ cc ]

  profiles-Quiet :
      debug ≡ true
      → Quiet
          (do
            stop_cpu_profiles h
            stop_mem_profiles h
            stop_block_profile h
            pure {S = Server} true)
          true
  unfolding stop_cpu_profiles stop_mem_profiles stop_block_profile
  profiles-Quiet on = Quiet-bind _ _ true (on_system-Quiet h _) (
      Quiet-bind _ _ true
        (create-Quiet _ _ (h.create_error mem_log) (λ e f. Quiet-pure tt) (on_system-Quiet h _))
        (Quiet-bind _ _ true
          (create-Quiet _ _ (h.create_error blk_log) (λ e f. absurd (no_failure e on f))
            (on_system-Quiet h _))
          (Quiet-pure true)))

  if-Quiet :
      (b : Bool) (m : Exec Server Bool)
      → (b ≡ true → Quiet m true)
      → Quiet (if b then m else pure true) true
  if-Quiet true m hm = hm refl
  if-Quiet false m hm = Quiet-pure true

  other-Quiet : (sig : Signal) → is_sigint sig ≡ false → Quiet (handle_signal h debug sig) true
  unfolding handle_signal
  other-Quiet sigint e = absurd (cc)
  other-Quiet sigusr1 e = if-Quiet debug _ profiles-Quiet
  other-Quiet sigtstp e = Quiet-pure true
  other-Quiet (other n) e = Quiet-pure true

  -- The loop goes on behind such a signal.
  skip :
      (sig : Signal) (sigs : List Signal) (v : Server)
      → is_sigint sig ≡ false
      → signal_handler h debug (sig ∷ sigs) v
        ≡ signal_handler h debug sigs (handle_signal h debug sig v).1
  unfolding signal_handler ◌>>=◌
  skip sig sigs v e = continue-ret _ true _ _ ((other-Quiet sig e).at v)

  -- A second stop blocks, and ends the loop.
  blocked :
      (sigs : List Signal) (v : Server)
      → v.node ≡ true
      → v.stopping ≡ true
      → signal_handler h debug (sigint ∷ sigs) v ≡ (ret tt, v)
  unfolding signal_handler handle_signal stop_node ◌>>=◌ pure
  blocked sigs v n t = rw (n, t) refl

  -- The first one.
  stopped :
      (sigs : List Signal) (v : Server)
      → v.node ≡ true
      → v.stopping ≡ false
      → signal_handler h debug (sigint ∷ sigs) v
        ≡ signal_handler h debug sigs (record v { stopping = true })
  unfolding signal_handler handle_signal stop_node ◌>>=◌ pure
  stopped sigs v n t = rw (n, t) refl

  crashes :
      (sigs : List Signal) (v : Server)
      → v.node ≡ false
      → signal_handler h debug (sigint ∷ sigs) v ≡ (panic, v)
  unfolding signal_handler handle_signal stop_node ◌>>=◌ pure
  crashes sigs v n = rw n refl

  -- Behind the first stop.
  signal_handler-stopping :
      (sigs : List Signal) (v : Server)
      → v.node ≡ true
      → v.stopping ≡ true
      → ((signal_handler h debug sigs v).0 ≡ ret tt)
        × ((signal_handler h debug sigs v).1.stopping ≡ true)
  unfolding signal_handler pure
  signal_handler-stopping [] v n t = (refl, t)
  signal_handler-stopping (sig ∷ sigs) v n t = elim (is_stop sig) [
    | inl e ↦ rw (e, blocked sigs v n t) (refl, t)
    | inr e ↦ rw (skip sig sigs v e) (
        signal_handler-stopping sigs (handle_signal h debug sig v).1
          ((other-Quiet sig e).node v ∙ n) ((other-Quiet sig e).stopping v ∙ t))
  ]

  at_stop :
      (sigs : List Signal) (v : Server) (b : Bool)
      → v.node ≡ b
      → v.stopping ≡ false
      → ((signal_handler h debug (sigint ∷ sigs) v).0 ≡ (if not v.node then panic else ret tt))
        × ((signal_handler h debug (sigint ∷ sigs) v).1.stopping ≡ v.node)
  at_stop sigs v true n t =
      let (returns, stops) = signal_handler-stopping sigs (record v { stopping = true }) n refl in
      (
        ap (λ r. r.0) (stopped sigs v n t) ∙ returns ∙ rw n refl,
        ap (λ r. r.1.stopping) (stopped sigs v n t) ∙ stops ∙ sym n,
      )
  at_stop sigs v false n t = (
    ap (λ r. r.0) (crashes sigs v n) ∙ rw n refl,
    ap (λ r. r.1.stopping) (crashes sigs v n) ∙ t ∙ sym n,
  )

  -- The loop over the signals does not panic, and has told the node to stop if and only if a SIGINT is
  -- among them, whatever else arrives; but where there is no node yet, a SIGINT makes it panic. The
  -- file of the last profile is to be writable where profiles are taken.
  pub signal_handler-asks :
      (sigs : List Signal) (v : Server)
      → v.stopping ≡ false
      → ((signal_handler h debug sigs v).0 ≡ (if asks sigs && not v.node then panic else ret tt))
        × ((signal_handler h debug sigs v).1.stopping ≡ (asks sigs && v.node))
  unfolding signal_handler pure asks
  signal_handler-asks [] v t = (refl, t)
  signal_handler-asks (sig ∷ sigs) v t = elim (is_stop sig) [
    | inl e ↦ rw e (at_stop sigs v v.node refl t)
    | inr e ↦
        let same = (other-Quiet sig e).node v in
        let (ends, stops) =
          signal_handler-asks sigs (handle_signal h debug sig v).1
            ((other-Quiet sig e).stopping v ∙ t) in
        rw (skip sig sigs v e, e)
          (
            ends ∙ ap (λ b. if asks sigs && not b then panic else ret tt) same,
            stops ∙ ap (λ b. asks sigs && b) same,
          )
  ]
