-- ===== src/Commands/Pid.antt =====
-- The process id that is saved, and the command that reads it.
use sara.Common.{
  ℕ, ◌≤◌, ◌≡◌, refl, ap, ◌∙◌, [], ◌∷◌, ◌++◌, Option, none, some, Bytes, ℤ, pos, codes, decimal,
  atoi, atoi-decimal, max_int, lookup, lookup_inserted, Result, ok, err,
}
use sara.Commands.{
  Host, System, Signal, sigint, pidf, save_pid, stop, send_signal, read_file, write_text,
}

save_pid-written :
    (h : Host) (pid : ℕ) (s : System)
    → h.create_error pidf ≡ none
    → save_pid h pid s ≡ write_text pidf (decimal pid) s
unfolding save_pid
save_pid-written h pid s e =
    ap (λ o. elim o as (λ _. System) [ some _ ↦ s | none ↦ write_text pidf (decimal pid) s ]) e

stop-read :
    (h : Host) (text : Bytes) (s : System)
    → lookup pidf s.files ≡ some text
    → stop h s ≡ send_signal h (atoi text) sigint s
unfolding stop read_file
stop-read h text s e =
    ap
      (λ o.
        elim (elim o as (λ _. Result Bytes) [
          | some t ↦ ok t
          | none ↦ err (codes "no such file or directory")
        ])
          as (λ _. Result (Unit {0}) × System) [
            | err _ ↦ (ok tt, s)
            | ok t ↦ send_signal h (atoi t) sigint s
          ])
      e

send_signal-sent :
    (h : Host) (pid : ℤ) (sig : Signal) (s : System)
    → h.find_error pid ≡ none
    → h.signal_error pid sig ≡ none
    → send_signal h pid sig s ≡ (ok tt, record s { signals = s.signals ++ (pid, sig) ∷ [] })
unfolding send_signal
send_signal-sent h pid sig s found sent = go (h.find_error pid) (h.signal_error pid sig) found sent
  where
    go :
        (f g : Option Bytes)
        → f ≡ none
        → g ≡ none
        → (let r : Result (Unit {0}) × System = elim f [
          | some e ↦ (err e, s)
          | none ↦ elim g [
            | some e ↦ (err e, s)
            | none ↦ (ok tt, record s { signals = s.signals ++ (pid, sig) ∷ [] })
          ]
        ] in
            r ≡ (ok tt, record s { signals = s.signals ++ (pid, sig) ∷ [] }))
    go none none a b = refl
    go (some e) g a b = absurd (cc)
    go none (some e) a b = absurd (cc)

-- The command `stop` sends SIGINT, and nothing else, to the process that saved its id, if that could
-- write its file, and the process is still there and may be signalled.
pub stop-save_pid :
    (h : Host) (pid : ℕ) (s : System)
    → pid ≤ max_int
    → h.create_error pidf ≡ none
    → h.find_error (pos pid) ≡ none
    → h.signal_error (pos pid) sigint ≡ none
    → stop h (save_pid h pid s) ≡ (
      ok tt,
      record (save_pid h pid s) { signals = (save_pid h pid s).signals ++ (pos pid, sigint) ∷ [] },
    )
unfolding write_text
stop-save_pid h pid s small made found sent =
    stop-read h (decimal pid) (save_pid h pid s) (
      ap (λ t. lookup pidf t.files) (save_pid-written h pid s made)
      ∙ lookup_inserted pidf (decimal pid) s.files)
    ∙ rw (atoi-decimal pid small)
        (send_signal-sent h (pos pid) sigint (save_pid h pid s) found sent)
