-- ===== src/Session/Authentic/Branches.antt =====
-- What holds behind a branch, if it holds before it and in each of its ends.
use sara.Common.{
  ◌≡◌, refl, Bool, true, false, if◌then◌else◌, Bytes, bytes_eq, Result, ok, err, Exec, pure, fault,
  ◌>>=◌,
}
use sara.Jid.{Jid, new_jid, string_without_resource}
use sara.Session.State.{deref}
use sara.Session.Actions.{equal_without_resource}

-- What holds behind a dereference, a comparison of addresses, and a test.
pub deref-at :
    {A S : Type 0} (Q : S → Type 0) (j : Result Jid) (f : Jid → Exec S A) (s : S)
    → Q s
    → ((jid : Jid) → j ≡ ok jid → Q (f jid s).1)
    → Q ((deref j >>= f) s).1
unfolding deref ◌>>=◌ pure fault
deref-at Q (ok jid) f s q h = h jid refl
deref-at Q (err e) f s q h = q

pub equal-at :
    {A S : Type 0} (Q : S → Type 0) (jid : Jid) (text : Bytes) (f : Bool → Exec S A) (s : S)
    → Q s
    → ((b : Bool) (other : Jid)
        → new_jid text ≡ ok other
        → bytes_eq (string_without_resource jid) (string_without_resource other) ≡ b
        → Q (f b s).1)
    → Q ((equal_without_resource jid text >>= f) s).1
unfolding equal_without_resource deref ◌>>=◌ pure fault
equal-at {A} {S} Q jid text f s q h = go (new_jid text) refl
  where
    go :
        (j : Result Jid)
        → new_jid text ≡ j
        → Q
            (((deref j >>= λ jj.
                  pure (bytes_eq (string_without_resource jid) (string_without_resource jj)))
                >>= f)
              s).1
    go (ok other) e = h _ other e refl
    go (err m) e = q

pub if-at :
    {A S : Type 0} (Q : S → Type 0) (b : Bool) (x y : Exec S A) (s : S)
    → (b ≡ true → Q (x s).1)
    → (b ≡ false → Q (y s).1)
    → Q ((if b then x else y) s).1
if-at Q true x y s h k = h refl
if-at Q false x y s h k = k refl
