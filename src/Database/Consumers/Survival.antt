-- ===== src/Database/Consumers/Survival.antt =====
-- Writes that workers make in another order than the one in which they were sent.
use sara.Common.{
  ℕ, ◌≤◌, ◌≡◌, refl, false, List, [], ◌∷◌, ◌++◌, some, arith, Bytes, ℤ, ok, ret, ◌>>◌,
}
use sara.Redis.{Redis, Command, hset, hdel, del}
use sara.Database.{SaraDatabase, idx_suffix, is4s, write, put_ex_with_idx, delete_by_idx_key}
use sara.Database.Writes.{apply, commands}
use sara.Database.Sessions.{Answers, write_text}
use sara.Database.Consumers.{Consumers, take, make, work, Reach, here, next, waiting, IsQuiet}

module _ (r : Redis) (answers : Answers r) where
  open answers use {text}

  -- What is queued for a message that is stored and then deleted.
  abbrev pub stored_deleted : Bytes → Bytes → Bytes → ℤ → List Command
  stored_deleted name key value ex =
      hset (name ++ idx_suffix) key value
      ∷ write r key value ex
      ∷ hdel (name ++ idx_suffix) key
      ∷ del key
      ∷ []

  -- The four writes, with the second made last.
  overtaken :
      (total : ℕ) (store : r.Store) (a b c d : Command)
      → 2 ≤ total
      → Reach r total (waiting store (a ∷ b ∷ c ∷ d ∷ [])) (record {
        store = apply r (a ∷ c ∷ d ∷ b ∷ []) store;
        queue = [];
        held = [];
        made = a ∷ c ∷ d ∷ b ∷ [];
        sent = a ∷ b ∷ c ∷ d ∷ [];
      })
  overtaken total store a b c d h =
      next
        (next
          (next
            (next
              (next
                (next
                  (next (next here (work (take _ a (b ∷ c ∷ d ∷ []) refl (omega (arith, h)))))
                    (work (make _ [] a [] refl)))
                  (work (take _ b (c ∷ d ∷ []) refl (omega (arith, h)))))
                (work (take _ c (d ∷ []) refl (omega (arith, h)))))
              (work (make _ (b ∷ []) c [] refl)))
            (work (take _ d [] refl (omega (arith, h)))))
          (work (make _ (b ∷ []) d [] refl)))
        (work (make _ [] b [] refl))

  -- With two workers at least, a message that is stored and then deleted can stay: the four writes
  -- are queued in order, and the workers can make them so that the store holds the message at the end.
  pub message_survives :
      (total : ℕ) (name key value : Bytes) (ex : ℤ) (db : SaraDatabase r)
      → 2 ≤ total
      → is4s key ≡ false
      → db.wb_closed ≡ false
      → db.wb_ch ≡ []
      → ((put_ex_with_idx r name key value ex >> delete_by_idx_key r name key) db
          ≡ (ret (ok tt), record db { wb_ch = commands r (stored_deleted name key value ex) }))
        × (s : Consumers r) × Reach r total (waiting db.store (stored_deleted name key value ex)) s
        × IsQuiet s
        × (text s.store key ≡ some value)
  message_survives total name key value ex db many k opened empty = (
    unfold put_ex_with_idx delete_by_idx_key in ground (arith, k, opened, empty),
    _,
    overtaken total db.store _ _ _ _ many,
    record { queue = refl; held = refl },
    write_text r answers _ key value ex,
  )
