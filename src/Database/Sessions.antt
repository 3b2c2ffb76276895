-- ===== src/Database/Sessions.antt =====
-- The registration of a session: what `Get` finds after a login, and after the writes of a logout.
use sara.Common.{
  ℕ, zero, suc, ◌≡◌, ap, ◌∙◌, bind-ret, true, [], ◌∷◌, ◌++◌, Option, none, some, arith,
  if◌then◌else◌, Bytes, bytes_eq, bytes_eq_refl, ℤ, ok, err, ret, ◌>>◌,
}
use sara.Redis.{Redis, Command, set, setex, del, hset, hdel}
use sara.Database.{
  SaraDatabase, idx_suffix, is4s, write, put_ex_with_idx, put_session, delete_by_idx_key, get,
}
use sara.Database.Writes.{commands, delete_by_idx_key_session}
use sara.Database.Worker.{sessions, run}
use sara.Database.Shutdown.{live, receives}

-- What the server relies on of a Redis that answers. `text s k` is the text that the store `s` holds
-- under `k`; a key that holds a hash has none.
pub record Answers (r : Redis) : Type 0 where
  pub text : r.Store → Bytes → Option Bytes
  pub get_some :
      (s : r.Store) (k v : Bytes)
      → text s k ≡ some v
      → r.resp_bytes (r.cmd (Command.get k) s).0 ≡ ok v
  pub get_none :
      (s : r.Store) (k : Bytes)
      → text s k ≡ none
      → (e : Bytes) × (r.resp_bytes (r.cmd (Command.get k) s).0 ≡ err e)
  pub set_accepted : (s : r.Store) (k v : Bytes) → r.resp_err (r.cmd (set k v) s).0 ≡ none
  pub set_text :
      (s : r.Store) (k j v : Bytes)
      → text (r.cmd (set k v) s).1 j ≡ (if bytes_eq k j then some v else text s j)
  pub setex_accepted :
      (s : r.Store) (k v : Bytes) (n : ℕ)
      → r.resp_err (r.cmd (setex k (ℤ.pos (suc n)) v) s).0 ≡ none
  pub setex_text :
      (s : r.Store) (k j v : Bytes) (n : ℕ)
      → text (r.cmd (setex k (ℤ.pos (suc n)) v) s).1 j ≡ (if bytes_eq k j then some v else text s j)
  pub hset_accepted :
      (s : r.Store) (i k v : Bytes) → text s i ≡ none → r.resp_err (r.cmd (hset i k v) s).0 ≡ none
  pub hset_text : (s : r.Store) (i k v j : Bytes) → text (r.cmd (hset i k v) s).1 j ≡ text s j
  pub hdel_text : (s : r.Store) (i k j : Bytes) → text (r.cmd (hdel i k) s).1 j ≡ text s j
  pub del_text :
      (s : r.Store) (k j : Bytes)
      → text (r.cmd (del k) s).1 j ≡ (if bytes_eq k j then none else text s j)

module _ (r : Redis) (answers : Answers r) where
  open answers use {
    text, get_some, get_none, set_accepted, set_text, setex_accepted, setex_text, hset_accepted,
    hset_text, hdel_text, del_text,
  }

  write_accepted :
      (s : r.Store) (k v : Bytes) (ex : ℤ) → r.resp_err (r.cmd (write r k v ex) s).0 ≡ none
  write_accepted s k v (ℤ.pos zero) = set_accepted s k v
  write_accepted s k v (ℤ.pos (suc n)) = setex_accepted s k v n
  write_accepted s k v (ℤ.negsuc n) = set_accepted s k v

  pub write_text :
      (s : r.Store) (k v : Bytes) (ex : ℤ) → text (r.cmd (write r k v ex) s).1 k ≡ some v
  write_text s k v (ℤ.pos zero) = simp (set_text, bytes_eq_refl)
  write_text s k v (ℤ.pos (suc n)) = simp (setex_text, bytes_eq_refl)
  write_text s k v (ℤ.negsuc n) = simp (set_text, bytes_eq_refl)

  -- The store after the two writes of `PutExWithIdx`.
  abbrev pub registered : r.Store → Bytes → Bytes → Bytes → ℤ → r.Store
  registered s name key value ex =
      (r.cmd (write r key value ex) (r.cmd (hset (name ++ idx_suffix) key value) s).1).1

  put_session_lem :
      (idx key value : Bytes) (ex : ℤ) (db : SaraDatabase r)
      → text db.store idx ≡ none
      → put_session r idx key value ex db ≡ (
        ret (ok tt),
        record db {
          store = (r.cmd (write r key value ex) (r.cmd (hset idx key value) db.store).1).1;
        },
      )
  unfolding put_session
  put_session_lem idx key value ex db free = ground (
    arith,
    hset_accepted db.store idx key value free,
    write_accepted (r.cmd (hset idx key value) db.store).1 key value ex,
  )

  pub put_ex_with_idx_session :
      (name key value : Bytes) (ex : ℤ) (db : SaraDatabase r)
      → is4s key ≡ true
      → text db.store (name ++ idx_suffix) ≡ none
      → put_ex_with_idx r name key value ex db
        ≡ (ret (ok tt), record db { store = registered db.store name key value ex })
  unfolding put_ex_with_idx
  put_ex_with_idx_session name key value ex db e free =
      rw e (put_session_lem (name ++ idx_suffix) key value ex db free)

  -- A login is registered at once: after `PutExWithIdx` of a session key, `Get` finds the value,
  -- if the name of the index is not used as a text.
  pub get-put_ex_with_idx :
      (name key value : Bytes) (ex : ℤ) (db : SaraDatabase r)
      → is4s key ≡ true
      → text db.store (name ++ idx_suffix) ≡ none
      → ((put_ex_with_idx r name key value ex >> get r key) db).0 ≡ ret (ok value)
  unfolding get
  get-put_ex_with_idx name key value ex db e free =
      ap (λ p. p.0)
        (bind-ret (put_ex_with_idx r name key value ex) (λ _. get r key) db _ _
          (put_ex_with_idx_session name key value ex db e free))
      ∙ ap ret (
          get_some (registered db.store name key value ex) key value
            (write_text (r.cmd (hset (name ++ idx_suffix) key value) db.store).1 key value ex))

  -- The deletions of a logout apply to whatever the key holds when a worker makes them. So a logout
  -- that is queued before a login under the same key removes the registration of that login: `Get`
  -- finds the new session until a worker makes the deletions, and nothing after. Nothing else is
  -- queued, and the name of the new index is not used as a text.
  pub logout_removes_next_login :
      (old new key value : Bytes) (ex : ℤ) (total : ℕ) (db : SaraDatabase r)
      → is4s key ≡ true
      → db.wb_ch4s ≡ []
      → text db.store (new ++ idx_suffix) ≡ none
      → let relogin = (delete_by_idx_key r old key >> put_ex_with_idx r new key value ex) db in
        let worked =
          (run r sessions
            (receives r (hdel (old ++ idx_suffix) key ∷ del key ∷ []))
            (live total)
            relogin.1) in
        ((get r key relogin.1).0 ≡ ret (ok value))
        × ((m : Bytes) × ((get r key worked.1).0 ≡ ret (err m)))
  unfolding get
  logout_removes_next_login old new key value ex total db e empty free =
      let deletions = hdel (old ++ idx_suffix) key ∷ del key ∷ [] in
      let store = registered db.store new key value ex in
      let again : SaraDatabase r = record db { wb_ch4s = commands r deletions; store = store } in
      let relogin : (delete_by_idx_key r old key >> put_ex_with_idx r new key value ex) db
          ≡ (ret (ok tt), again) =
        bind-ret (delete_by_idx_key r old key) (λ _. put_ex_with_idx r new key value ex) db
          (record db { wb_ch4s = commands r deletions }) (ok tt)
          (delete_by_idx_key_session r old key db e ∙ rw empty)
        ∙ put_ex_with_idx_session new key value ex (record db { wb_ch4s = commands r deletions }) e
            free in
      let worked = (r.cmd (del key) (r.cmd (hdel (old ++ idx_suffix) key) store).1).1 in
      let gone = get_none worked key (simp (del_text, bytes_eq_refl)) in
      rw relogin (
        ap ret (
            get_some store key value
              (write_text (r.cmd (hset (new ++ idx_suffix) key value) db.store).1 key value ex)),
        (gone.0, unfold run in ap ret gone.1),
      )
