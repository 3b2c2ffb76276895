-- ===== src/Database/Tests.antt =====
-- The theorems on the store at a concrete Redis: texts, and hashes apart from them.
use sara.Common.{
  ap, ℕ, ◌≡◌, refl, true, false, List, [], ◌∷◌, ◌++◌, Option, none, some, if◌then◌else◌, Bytes,
  codes, lookup, insert, delete, lookup-insert, lookup-delete, ℤ, pos, is_positive, Result, ok, err,
  ret, has_prefix, ◌>>◌,
}
use sara.Redis.{Redis, Command, set, setex, del, expire, hset, hdel, hkeys, hvals, hlen}
use sara.Database.{SaraDatabase, idx_suffix, is4s, get, put_ex_with_idx}
use sara.Common.{length}
use sara.Database.Sessions.{Answers, get-put_ex_with_idx}

pub data Resp : Type 0 where
  text_resp : Bytes → Resp
  list_resp : List Bytes → Resp
  int_resp : ℕ → Resp
  nil_resp : Resp
  err_resp : Bytes → Resp

abbrev pub Store : Type 0
Store = List (Bytes × Bytes) × List (Bytes × List (Bytes × Bytes))

abbrev pub hash : Bytes → Store → List (Bytes × Bytes)
hash i s = elim (lookup i s.1) [ some h ↦ h | none ↦ [] ]

abbrev pub keys : List (Bytes × Bytes) → List Bytes
keys [] = []
keys ((k, v) ∷ h) = k ∷ keys h

abbrev pub values : List (Bytes × Bytes) → List Bytes
values [] = []
values ((k, v) ∷ h) = v ∷ values h

abbrev pub as_resp : Option Bytes → Resp
as_resp (some v) = text_resp v
as_resp none = nil_resp

abbrev pub run_command : Command → Store → Resp × Store
run_command (set k v) s = (text_resp (codes "OK"), (insert k v s.0, s.1))
run_command (setex k ex v) s =
    if is_positive ex
    then (text_resp (codes "OK"), (insert k v s.0, s.1))
    else (err_resp (codes "ERR invalid expire time"), s)
run_command (Command.get k) s = (as_resp (lookup k s.0), s)
run_command (del k) s = (int_resp 1, (delete k s.0, delete k s.1))
run_command (expire k ex) s = (elim (lookup k s.0) [ some v ↦ int_resp 1 | none ↦ int_resp 0 ], s)
run_command (hset i k v) s = (int_resp 1, (s.0, insert i (insert k v (hash i s)) s.1))
run_command (hdel i k) s = (int_resp 1, (s.0, insert i (delete k (hash i s)) s.1))
run_command (hkeys i) s = (list_resp (keys (hash i s)), s)
run_command (hvals i) s = (list_resp (values (hash i s)), s)
run_command (hlen i) s = (int_resp (length (hash i s)), s)

abbrev pub resp_error : Resp → Option Bytes
resp_error (err_resp e) = some e
resp_error (text_resp t) = none
resp_error (list_resp ts) = none
resp_error (int_resp i) = none
resp_error nil_resp = none

abbrev pub resp_text : Resp → Result Bytes
resp_text (text_resp t) = ok t
resp_text (err_resp e) = err e
resp_text (list_resp ts) = err (codes "not a string")
resp_text (int_resp i) = err (codes "not a string")
resp_text nil_resp = err (codes "response is nil")

abbrev pub resp_texts : Resp → Result (List Bytes)
resp_texts (list_resp ts) = ok ts
resp_texts (err_resp e) = err e
resp_texts (text_resp t) = err (codes "not a list")
resp_texts (int_resp i) = err (codes "not a list")
resp_texts nil_resp = err (codes "response is nil")

abbrev pub resp_number : Resp → Result ℤ
resp_number (int_resp i) = ok (pos i)
resp_number (err_resp e) = err e
resp_number (text_resp t) = err (codes "not an int")
resp_number (list_resp ts) = err (codes "not an int")
resp_number nil_resp = err (codes "response is nil")

abbrev pub redis : Redis
redis = record {
  Store = Store;
  Resp = Resp;
  cmd = run_command;
  resp_err = resp_error;
  resp_bytes = resp_text;
  resp_list = resp_texts;
  resp_int = resp_number;
}

abbrev pub redis_answers : Answers redis
redis_answers = record {
  text = λ s k. lookup k s.0;
  get_some = λ s k v e. ap (λ o. resp_text (as_resp o)) e;
  get_none = λ s k e. (codes "response is nil", ap (λ o. resp_text (as_resp o)) e);
  set_accepted = λ s k v. refl;
  set_text = λ s k j v. lookup-insert k j v s.0;
  setex_accepted = λ s k v n. refl;
  setex_text = λ s k j v n. lookup-insert k j v s.0;
  hset_accepted = λ s i k v e. refl;
  hset_text = λ s i k v j. refl;
  hdel_text = λ s i k j. refl;
  del_text = λ s k j. lookup-delete k j s.0;
}

abbrev pub empty_db : SaraDatabase redis
empty_db = record { store = ([], []); wb_ch = []; wb_ch4s = []; wb_closed = false }

abbrev pub key : Bytes
key = codes "session_u@d"

key-is4s : is4s key ≡ true
unfolding is4s has_prefix
key-is4s = refl

pub message-is4s : is4s (codes "m1") ≡ false
unfolding is4s has_prefix
message-is4s = refl

free : lookup (codes "n2" ++ idx_suffix) empty_db.store.0 ≡ none
unfolding lookup
free = refl

get-put_ex_with_idx_example :
    ((put_ex_with_idx redis (codes "n2") key (codes "v") (ℤ.negsuc 0) >> get redis key) empty_db).0
    ≡ ret (ok (codes "v"))
get-put_ex_with_idx_example =
    get-put_ex_with_idx redis redis_answers (codes "n2") key (codes "v") (ℤ.negsuc 0) empty_db
      key-is4s free
