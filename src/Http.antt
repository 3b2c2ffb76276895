-- ===== src/Http.antt =====
-- utils/httpclient.go: a form that is posted to an address.
use sara.Common.{
  ℕ, Bool, List, [], ◌∷◌, if◌then◌else◌, Bytes, insert, Result, ok, err, Outcome, ret, panic, after,
}

-- The libraries net/http and net/url: `encode` is `Values.Encode`, `valid` says whether `NewRequest`
-- takes the address, and `send` is what `Do` returns and then, of a response, what reading it does; the
-- number is another one at each call.
pub record Http : Type 0 where
  pub encode : List (Bytes × Bytes) → Bytes
  pub valid : Bytes → Bool
  pub send : Bytes → Bytes → ℕ → Result (Result Bytes)

-- The loop over the keys and values; a key with no value behind it is out of range.
unfoldable pub form : List Bytes → List (Bytes × Bytes) → Outcome (List (Bytes × Bytes))
form [] vals = ret vals
form (k ∷ []) vals = panic
form (k ∷ v ∷ rest) vals = form rest (insert k v vals)

abbrev pub read_body : Result (Result Bytes) → Result Bytes
read_body (err e) = err e
read_body (ok (err e)) = err e
read_body (ok (ok text)) = ok text

-- The error of `NewRequest` is dropped, and the header of nil is set.
unfoldable pub post_request : Http → Bytes → List Bytes → ℕ → Outcome (Result Bytes)
unfolding form
post_request http url params call = after (form params []) λ vals.
    if http.valid url then ret (read_body (http.send url (http.encode vals) call)) else panic
