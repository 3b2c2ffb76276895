-- ===== src/External.antt =====
-- external/: the calls of the callback service that the configuration names: `Auth`,
-- `GetGroupUserList`, `OfflineCallback`, and the parameters that they send. JSON and random ids
-- are the record `Web`, with the HTTP library of utils/httpclient.go.
pub mod Answers
pub mod Tests
use sara.Common.{
  ℕ, ◌≡◌, Bool, true, false, not, List, [], ◌∷◌, Option, none, some, if◌then◌else◌, Bytes, codes,
  is_empty, insert, Result, ok, err, Outcome, ret, panic, after,
}
use sara.Http.{Http, post_request}
use sara.Config.{Conf, get_bool, get_string}

-- The field `Params`: nil, a map of strings, or what `encoding/json` reads into a map from a text.
pub data ParamsMap : Type 0 where
  nil_map : ParamsMap
  strings : List (Bytes × Bytes) → ParamsMap
  decoded : Bytes → ParamsMap

pub record Params : Type 0 where
  pub sn : Bytes
  pub service : Bytes
  pub method : Bytes
  pub params : ParamsMap

-- A call of `uuid` takes a number, which is another one at each call. `success` is what
-- `json.Unmarshal` leaves in the field `Success` and returns; `users` and `entity` are what gjson finds
-- under "entity.users" and "entity".
pub record Web : Type 0 where
  pub uuid : ℕ → Bytes
  pub marshal_params : Params → Result Bytes
  pub http : Http
  pub success : Bytes → Bool × Option Bytes
  pub users : Bytes → List Bytes
  pub entity : Bytes → Bytes

-- The loop over the keys and values that are passed on; nothing is passed in an odd number.
unfoldable pub params_map : List Bytes → List (Bytes × Bytes) → List (Bytes × Bytes)
params_map [] m = m
params_map (k ∷ []) m = m
params_map (k ∷ v ∷ rest) m = params_map rest (insert k v m)

abbrev pub is_even : List Bytes → Bool
is_even [] = true
is_even (k ∷ []) = false
is_even (k ∷ v ∷ rest) = is_even rest

unfoldable pub given_params : List Bytes → ParamsMap
unfolding params_map
given_params [] = nil_map
given_params (k ∷ rest) = if is_even (k ∷ rest) then strings (params_map (k ∷ rest) []) else nil_map

module _ (web : Web) where
  unfoldable pub new_params : Bytes → Bytes → List Bytes → ℕ → Params
  unfolding given_params
  new_params service method params call = record {
    sn = web.uuid call;
    service = service;
    method = method;
    params = given_params params;
  }

  -- `success.Success`, unless the answer cannot be decoded.
  abbrev pub accepted : Bool × Option Bytes → Bool
  accepted (flag, none) = flag
  accepted (flag, some e) = false

  -- `PostRequest(url, "body", body)`.
  abbrev pub post : Bytes → Bytes → ℕ → Outcome (Result Bytes)
  post url body call = post_request web.http url (codes "body" ∷ body ∷ []) call

  -- The request of `Auth` and of `OfflineCallback`: a failure counts as a refusal.
  abbrev pub answered : Outcome (Result Bytes) → Outcome Bool
  answered (ret (err e)) = ret false
  answered (ret (ok s)) = ret (accepted (web.success s))
  answered panic = panic

  unfoldable pub ask : Bytes → Bytes → ℕ → Outcome Bool
  ask url body call = answered (post url body call)

  abbrev pub ask_with : Bytes → ℕ → Result Bytes → Outcome Bool
  ask_with url call (err e) = ret false
  ask_with url call (ok body) = answered (post url body call)

  unfoldable pub ask_auth : Bytes → Bytes → Bytes → ℕ → Outcome Bool
  unfolding new_params
  ask_auth url uid pwd call =
      let params =
        new_params (codes "emsg_auth") (codes "auth") (codes "uid" ∷ uid ∷ codes "token" ∷ pwd ∷ [])
          call in
      ask_with url call (web.marshal_params params)

  -- What both calls do with the two settings: whether they are enabled, and the service's address.
  abbrev pub if_enabled : (Bytes → Outcome Bool) → Outcome Bool → Outcome Bytes → Outcome Bool
  if_enabled request (ret false) url = ret true
  if_enabled request (ret true) (ret []) = ret true
  if_enabled request (ret true) (ret (c ∷ url)) = request (c ∷ url)
  if_enabled request (ret true) panic = panic
  if_enabled request panic url = panic

  unfoldable pub auth : Conf → Bytes → Bytes → ℕ → Outcome Bool
  auth conf uid pwd call =
      if_enabled (λ url. ask_auth url uid pwd call) (get_bool (codes "enable_auth") true conf)
        (get_string (codes "callback") [] conf)

  -- The encoder's error is dropped, and the body is empty then.
  unfoldable pub ask_offline : Bytes → Bytes → ℕ → Outcome Bool
  unfolding ask new_params
  ask_offline url packet call =
      let params = record (new_params (codes "user_message") (codes "offline") [] call) {
        params = decoded packet;
      } in
      elim (web.marshal_params params) [ err e ↦ ask url [] call | ok body ↦ ask url body call ]

  unfoldable pub offline_callback : Conf → Bytes → ℕ → Outcome Bool
  offline_callback conf packet call =
      if_enabled (λ url. ask_offline url packet call)
        (get_bool (codes "enable_offline_callback") true conf)
        (get_string (codes "callback") [] conf)

  -- The last error of two.
  abbrev pub last_error : Option Bytes → Option Bytes → Option Bytes
  last_error e none = e
  last_error e (some f) = some f

  -- What follows the request; a request that failed goes on with an empty text. The members count
  -- only if there is no error, as the callers see it.
  unfoldable pub decode_users : Bytes → Option Bytes → Result (List Bytes)
  decode_users s e =
      let (flag, f) = web.success s in
      if flag
      then elim (last_error e f) [ none ↦ ok (web.users s) | some m ↦ err m ]
      else err (web.entity s)

  unfoldable pub ask_users : Bytes → Bytes → ℕ → Outcome (Result (List Bytes))
  unfolding decode_users new_params
  ask_users url gid call =
      let params =
        new_params (codes "emsg_group") (codes "get_user_list") (codes "gid" ∷ gid ∷ []) call in
      elim (web.marshal_params params) [
        | err e ↦ ret (err e)
        | ok body ↦ after (post url body call) λ answer. elim answer [
          | err e ↦ ret (decode_users [] (some e))
          | ok s ↦ ret (decode_users s none)
        ]
      ]

  unfoldable pub get_group_user_list : Conf → Bytes → ℕ → Outcome (Result (List Bytes))
  get_group_user_list conf gid call = after (get_string (codes "callback") [] conf) λ url.
      if is_empty url then ret (err (codes "callback_url_not_define")) else ask_users url gid call
