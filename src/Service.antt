-- ===== src/Service.antt =====
-- service/: the calls that other servers make over HTTP. The RPC library, which finds the method by
-- reflection and prints its result, is not modelled.
pub mod Calls
pub mod Registry
mod Tests
use sara.Common.{
  ℕ, ◌-◌, ◌≡◌, Bool, true, false, ◌&&◌, List, [], ◌∷◌, ◌++◌, Option, none, some, if◌then◌else◌, ltb,
  length, Bytes, codes, bytes_eq, is_empty, lookup, ℤ, Result, ok, err, Outcome, ret, panic, Exec,
  after, pure, fault, continue, ◌>>=◌, ◌>>◌,
}
use sara.Jid.{Jid, new_jid, to_sessionid}
use sara.Config.{Conf, get_string}
use sara.Database.{Database}

-- A JSON value in the parameters: a string, or another value as `%s` prints it.
pub data Value : Type 0 where
  text : Bytes → Value
  other : Bytes → Value

abbrev pub printed : Value → Bytes
printed (text t) = t
printed (other t) = t

-- The comparison with the empty string.
abbrev pub is_empty_text : Value → Bool
is_empty_text (text t) = is_empty t
is_empty_text (other t) = false

-- The parameters; none where they are no JSON object, and the type assertion panics.
abbrev pub Object : Type 0
Object = Option (List (Bytes × Value))

-- The entities that the methods answer with.
pub data Entity : Type 0 where
  no_entity : Entity
  reason : Bytes → Entity
  counters : List (Bytes × ℤ) → Entity

pub record Success : Type 0 where
  pub success : Bool
  pub entity : Entity

abbrev pub success_true : Success
success_true = record { success = true; entity = no_entity }

abbrev pub success_false : Bytes → Success
success_false why = record { success = false; entity = reason why }

-- `p[name]`, if it is there and not the empty string.
unfoldable pub required : Bytes → List (Bytes × Value) → Option Value
required name p = elim (lookup name p) [
  | none ↦ none
  | some v ↦ if is_empty_text v then none else some v
]

abbrev pub group_key : Bytes → Bytes → Bytes
group_key gid domain = codes "group_" ++ gid ++ b'@' ∷ domain

-- The length of a timestamp in milliseconds.
abbrev pub stamp_length : ℕ
stamp_length = 13

abbrev pub take : ℕ → Bytes → Bytes
take n [] = []
take n (c ∷ s) = if ltb 0 n then c ∷ take (n - 1) s else []

-- `nodeid[:len(nodeid)-13]`.
unfoldable pub cut_stamp : Bytes → Outcome Bytes
cut_stamp nodeid =
    if ltb (length nodeid) stamp_length
    then panic
    else ret (take (length nodeid - stamp_length) nodeid)

-- `CheckToken`.
unfoldable pub check_token : Conf → Bytes → Outcome Bool
check_token conf token =
    after (get_string (codes "accesstoken") [] conf)
      λ accesstoken. if is_empty accesstoken then ret true else ret (bytes_eq accesstoken token)

module _ (db : Database) where
  unfoldable pub reload_group : Value → Value → Exec db.State Success
  reload_group gid domain = do
    db.delete (group_key (printed gid) (printed domain))
    pure success_true

  unfoldable pub reload : Object → Exec db.State Success
  reload none = fault
  reload (some p) = elim (required (codes "gid") p) [
    | none ↦ pure (success_false (codes "gid_not_be_empty"))
    | some gid ↦ elim (required (codes "domain") p) [
      | none ↦ pure (success_false (codes "domain_not_be_empty"))
      | some domain ↦ reload_group gid domain
    ]
  ]

  abbrev pub of_outcome : {A : Type 0} → Outcome A → Exec db.State A
  of_outcome (ret a) s = (ret a, s)
  of_outcome panic s = (panic, s)

  -- The loop over the nodes; a node that cannot be counted is left out.
  unfoldable pub count_nodes : List Bytes → Exec db.State (List (Bytes × ℤ))
  count_nodes [] = pure []
  count_nodes (entry ∷ entries) = do
    nodeid ← of_outcome (cut_stamp entry)
    count ← db.count_by_idx nodeid
    rest ← count_nodes entries
    pure (elim count [ ok n ↦ (nodeid, n) ∷ rest | err e ↦ rest ])

  unfoldable pub counter : Exec db.State Success
  counter = do
    nodeids ← db.get_by_idx (codes "sara")
    elim nodeids [
      | err e ↦ pure (success_false (codes "notfound"))
      | ok [] ↦ pure (success_false (codes "notfound"))
      | ok (entry ∷ entries) ↦ do
        counts ← count_nodes (entry ∷ entries)
        pure (record { success = true; entity = counters counts })
    ]

  abbrev pub offline : Success
  offline = record { success = false; entity = no_entity }

  unfoldable pub is_registered : Jid → Exec db.State Success
  is_registered j = do
    found ← db.get (to_sessionid j)
    elim found [ ok ssb ↦ pure success_true | err e ↦ pure offline ]

  -- `jid.(string)` panics on another value.
  unfoldable pub isonline : Object → Exec db.State Success
  isonline none = fault
  isonline (some p) = elim (lookup (codes "jid") p) [
    | none ↦ pure offline
    | some (other v) ↦ fault
    | some (text jid) ↦ elim (new_jid jid) [ ok j ↦ is_registered j | err e ↦ pure offline ]
  ]
