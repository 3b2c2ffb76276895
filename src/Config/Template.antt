-- ===== src/Config/Template.antt =====
-- config/config.go, the configuration file that `sara setup` writes.
use sara.Common.{
  ◌≡◌, refl, subst, Bool, true, false, List, [], ◌∷◌, some, Bytes, codes, bytes_eq, bytes_eq_iff,
  if◌then◌else◌, lookup, pos, All,
}
use sara.Config.{ConfFile, Value, int_value, string_value, bool_value}

abbrev pub template : Bytes
template =
    codes
      "\n{\n    \"port\": 4222,\n    \"wsport\": 4224,\n    \"tlsport\": 4333,\n    \"wssport\": 4334,\n    \"rpcport\": 4280,\n    \"accesstoken\":\"http-rpc access token\",\n    \"nodeid\":\"n01\",\n    \"dbaddr\": \"localhost:6379\",\n    \"dbpool\":100,\n    \"callback\":\"\",\n    \"nodeaddr\": \"localhost:4281\",\n    \"logfile\":\"/tmp/sara.log\",\n    \"loglevel\":3,\n    \"dc\":\"dc01\",\n    \"certfile\":\"/etc/sara/server.pem\",\n    \"keyfile\":\"/etc/sara/server.key\",\n    \"enable_tcp\":true,\n    \"enable_tls\":false,\n    \"enable_ws\":true,\n    \"enable_wss\":false,\n    \"enable_auth\":false,\n    \"enable_offline_callback\":false\n}\n"

-- Its members.
abbrev pub members : List (Bytes × Value)
members =
    (codes "port", int_value (pos 4222))
    ∷ (codes "wsport", int_value (pos 4224))
    ∷ (codes "tlsport", int_value (pos 4333))
    ∷ (codes "wssport", int_value (pos 4334))
    ∷ (codes "rpcport", int_value (pos 4280))
    ∷ (codes "accesstoken", string_value (codes "http-rpc access token"))
    ∷ (codes "nodeid", string_value (codes "n01"))
    ∷ (codes "dbaddr", string_value (codes "localhost:6379"))
    ∷ (codes "dbpool", int_value (pos 100))
    ∷ (codes "callback", string_value [])
    ∷ (codes "nodeaddr", string_value (codes "localhost:4281"))
    ∷ (codes "logfile", string_value (codes "/tmp/sara.log"))
    ∷ (codes "loglevel", int_value (pos 3))
    ∷ (codes "dc", string_value (codes "dc01"))
    ∷ (codes "certfile", string_value (codes "/etc/sara/server.pem"))
    ∷ (codes "keyfile", string_value (codes "/etc/sara/server.key"))
    ∷ (codes "enable_tcp", bool_value true)
    ∷ (codes "enable_tls", bool_value false)
    ∷ (codes "enable_ws", bool_value true)
    ∷ (codes "enable_wss", bool_value false)
    ∷ (codes "enable_auth", bool_value false)
    ∷ (codes "enable_offline_callback", bool_value false)
    ∷ []

-- What gjson finds in a text with this member.
abbrev pub ReadAs : ConfFile → Bytes → Value → Type 0
ReadAs file k (int_value i) = (file.exists k ≡ true) × (file.as_int k ≡ i)
ReadAs file k (string_value s) = (file.exists k ≡ true) × (file.as_string k ≡ s)
ReadAs file k (bool_value b) = (file.exists k ≡ true) × (file.as_bool k ≡ b)

-- Every member is found, with its value.
abbrev pub AreRead : ConfFile → List (Bytes × Value) → Type 0
AreRead file ms = All (λ m. ReadAs file m.0 m.1) ms

pub read_member :
    (file : ConfFile) (ms : List (Bytes × Value)) (k : Bytes) (v : Value)
    → AreRead file ms
    → lookup k ms ≡ some v
    → ReadAs file k v
unfolding lookup
read_member file [] k v h e = absurd (cc)
read_member file ((j, w) ∷ ms) k v (first, rest) e =
    go (bytes_eq j k) refl (read_member file ms k v rest) e
  where
    same : some w ≡ some v → w ≡ v
    same e = cc

    go :
        (b : Bool)
        → bytes_eq j k ≡ b
        → (lookup k ms ≡ some v → ReadAs file k v)
        → (if b then some w else lookup k ms) ≡ some v
        → ReadAs file k v
    go true e rec f =
        subst (λ x. ReadAs file x v) ((bytes_eq_iff j k).0 e) (subst (ReadAs file j) (same f) first)
    go false e rec f = rec f
