-- ===== src/Jid.antt =====
-- core/types/packet.go, the type `JID`: user@domain/resource. A call on a nil `*JID` panics; the
-- callers that drop the error of `NewJID` go through `deref`.
pub mod Parse
pub mod Keys
mod Tests
use sara.Common.{
  ◌<◌, ◌≡◌, Bool, true, false, List, [], ◌∷◌, ◌++◌, if◌then◌else◌, Bytes, codes, split, bytes_eq,
  is_empty, Result, ok, err,
}

pub record Jid : Type 0 where
  pub user : Bytes
  pub domain : Bytes
  pub resource : Bytes

abbrev pub session_prefix : Bytes
session_prefix = codes "session_"

abbrev pub offline_prefix : Bytes
offline_prefix = codes "offline_"

abbrev pub fail_format : Bytes
fail_format = codes "fail format of jid :"

-- The pieces of the text behind the first `@`: the resource counts only if there is one `/`.
unfoldable pub domain_resource : Bytes → List Bytes → Jid
domain_resource user [] = record { user = user; domain = []; resource = [] }
domain_resource user (domain ∷ resource ∷ []) = record {
  user = user;
  domain = domain;
  resource = resource;
}
domain_resource user (domain ∷ rest) = record { user = user; domain = domain; resource = [] }

unfoldable pub from_pieces : Bytes → List Bytes → Result Jid
unfolding domain_resource
from_pieces str (user ∷ address ∷ rest) = ok (domain_resource user (split b'/' address))
from_pieces str pieces = err (fail_format ++ str)

unfoldable pub new_jid : Bytes → Result Jid
unfolding from_pieces
new_jid str = from_pieces str (split b'@' str)

unfoldable pub string_without_resource : Jid → Bytes
string_without_resource j = j.user ++ b'@' ∷ j.domain

unfoldable pub string : Jid → Bytes
unfolding string_without_resource
string j =
    if is_empty j.resource
    then string_without_resource j
    else j.user ++ b'@' ∷ (j.domain ++ b'/' ∷ j.resource)

unfoldable pub new_jid_by_uid_domain : Bytes → Bytes → Result Jid
unfolding new_jid
new_jid_by_uid_domain uid domain = new_jid (uid ++ b'@' ∷ domain)

unfoldable pub to_sessionid : Jid → Bytes
unfolding string_without_resource
to_sessionid j = session_prefix ++ string_without_resource j

unfoldable pub to_offline_key : Jid → Bytes
unfolding string_without_resource
to_offline_key j = offline_prefix ++ string_without_resource j

unfoldable pub equal : Jid → Bytes → Bool
unfolding string
equal j text = bytes_eq (string j) text

unfoldable pub get_user : Jid → Bytes
get_user j = j.user

unfoldable pub get_domain : Jid → Bytes
get_domain j = j.domain

unfoldable pub get_resource : Jid → Bytes
get_resource j = j.resource
