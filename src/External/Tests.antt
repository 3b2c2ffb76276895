-- ===== src/External/Tests.antt =====
-- The theorem on the callback service, at a service that answers every request with its body.
use sara.Common.{◌≡◌, ◌↔◌, true, [], ◌∷◌, none, codes, ok, ret}
use sara.Config.{Conf, new_conf_vo_key_val, string_value}
use sara.External.{Web, auth}
use sara.External.Answers.{Accepts, auth_iff}

abbrev pub web : Web
web = record {
  uuid = λ n. n ∷ [];
  marshal_params = λ p. ok p.method;
  http = record {
    encode = λ vals. codes "{}";
    valid = λ url. true;
    send = λ url body n. ok (ok body);
  };
  success = λ text. (true, none);
  users = λ text. [];
  entity = λ text. [];
}

abbrev pub conf : Conf
conf =
    (codes "callback", new_conf_vo_key_val (codes "callback") (string_value (codes "http://s/")))
    ∷ []

auth_iff_example :
    (auth web conf (codes "ann") (codes "token") 0 ≡ ret true)
    ↔ Accepts web conf (codes "ann") (codes "token") 0
auth_iff_example = auth_iff web conf (codes "ann") (codes "token") 0
