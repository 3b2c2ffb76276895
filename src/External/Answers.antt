-- ===== src/External/Answers.antt =====
-- When the callback service lets a client in, and which members it names.
use sara.Common.{
  ℕ, ◌≡◌, ◌↔◌, refl, Bool, true, false, [], ◌∷◌, Option, none, some, Bytes, codes, Result, ok, err,
  Outcome, ret, panic,
}
use sara.Config.{Conf, get_bool, get_string}
use sara.External.{
  post, Web, Params, answered, ask_with, if_enabled, new_params, auth, ask_auth, accepted,
}

-- The ways in which `Auth` accepts a client.
pub data Accepts (web : Web) (conf : Conf) (uid pwd : Bytes) (call : ℕ) : Type 0 where
  disabled : get_bool (codes "enable_auth") true conf ≡ ret false → Accepts web conf uid pwd call
  no_service :
      get_bool (codes "enable_auth") true conf ≡ ret true
      → get_string (codes "callback") [] conf ≡ ret []
      → Accepts web conf uid pwd call
  granted :
      (c : ℕ) (url body text : Bytes)
      → get_bool (codes "enable_auth") true conf ≡ ret true
      → get_string (codes "callback") [] conf ≡ ret (c ∷ url)
      → web.marshal_params (
          new_params web
            (codes "emsg_auth")
            (codes "auth")
            (codes "uid" ∷ uid ∷ codes "token" ∷ pwd ∷ [])
            call)
        ≡ ok body
      → post web (c ∷ url) body call ≡ ret (ok text)
      → web.success text ≡ (true, none)
      → Accepts web conf uid pwd call

module _ (web : Web) (conf : Conf) (uid pwd : Bytes) (call : ℕ) where
  Accepts-auth : Accepts web conf uid pwd call → auth web conf uid pwd call ≡ ret true
  unfolding auth ask_auth
  Accepts-auth (disabled e) = rw e refl
  Accepts-auth (no_service e f) = rw (e, f) refl
  Accepts-auth (granted c url body text e f m p s) = rw (e, f, m, p, s) refl

  auth-Accepts : auth web conf uid pwd call ≡ ret true → Accepts web conf uid pwd call
  unfolding auth ask_auth
  auth-Accepts =
      enabled (get_bool (codes "enable_auth") true conf) (get_string (codes "callback") [] conf)
        refl refl
    where
      params : Params
      params =
          new_params web (codes "emsg_auth") (codes "auth")
            (codes "uid" ∷ uid ∷ codes "token" ∷ pwd ∷ []) call

      decoded :
          (c : ℕ) (url body text : Bytes)
          → get_bool (codes "enable_auth") true conf ≡ ret true
          → get_string (codes "callback") [] conf ≡ ret (c ∷ url)
          → web.marshal_params params ≡ ok body
          → post web (c ∷ url) body call ≡ ret (ok text)
          → (d : Bool × Option Bytes) → web.success text ≡ d
          → ret (accepted web d) ≡ ret true
          → Accepts web conf uid pwd call
      decoded c url body text e f m p (true, none) s h = granted c url body text e f m p s
      decoded c url body text e f m p (false, none) s h = absurd (cc)
      decoded c url body text e f m p (flag, some x) s h = absurd (cc)

      posted :
          (c : ℕ) (url body : Bytes)
          → get_bool (codes "enable_auth") true conf ≡ ret true
          → get_string (codes "callback") [] conf ≡ ret (c ∷ url)
          → web.marshal_params params ≡ ok body
          → (o : Outcome (Result Bytes)) → post web (c ∷ url) body call ≡ o
          → answered web o ≡ ret true
          → Accepts web conf uid pwd call
      posted c url body e f m panic p h = absurd (cc)
      posted c url body e f m (ret (err x)) p h = absurd (cc)
      posted c url body e f m (ret (ok text)) p h =
          decoded c url body text e f m p (web.success text) refl h

      encoded :
          (c : ℕ) (url : Bytes)
          → get_bool (codes "enable_auth") true conf ≡ ret true
          → get_string (codes "callback") [] conf ≡ ret (c ∷ url)
          → (o : Result Bytes) → web.marshal_params params ≡ o
          → ask_with web (c ∷ url) call o ≡ ret true
          → Accepts web conf uid pwd call
      encoded c url e f (err x) m h = absurd (cc)
      encoded c url e f (ok body) m h =
          posted c url body e f m (post web (c ∷ url) body call) refl h

      enabled :
          (o : Outcome Bool) (u : Outcome Bytes)
          → get_bool (codes "enable_auth") true conf ≡ o
          → get_string (codes "callback") [] conf ≡ u
          → if_enabled web (λ url. ask_auth web url uid pwd call) o u ≡ ret true
          → Accepts web conf uid pwd call
      enabled (ret false) u e f h = disabled e
      enabled (ret true) (ret []) e f h = no_service e f
      enabled (ret true) (ret (c ∷ url)) e f h =
          encoded c url e f (web.marshal_params params) refl h
      enabled (ret true) panic e f h = absurd (cc)
      enabled panic u e f h = absurd (cc)

  -- `Auth` lets a client in exactly if the check is switched off, or no service is named, or the
  -- service answers the request, that the client's name and token were put into, with a success; so no
  -- failure on the way, of the encoder, the connection or the decoder, lets a client in.
  pub auth_iff : (auth web conf uid pwd call ≡ ret true) ↔ Accepts web conf uid pwd call
  auth_iff = (auth-Accepts, Accepts-auth)
