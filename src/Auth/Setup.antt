-- ===== src/Auth/Setup.antt =====
-- `AuthService::setup`: how the gateway's own account is reached.
use Prim.Native.String.{◌++◌ as str_append}
use iv_cloud_gateway.Base.{
  ℕ, ◌+◌, ◌≡◌, refl, ◌⊎◌, inl, inr, Bool, true, false, not, Result, arith, Option-cases,
  if◌then◌else◌,
}
use iv_cloud_gateway.Base.Effects.{pure, ◌>>=◌}
use iv_cloud_gateway.Infra.Config.{Config}
use iv_cloud_gateway.Json.{Json}
use iv_cloud_gateway.Auth.{
  Request, World, Server, is_empty, login, signup_body, signup, verify_body, verify_code,
  once_verified, once_signed, once_tried, setup,
}
use iv_cloud_gateway.Base.Log.{Adds, Adds-none, Adds-one}
use iv_cloud_gateway.Auth.Requests.{
  Do, Sends, request, login-Sends, Sends-bind, Sends-if, pure-Sends,
}

module _ (J : Json) (config : Config J.Double) (server : Server J) (disk : Result Bool) where
  open J use {Text}

  -- A request of `setup`.
  abbrev pub IsSetup : Request Text → Type 0
  IsSetup r =
      (r.url ≡ str_append config.base_url "/api/auth/login")
      ⊎ ((r.url ≡ str_append config.base_url "/api/auth/admin/signup")
          ⊎ (r.url ≡ str_append config.base_url "/api/auth/verify-code"))

  login-IsSetup : Sends J config server disk IsSetup 1 (login J config server disk)
  login-IsSetup = login-Sends J config server disk IsSetup λ a b. inl refl

  signup-IsSetup : Sends J config server disk IsSetup 1 (signup J config server disk)
  unfolding signup
  signup-IsSetup w = elim (Option-cases (J.dump (signup_body J config server disk))) [
    | inl failed ↦ Adds-none IsSetup 1 _ _ (ground arith)
    | inr (b, dumped) ↦
        Adds-one IsSetup 0 w.requests
          (request J config server disk "/api/auth/admin/signup" w.auth b) _ (inr (inl refl))
          (Adds-none IsSetup 0 _ _ (ground arith))
  ]

  verify_code-IsSetup : Sends J config server disk IsSetup 1 (verify_code J config server disk)
  unfolding verify_code
  verify_code-IsSetup w = elim (Option-cases (J.dump (verify_body J config server disk))) [
    | inl failed ↦ Adds-none IsSetup 1 _ _ (ground arith)
    | inr (b, dumped) ↦
        Adds-one IsSetup 0 w.requests
          (request J config server disk "/api/auth/verify-code" w.auth b) _ (inr (inr refl))
          (Adds-none IsSetup 0 _ _ (ground arith))
  ]

  abbrev Few : ℕ → Do J config server disk Bool → Type 0
  Few = Sends J config server disk IsSetup

  by_test :
      (n : ℕ) (b : Bool) (x y : Do J config server disk Bool)
      → Few n x
      → Few n y
      → Few n (if b then x else y)
  by_test = Sends-if J config server disk IsSetup

  stop : (n : ℕ) (b : Bool) → Few n (pure b)
  stop = pure-Sends J config server disk IsSetup

  next :
      (n : ℕ) (a : Do J config server disk Bool) (f : Bool → Do J config server disk Bool)
      → Few 1 a
      → ((b : Bool) → Few n (f b))
      → Few (1 + n) (a >>= f)
  next n = Sends-bind J config server disk IsSetup 1 n

  abbrev log_in : Do J config server disk Bool
  log_in = login J config server disk

  abbrev sign_up : Do J config server disk Bool
  sign_up = signup J config server disk

  abbrev verify : Do J config server disk Bool
  verify = verify_code J config server disk

  abbrev verified_up : Bool → Do J config server disk Bool
  verified_up = once_verified J config server disk

  abbrev signed_up : Bool → Do J config server disk Bool
  signed_up = once_signed J config server disk

  abbrev tried : Bool → Do J config server disk Bool
  tried = once_tried J config server disk

  -- `setup` makes at most four requests, and only logins, sign-ups and verifications.
  pub setup-Sends :
      (w : World Text) → Adds IsSetup 4 w.requests (setup J config server disk w).0.requests
  unfolding setup
  setup-Sends w =
      by_test 4 (not (is_empty w.auth.token)) (pure true) (log_in >>= tried) (stop 4 true)
        (next 3 log_in tried login-IsSetup λ known.
          by_test 3 known (pure true) (sign_up >>= signed_up) (stop 3 true) (
            next 2 sign_up signed_up signup-IsSetup λ signed.
              by_test 2 (not signed) (pure false) (verify >>= verified_up) (stop 2 false) (
                next 1 verify verified_up verify_code-IsSetup λ verified.
                  by_test 1 (not verified) (pure false) log_in (stop 1 false) login-IsSetup)))
        w
