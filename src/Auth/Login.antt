-- ===== src/Auth/Login.antt =====
-- `AuthService::vechile_login`: the requests and the answer.
use iv_cloud_gateway.Base.{
  ◌≡◌, refl, inl, inr, [], ◌∷◌, ◌++◌, Bool, true, false, not, Result, ok, arith, Option-cases,
}
use iv_cloud_gateway.Base.Effects.{pure, catching, ◌>>=◌}
use iv_cloud_gateway.Infra.Config.{Config}
use iv_cloud_gateway.Json.{Json}
use iv_cloud_gateway.Http.{HttpResponse}
use iv_cloud_gateway.Auth.{Request, AuthService, World, Server}
use iv_cloud_gateway.Base.Log.{Adds-none, Adds-one}
use iv_cloud_gateway.Auth.Vehicle.{
  logged_in, request_login, vehicle_login_body, available, once_available, vehicle_login,
}
use iv_cloud_gateway.Auth.Requests.{Do, Sends, Sends-bind, Sends-if, request, load-requests}

module _ (J : Json) (config : Config J.Double) (server : Server J) (disk : Result Bool) where
  open J use {Text}

  logged_in-requests :
      (resp : HttpResponse Text) (w : World Text)
      → (logged_in J config server disk resp w).0.requests ≡ w.requests
  unfolding logged_in
  logged_in-requests resp w = ground arith

  -- When `vechile_login` returns true the vehicle counts as authenticated.
  pub vehicle_login-IsAuthenticated :
      (w : World Text)
      → (vehicle_login J config server disk w).1 ≡ ok true
      → (vehicle_login J config server disk w).0.auth.vehicle_authenticated ≡ true
  unfolding vehicle_login request_login logged_in
  vehicle_login-IsAuthenticated w e = ground arith

  caught-requests :
      (resp : HttpResponse Text) (w : World Text)
      → (catching (logged_in J config server disk resp) (pure false) w).0.requests ≡ w.requests
  caught-requests resp w = ground (arith, logged_in-requests resp w)

  abbrev try_login : Do J config server disk Bool
  unfolding request_login
  try_login = once_available J config server disk true

  request_login-Sends :
      (P : Request Text → Type 0)
      → ((a : AuthService) (b : Text)
          → P (request J config server disk "/api/auth/vehicle/login" a b))
      → Sends J config server disk P 1 try_login
  unfolding request_login
  request_login-Sends P p w =
      elim (Option-cases (J.dump (vehicle_login_body J config server disk w.auth))) [
        | inl bad ↦ Adds-none P 1 _ _ (ground arith)
        | inr (b, dumped) ↦
            Adds-one P 0 w.requests
              (request J config server disk "/api/auth/vehicle/login" w.auth b) _ (p w.auth b)
              (Adds-none P 0 _ _ (
                rw dumped (
                  caught-requests
                    (server w.requests
                      (request J config server disk "/api/auth/vehicle/login" w.auth b))
                    (record w {
                      requests =
                          w.requests
                          ++ request J config server disk "/api/auth/vehicle/login" w.auth b ∷ [];
                    }))))
      ]

  available-requests :
      (a : AuthService) (w : World Text)
      → (available J config server disk a w).0.requests ≡ w.requests
  available-requests a w = ground (arith, load-requests J config server disk w)

  -- `vechile_login` makes at most one request.
  pub vehicle_login-Sends :
      (P : Request Text → Type 0)
      → ((a : AuthService) (b : Text)
          → P (request J config server disk "/api/auth/vehicle/login" a b))
      → Sends J config server disk P 1 (vehicle_login J config server disk)
  unfolding vehicle_login request_login
  vehicle_login-Sends P p w =
      Sends-if J config server disk P 1 w.auth.vehicle_authenticated (pure true)
        (available J config server disk w.auth >>= once_available J config server disk)
        (λ v. Adds-none P 1 _ _ refl)
        (Sends-bind J config server disk P 0 1 (available J config server disk w.auth)
          (once_available J config server disk)
          (λ v. Adds-none P 0 _ _ (available-requests w.auth v))
          λ known.
            Sends-if J config server disk P 1 (not known) (pure false) try_login
              (λ v. Adds-none P 1 _ _ refl) (request_login-Sends P p))
        w
