-- ===== src/Auth/Requests.antt =====
-- Which requests the service makes, and how many.
use Prim.Native.String.{◌++◌ as str_append}
use iv_cloud_gateway.Base.{
  ℕ, suc, ◌+◌, ◌≡◌, refl, ◌⊎◌, inl, inr, Bool, true, false, not, String, List, some, Result, ok,
  err, arith, ◌==◌, if◌then◌else◌, Option-cases,
}
use iv_cloud_gateway.Base.Effects.{pure, and_then, ◌>>=◌}
use iv_cloud_gateway.Infra.Config.{Config}
use iv_cloud_gateway.Json.{Json, find}
use iv_cloud_gateway.Http.{HttpResponse}
use iv_cloud_gateway.Router.Table.{find-assign}
use iv_cloud_gateway.Auth.{
  Request, AuthService, World, Server, Call, is_empty, login_body, login, bearer, access_token,
  ensure_auth_headers, failed,
}
use iv_cloud_gateway.Base.Log.{Adds, Adds-none, Adds-one, Adds-trans, Adds-weaken}
use iv_cloud_gateway.Auth.Credentials.{save_vehicle_credentials, load_vehicle_credentials}
use iv_cloud_gateway.Auth.Vehicle.{
  created, existing, expired, answered, request_vehicle, vehicle_body, round, create_vehicle,
  last_try, after_login, after_network,
}

module _ (J : Json) (config : Config J.Double) (server : Server J) (disk : Result Bool) where
  open J use {Text}

  abbrev pub Do : Type 0 → Type 0
  Do = Call J config server disk

  -- The request carries a token that is not empty.
  abbrev pub IsAuthorized : List (String × String) → Type 0
  IsAuthorized headers =
      (token : String) × (is_empty token ≡ false)
      × (find "Authorization" headers ≡ some (str_append "Bearer " token))

  -- A login, or an authorized request to register the vehicle.
  abbrev pub IsRegistering : Request Text → Type 0
  IsRegistering r =
      (r.url ≡ str_append config.base_url "/api/auth/login")
      ⊎ ((r.url ≡ str_append config.base_url "/api/vehicles") × IsAuthorized r.headers)

  abbrev pub Sends : (Request Text → Type 0) → ℕ → Do Bool → Type 0
  Sends P n m = (w : World Text) → Adds P n w.requests (m w).0.requests

  pub save-requests :
      (w : World Text) → (save_vehicle_credentials J config server disk w).0.requests ≡ w.requests
  unfolding save_vehicle_credentials
  save-requests w = ground arith

  pub load-requests :
      (w : World Text) → (load_vehicle_credentials J config server disk w).0.requests ≡ w.requests
  unfolding load_vehicle_credentials
  load-requests w = ground arith

  created-requests :
      (body : Text) (w : World Text) → (created J config server disk body w).0.requests ≡ w.requests
  unfolding created
  created-requests body w = ground arith

  existing-requests : (w : World Text) → (existing J config server disk w).0.requests ≡ w.requests
  unfolding existing
  existing-requests w = ground arith

  pub access_token-requests :
      (body : Text) (keep : String → AuthService → AuthService) (w : World Text)
      → (access_token J config server disk body keep w).0.requests ≡ w.requests
  unfolding access_token
  access_token-requests body keep w = ground arith

  -- The request that a call makes with a document that may not be serialised.
  abbrev pub request : String → AuthService → Text → Request Text
  request path a b = record {
    url = str_append config.base_url path;
    headers = a.json_headers;
    body = b;
  }

  pub login-Sends :
      (P : Request Text → Type 0)
      → ((a : AuthService) (b : Text) → P (request "/api/auth/login" a b))
      → Sends P 1 (login J config server disk)
  unfolding login
  login-Sends P p w = elim (Option-cases (J.dump (login_body J config server disk))) [
    | inl failed ↦ Adds-none P 1 _ _ (ground arith)
    | inr (b, dumped) ↦
        Adds-one P 0 w.requests (request "/api/auth/login" w.auth b) _ (p w.auth b)
          (Adds-none P 0 _ _ (ground arith))
  ]

  pub Sends-bind :
      (P : Request Text → Type 0) (m n : ℕ) (a : Do Bool) (f : Bool → Do Bool)
      → Sends P m a
      → ((b : Bool) → Sends P n (f b))
      → Sends P (m + n) (a >>= f)
  Sends-bind P m n a f h k w = go (a w) (h w)
    where
      go :
          (x : World Text × Result Bool)
          → Adds P m w.requests x.0.requests
          → Adds P (m + n) w.requests (and_then x f).0.requests
      go (v, ok b) added = Adds-trans P m n _ _ _ added (k b v)
      go (v, err e) added = Adds-weaken P m (m + n) _ _ (omega arith) added

  pub Sends-if :
      (P : Request Text → Type 0) (n : ℕ) (b : Bool) (x y : Do Bool)
      → Sends P n x
      → Sends P n y
      → Sends P n (if b then x else y)
  Sends-if P n true x y h k = h
  Sends-if P n false x y h k = k

  pub pure-Sends : (P : Request Text → Type 0) (n : ℕ) (b : Bool) → Sends P n (pure b)
  pure-Sends P n b w = Adds-none P n _ _ refl

  expired-Sends :
      (n : ℕ) (again : Do Bool)
      → Sends IsRegistering n again
      → Sends IsRegistering (1 + n) (expired J config server disk false again)
  unfolding expired
  expired-Sends n again h w =
      Sends-bind IsRegistering 1 n (login J config server disk)
        (λ known. if known then again else pure false) (login-Sends IsRegistering (λ a b. inl refl))
        (λ b. Sends-if IsRegistering n b again (pure false) h (pure-Sends IsRegistering n false))
        (record w { auth = record (w.auth) { token = "" } })

  expired_last :
      (n : ℕ) (again : Do Bool) → Sends IsRegistering n (expired J config server disk true again)
  unfolding expired
  expired_last n again w = Adds-none IsRegistering n _ _ refl

  answered-Sends :
      (n : ℕ) (again : Bool → Bool → Do Bool) (l t : Bool) (resp : HttpResponse Text)
      → Sends IsRegistering n (expired J config server disk l (again true false))
      → Sends IsRegistering n (if t then pure false else again l true)
      → Sends IsRegistering n (answered J config server disk again l t resp)
  unfolding answered
  answered-Sends n again l t resp h k =
      Sends-if IsRegistering n (resp.status_code == 201) _ _
        (λ w. Adds-none IsRegistering n _ _ (created-requests resp.body w))
        (Sends-if IsRegistering n (resp.status_code == 409) _ _
          (λ w. Adds-none IsRegistering n _ _ (existing-requests w))
          (Sends-if IsRegistering n (resp.status_code == 401) _ _ h
            (Sends-if IsRegistering n (not resp.success) _ _ k (pure-Sends IsRegistering n false))))

  find-bearer :
      (token : String) (headers : List (String × String))
      → find "Authorization" (bearer token headers) ≡ some (str_append "Bearer " token)
  find-bearer token headers =
      find-assign "Authorization" "Authorization" (str_append "Bearer " token) headers

  pub ensured :
      (w : World Text)
      → is_empty w.auth.token ≡ false
      → ensure_auth_headers J config server disk w ≡ (
        record w {
          auth = record (w.auth) { auth_headers = bearer w.auth.token w.auth.json_headers };
        },
        ok tt,
      )
  unfolding ensure_auth_headers
  ensured w token = ground arith

  request-Sends :
      (n : ℕ) (again : Bool → Bool → Do Bool) (l t : Bool) (w : World Text)
      → Sends IsRegistering n (expired J config server disk l (again true false))
      → Sends IsRegistering n (if t then pure false else again l true)
      → is_empty w.auth.token ≡ false
      → Adds IsRegistering
          (suc n)
          w.requests
          (request_vehicle J config server disk again l t w).0.requests
  unfolding request_vehicle
  request-Sends n again l t w h k token =
      rw (ensured w token) (elim (Option-cases (J.dump (vehicle_body J config server disk))) [
        | inl failed ↦ rw failed (Adds-none IsRegistering (suc n) _ _ refl)
        | inr (b, dumped) ↦
            let headers = bearer w.auth.token w.auth.json_headers in
            let r : Request Text = record {
              url = str_append config.base_url "/api/vehicles";
              headers = headers;
              body = b;
            } in
            rw dumped (
              Adds-one IsRegistering n w.requests r _
                (inr (refl, (w.auth.token, token, find-bearer w.auth.token w.auth.json_headers)))
                (answered-Sends n again l t (server w.requests r) h k _))
      ])

  -- One round: nothing, or one authorized request and what its answer leads to.
  round-Sends :
      (n : ℕ) (again : Bool → Bool → Do Bool) (l t : Bool)
      → Sends IsRegistering n (expired J config server disk l (again true false))
      → Sends IsRegistering n (if t then pure false else again l true)
      → Sends IsRegistering (suc n) (round J config server disk again l t)
  unfolding round
  round-Sends n again l t h k w = guarded w.auth.vehicle_registered (is_empty w.auth.token) refl
    where
      rest : Do Bool
      rest = request_vehicle J config server disk again l t

      guarded :
          (known without : Bool)
          → is_empty w.auth.token ≡ without
          → Adds IsRegistering
              (suc n)
              w.requests
              ((if known then pure true else if without then pure false else rest) w).0.requests
      guarded true without e = Adds-none IsRegistering (suc n) _ _ refl
      guarded false true e = Adds-none IsRegistering (suc n) _ _ refl
      guarded false false e = request-Sends n again l t w h k e

  last_try-Sends : Sends IsRegistering 1 (last_try J config server disk)
  unfolding last_try
  last_try-Sends =
      round-Sends 0 _ true true (expired_last 0 (pure false)) (pure-Sends IsRegistering 0 false)

  after_login-Sends : Sends IsRegistering 2 (after_login J config server disk)
  unfolding after_login
  after_login-Sends =
      round-Sends 1 _ true false (expired_last 1 (last_try J config server disk)) last_try-Sends

  after_network-Sends : Sends IsRegistering 4 (after_network J config server disk)
  unfolding after_network
  after_network-Sends =
      round-Sends 3 _ false true
        (expired-Sends 2 (after_login J config server disk) after_login-Sends)
        (pure-Sends IsRegistering 3 false)

  -- `create_vehicle()` makes at most five requests, whatever the backend answers: it gives up. Each
  -- is a login, or a registration that carries a token which is not empty.
  pub create_vehicle-Sends :
      (w : World Text)
      → Adds IsRegistering 5 w.requests
          (create_vehicle J config server disk false false w).0.requests
  unfolding create_vehicle
  create_vehicle-Sends =
      round-Sends 4 _ false false
        (λ w.
          Adds-weaken IsRegistering 3 4 _ _ (omega arith)
            (expired-Sends 2 (after_login J config server disk) after_login-Sends w))
        after_network-Sends
