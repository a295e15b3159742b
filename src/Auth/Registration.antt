-- ===== src/Auth/Registration.antt =====
-- What the answers of `create_vehicle` and `vechile_login` mean.
use Prim.Native.String.{◌++◌ as str_append}
use iv_cloud_gateway.Base.{
  ◌≡◌, refl, ◌∙◌, ap, Bool, true, false, not, none, some, Result, ok, err, arith, ◌==◌,
  if◌then◌else◌, Option-cases, inl, inr,
}
use iv_cloud_gateway.Base.Effects.{pure, and_then, ◌>>=◌}
use iv_cloud_gateway.Infra.Config.{Config}
use iv_cloud_gateway.Json.{Json}
use iv_cloud_gateway.Http.{HttpResponse}
use iv_cloud_gateway.Auth.{Request, AuthService, World, Server, is_empty, bearer, login}
use iv_cloud_gateway.Auth.Vehicle.{
  created, existing, expired, answered, vehicle_body, request_vehicle, round, last_try, after_login,
  after_network, create_vehicle, create_vehicle_lem,
}
use iv_cloud_gateway.Auth.Requests.{Do, ensured}

module _ (J : Json) (config : Config J.Double) (server : Server J) (disk : Result Bool) where
  open J use {Text}

  -- The request by which a service with a token registers the vehicle.
  abbrev pub registration : AuthService → Text → Request Text
  registration a b = record {
    url = str_append config.base_url "/api/vehicles";
    headers = bearer a.token a.json_headers;
    body = b;
  }

  created_garbled :
      (body : Text) (w : World Text)
      → J.parse body ≡ none
      → created J config server disk body w
        ≡ (record w { auth = record (w.auth) { vehicle_registered = true } }, ok false)
  unfolding created
  created_garbled body w e = ground arith

  round_registered :
      (again : Bool → Bool → Do J config server disk Bool) (l n : Bool) (w : World Text)
      → w.auth.vehicle_registered ≡ true
      → round J config server disk again l n w ≡ (w, ok true)
  unfolding round
  round_registered again l n w e = ground arith

  -- A vehicle that counts as registered is not registered again.
  pub registered_already :
      (l n : Bool) (w : World Text)
      → w.auth.vehicle_registered ≡ true
      → create_vehicle J config server disk l n w ≡ (w, ok true)
  registered_already l n w e =
      ap (λ m. m w) (create_vehicle_lem J config server disk l n)
      ∙ round_registered (create_vehicle J config server disk) l n w e

  answered_201 :
      (again : Bool → Bool → Do J config server disk Bool) (l n : Bool) (resp : HttpResponse Text)
      → resp.status_code ≡ 201
      → answered J config server disk again l n resp ≡ created J config server disk resp.body
  unfolding answered
  answered_201 again l n resp e = ground arith

  request_201 :
      (again : Bool → Bool → Do J config server disk Bool) (l n : Bool) (w : World Text) (b : Text)
      → is_empty w.auth.token ≡ false
      → J.dump (vehicle_body J config server disk) ≡ some b
      → (server w.requests (registration w.auth b)).status_code ≡ 201
      → J.parse (server w.requests (registration w.auth b)).body ≡ none
      → (request_vehicle J config server disk again l n w).1 ≡ ok false
        × (request_vehicle J config server disk again l n w).0.auth.vehicle_registered ≡ true
  unfolding request_vehicle
  request_201 again l n w b token dumped status garbled =
      let r = registration w.auth b in
      rw
        (
          ensured J config server disk w token,
          dumped,
          answered_201 again l n (server w.requests r) status,
          created_garbled (server w.requests r).body _ garbled,
        )
        (refl, refl)

  round_request :
      (again : Bool → Bool → Do J config server disk Bool) (l n : Bool) (w : World Text)
      → w.auth.vehicle_registered ≡ false
      → is_empty w.auth.token ≡ false
      → round J config server disk again l n w ≡ request_vehicle J config server disk again l n w
  unfolding round
  round_request again l n w e e' = ground arith

  -- The vehicle is not registered, a token is there, the document of the vehicle can be
  -- serialised, and the backend answers the request with status 201 and a body that is no
  -- document. Then `create_vehicle()` returns false, and called again it returns true at once,
  -- without a request or any other change.
  pub garbled_registration :
      (w : World Text) (b : Text)
      → w.auth.vehicle_registered ≡ false
      → is_empty w.auth.token ≡ false
      → J.dump (vehicle_body J config server disk) ≡ some b
      → (server w.requests (registration w.auth b)).status_code ≡ 201
      → J.parse (server w.requests (registration w.auth b)).body ≡ none
      → let (w', r) = create_vehicle J config server disk false false w in
        (r ≡ ok false) × (create_vehicle J config server disk false false w' ≡ (w', ok true))
  garbled_registration w b new token dumped status garbled =
      let again = create_vehicle J config server disk in
      let first =
        ap (λ m. m w) (create_vehicle_lem J config server disk false false)
        ∙ round_request again false false w new token in
      let (failed, registered) = request_201 again false false w b token dumped status garbled in
      (
        ap (λ x. x.1) first ∙ failed,
        registered_already false false _ (ap (λ x. x.0.auth.vehicle_registered) first ∙ registered),
      )

  abbrev Registers : Do J config server disk Bool → Type 0
  Registers m = (w : World Text) → (m w).1 ≡ ok true → (m w).0.auth.vehicle_registered ≡ true

  Registers-if :
      (b : Bool) (x y : Do J config server disk Bool)
      → Registers x
      → Registers y
      → Registers (if b then x else y)
  Registers-if true x y h k = h
  Registers-if false x y h k = k

  Registers-bind :
      {A : Type 0} (a : Do J config server disk A) (f : A → Do J config server disk Bool)
      → ((x : A) → Registers (f x))
      → Registers (a >>= f)
  Registers-bind {A} a f h w = go (a w)
    where
      go :
          (x : World Text × Result A)
          → (and_then x f).1 ≡ ok true
          → (and_then x f).0.auth.vehicle_registered ≡ true
      go (v, ok b) e = h b v e
      go (v, err p) e = cc

  created-Registers : (body : Text) → Registers (created J config server disk body)
  unfolding created
  created-Registers body w e = ground arith

  existing-Registers : Registers (existing J config server disk)
  unfolding existing
  existing-Registers w e = ground arith

  fails-Registers : Registers (pure false)
  fails-Registers w e = cc

  expired-Registers :
      (l : Bool) (again : Do J config server disk Bool)
      → Registers again
      → Registers (expired J config server disk l again)
  unfolding expired
  expired-Registers true again h w = fails-Registers w
  expired-Registers false again h w =
      Registers-bind (login J config server disk) (λ known. if known then again else pure false)
        (λ known. Registers-if known again (pure false) h fails-Registers)
        (record w { auth = record (w.auth) { token = "" } })

  answered-Registers :
      (again : Bool → Bool → Do J config server disk Bool) (l n : Bool) (resp : HttpResponse Text)
      → Registers (again true false)
      → Registers (if n then pure false else again l true)
      → Registers (answered J config server disk again l n resp)
  unfolding answered
  answered-Registers again l n resp h k =
      Registers-if (resp.status_code == 201) _ _ (created-Registers resp.body) (
        Registers-if (resp.status_code == 409) _ _ existing-Registers (
          Registers-if (resp.status_code == 401) _ _ (expired-Registers l (again true false) h)
            (Registers-if (not resp.success) _ _ k fails-Registers)))

  request-Registers :
      (again : Bool → Bool → Do J config server disk Bool) (l n : Bool) (w : World Text)
      → Registers (again true false)
      → Registers (if n then pure false else again l true)
      → is_empty w.auth.token ≡ false
      → (request_vehicle J config server disk again l n w).1 ≡ ok true
      → (request_vehicle J config server disk again l n w).0.auth.vehicle_registered ≡ true
  unfolding request_vehicle
  request-Registers again l n w h k token =
      rw (ensured J config server disk w token)
        (elim (Option-cases (J.dump (vehicle_body J config server disk))) [
          | inl failed ↦ rw failed (λ e. cc)
          | inr (b, dumped) ↦
              rw dumped
                (answered-Registers again l n (server w.requests (registration w.auth b)) h k _)
        ])

  round-Registers :
      (again : Bool → Bool → Do J config server disk Bool) (l n : Bool)
      → Registers (again true false)
      → Registers (if n then pure false else again l true)
      → Registers (round J config server disk again l n)
  unfolding round
  round-Registers again l n h k w =
      guarded w.auth.vehicle_registered (is_empty w.auth.token) refl refl
    where
      rest : Do J config server disk Bool
      rest = request_vehicle J config server disk again l n

      guarded :
          (known without : Bool)
          → w.auth.vehicle_registered ≡ known
          → is_empty w.auth.token ≡ without
          → ((if known then pure true else if without then pure false else rest) w).1 ≡ ok true
          → ((if known then pure true else if without then pure false else rest)
              w).0.auth.vehicle_registered
            ≡ true
      guarded true without e t e' = e
      guarded false true e t e' = cc
      guarded false false e t e' = request-Registers again l n w h k t e'

  last_try-Registers : Registers (last_try J config server disk)
  unfolding last_try
  last_try-Registers = round-Registers _ true true fails-Registers fails-Registers

  after_login-Registers : Registers (after_login J config server disk)
  unfolding after_login
  after_login-Registers = round-Registers _ true false last_try-Registers last_try-Registers

  after_network-Registers : Registers (after_network J config server disk)
  unfolding after_network
  after_network-Registers = round-Registers _ false true after_login-Registers fails-Registers

  -- When `create_vehicle()` returns true, the vehicle counts as registered, whichever answers and
  -- retries led there.
  pub create_vehicle-Registers :
      (w : World Text)
      → (create_vehicle J config server disk false false w).1 ≡ ok true
      → (create_vehicle J config server disk false false w).0.auth.vehicle_registered ≡ true
  unfolding create_vehicle
  create_vehicle-Registers =
      round-Registers _ false false after_login-Registers after_network-Registers
