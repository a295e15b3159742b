-- ===== src/Auth/Vehicle.antt =====
-- src/services/auth_services.cc: registration and login of the vehicle.
use iv_cloud_gateway.Base.{
  ap, ◌≡◌, refl, Bool, true, false, not, ◌||◌, [], ◌∷◌, Result, ◌==◌, if◌then◌else◌,
}
use iv_cloud_gateway.Base.Effects.{pure, catching, ◌>>=◌, ◌>>◌}
use iv_cloud_gateway.Infra.Config.{Config}
use iv_cloud_gateway.Json.{Json}
use iv_cloud_gateway.Http.{HttpResponse}
use iv_cloud_gateway.Auth.{
  AuthService, Server, Call, is_empty, with_auth, field, dumped, document, at, text_at, failed,
  post, access_token, login, ensure_auth_headers,
}
use iv_cloud_gateway.Auth.Credentials.{save_vehicle_credentials, load_vehicle_credentials}

module _ (J : Json) (config : Config J.Double) (server : Server J) (disk : Result Bool) where
  open J use {Text, Value, string, int64, object}

  abbrev Do : Type 0 → Type 0
  Do = Call J config server disk

  abbrev register : Do (Unit {0})
  register = with_auth J config server disk λ a. record a { vehicle_registered = true }

  -- Status 201.
  unfoldable pub created : Text → Do Bool
  unfolding save_vehicle_credentials
  created body = do
    register
    catching
        (do
          j ← document J config server disk body
          keyed ← at J config server disk j "data"
          key ← text_at J config server disk keyed "apiKey"
          with_auth J config server disk λ a. record a { vehicle_api_key = key }
          keyed' ← at J config server disk j "data"
          secret ← text_at J config server disk keyed' "apiSecret"
          with_auth J config server disk λ a. record a { vehicle_api_secret = secret }
          saved ← save_vehicle_credentials J config server disk
          pure true)
        (pure false)

  -- Status 409.
  unfoldable pub existing : Do Bool
  unfolding load_vehicle_credentials
  existing = do
    loaded ← load_vehicle_credentials J config server disk
    if loaded then (do register; pure true) else pure false

  -- Status 401: `again` is `create_vehicle(true)`.
  unfoldable pub expired : Bool → Do Bool → Do Bool
  unfolding login
  expired retried again = if retried then pure false else (do
    with_auth J config server disk λ a. record a { token = "" }
    known ← login J config server disk
    if known then again else pure false)

  -- What `create_vehicle` makes of an answer.
  unfoldable pub answered : (Bool → Bool → Do Bool) → Bool → Bool → HttpResponse Text → Do Bool
  unfolding created existing expired
  answered again retry_after_login retry_after_network resp =
      if resp.status_code == 201
      then created resp.body
      else if resp.status_code == 409
      then existing
      else if resp.status_code == 401
      then expired retry_after_login (again true false)
      else if not resp.success
      then (if retry_after_network then pure false else again retry_after_login true)
      else pure false

  abbrev pub vehicle_body : Value
  vehicle_body = object (
      ("vinNumber", string config.vin_number)
      ∷ ("plateNo", string config.plate_no)
      ∷ ("color", string config.color)
      ∷ ("carCompany", string config.car_company)
      ∷ ("model", string config.model)
      ∷ ("seats", int64 config.seat_no)
      ∷ [])

  -- The request of `create_vehicle`, and what follows from its answer.
  unfoldable pub request_vehicle : (Bool → Bool → Do Bool) → Bool → Bool → Do Bool
  unfolding answered
  request_vehicle again retry_after_login retry_after_network = do
    ensure_auth_headers J config server disk
    headers ← field J config server disk λ a. a.auth_headers
    body ← dumped J config server disk vehicle_body
    resp ← post J config server disk "/api/vehicles" headers body
    answered again retry_after_login retry_after_network resp

  -- The body of `create_vehicle`, with its own calls as a parameter.
  unfoldable pub round : (Bool → Bool → Do Bool) → Bool → Bool → Do Bool
  round again retry_after_login retry_after_network = do
    a ← field J config server disk λ a. a
    if a.vehicle_registered
        then pure true
        else if is_empty a.token
        then pure false
        else request_vehicle again retry_after_login retry_after_network

  -- A retry sets a flag that is not reset but by the re-login, and that happens once: the calls of
  -- each depth need only those below.
  unfoldable pub last_try : Do Bool
  last_try = round (λ _ _. pure false) true true

  unfoldable pub after_login : Do Bool
  after_login = round (λ _ _. last_try) true false

  unfoldable pub after_network : Do Bool
  after_network = round (λ _ _. after_login) false true

  unfoldable pub create_vehicle : Bool → Bool → Do Bool
  create_vehicle true true = last_try
  create_vehicle true false = after_login
  create_vehicle false true = after_network
  create_vehicle false false = round (λ l n. if l then after_login else after_network) false false

  -- The key and the secret, from the file if they are not there.
  abbrev pub available : AuthService → Do Bool
  available a =
      if is_empty a.vehicle_api_key || is_empty a.vehicle_api_secret
      then load_vehicle_credentials J config server disk
      else pure true

  abbrev pub vehicle_login_body : AuthService → Value
  vehicle_login_body a =
      object
        (("apiKey", string a.vehicle_api_key) ∷ ("apiSecret", string a.vehicle_api_secret) ∷ [])

  -- What `vechile_login` makes of an answer.
  unfoldable pub logged_in : HttpResponse Text → Do Bool
  unfolding save_vehicle_credentials access_token
  logged_in resp = if failed J config server disk resp then pure false else (do
    said ← access_token J config server disk resp.body λ t a. record a { vehicle_access_token = t }
    if not said then pure false else (do
      saved ← save_vehicle_credentials J config server disk
      with_auth J config server disk λ a. record a { vehicle_authenticated = true }
      pure true))

  -- The `try` block.
  unfoldable pub request_login : Do Bool
  unfolding logged_in
  request_login = do
    a ← field J config server disk λ a. a
    body ← dumped J config server disk (vehicle_login_body a)
    resp ← post J config server disk "/api/auth/vehicle/login" a.json_headers body
    logged_in resp

  abbrev pub once_available : Bool → Do Bool
  unfolding request_login
  once_available known = if not known then pure false else catching request_login (pure false)

  unfoldable pub vehicle_login : Do Bool
  unfolding load_vehicle_credentials request_login
  vehicle_login = do
    a ← field J config server disk λ a. a
    if a.vehicle_authenticated then pure true else available a >>= once_available

  -- What the body uses of its own calls.
  round_last : (f g : Bool → Bool → Do Bool) → round f true true ≡ round g true true
  unfolding round request_vehicle
  round_last f g = refl

  round_login :
      (f g : Bool → Bool → Do Bool)
      → f true true ≡ g true true
      → round f true false ≡ round g true false
  unfolding round request_vehicle
  round_login f g e = ap (λ (m : Do Bool). round (λ _ _. m) true false) e

  round_network :
      (f g : Bool → Bool → Do Bool)
      → f true false ≡ g true false
      → round f false true ≡ round g false true
  unfolding round request_vehicle
  round_network f g e = ap (λ (m : Do Bool). round (λ _ _. m) false true) e

  round_first :
      (f g : Bool → Bool → Do Bool)
      → f true false ≡ g true false
      → f false true ≡ g false true
      → round f false false ≡ round g false false
  unfolding round request_vehicle
  round_first f g e e' = λ i. round (λ l n. if l then e i else e' i) false false

  -- `create_vehicle` is the recursion that the source states, on all four settings of its flags.
  pub create_vehicle_lem : (l n : Bool) → create_vehicle l n ≡ round create_vehicle l n
  unfolding create_vehicle last_try after_login after_network
  create_vehicle_lem true true = round_last _ create_vehicle
  create_vehicle_lem true false = round_login _ create_vehicle refl
  create_vehicle_lem false true = round_network _ create_vehicle refl
  create_vehicle_lem false false = round_first _ create_vehicle refl refl
