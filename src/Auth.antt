-- ===== src/Auth.antt =====
-- src/services/auth_services.h and .cc: the gateway's accounts at the backend.
--
-- `server` stands for `HttpClient::Post` and the backend behind it: the answer to a request, given
-- the requests before it, oldest first. `disk` says how opening the credentials file for writing
-- ends: it opens, it does not, or `create_directories` throws.
pub mod Credentials
pub mod Vehicle
pub mod Requests
pub mod Setup
pub mod Restart
pub mod Registration
pub mod Client
pub mod Login
mod Tests
use Prim.Native.String.{◌++◌ as str_append}
use iv_cloud_gateway.Base.{
  ℕ, Bool, true, false, not, ◌||◌, String, List, [], ◌∷◌, ◌++◌, Option, none, some, Result, ok, err,
  str_eq, ◌==◌, if◌then◌else◌,
}
use iv_cloud_gateway.Base.Effects.{Act, pure, lift, modify, reads, catching, ◌>>=◌, ◌>>◌}
use iv_cloud_gateway.Infra.Config.{Config}
use iv_cloud_gateway.Json.{Json, or_throw, parsed, at_string}
use iv_cloud_gateway.Http.{HttpResponse}
use iv_cloud_gateway.Router.{assign}

abbrev pub is_empty : String → Bool
is_empty s = str_eq s ""

pub record Request (T : Type 0) : Type 0 where
  pub url : String
  pub headers : List (String × String)
  pub body : T

pub record AuthService : Type 0 where
  pub token : String
  pub vehicle_registered : Bool
  pub vehicle_api_key : String
  pub vehicle_api_secret : String
  pub vehicle_access_token : String
  pub vehicle_authenticated : Bool
  pub json_headers : List (String × String)
  pub auth_headers : List (String × String)

-- The service, the requests made so far, and the credentials file.
pub record World (T : Type 0) : Type 0 where
  pub auth : AuthService
  pub requests : List (Request T)
  pub file : Option T

-- The constructor.
unfoldable pub new_service : AuthService
new_service = record {
  token = "";
  vehicle_registered = false;
  vehicle_api_key = "";
  vehicle_api_secret = "";
  vehicle_access_token = "";
  vehicle_authenticated = false;
  json_headers = assign "Content-Type" "application/json" [];
  auth_headers = [];
}

abbrev pub bearer : String → List (String × String) → List (String × String)
bearer token headers = assign "Authorization" (str_append "Bearer " token) headers

abbrev pub Server : Json → Type 0
Server J = List (Request J.Text) → Request J.Text → HttpResponse J.Text

module _ (J : Json) (config : Config J.Double) (server : Server J) (disk : Result Bool) where
  open J use {Text, Value, string, int64, object}

  abbrev pub Call : Type 0 → Type 0
  Call = Act (World Text)

  abbrev pub with_auth : (AuthService → AuthService) → Call (Unit {0})
  with_auth f = modify λ w. record w { auth = f w.auth }

  abbrev pub field : {A : Type 0} → (AuthService → A) → Call A
  field f = reads λ w. f w.auth

  abbrev pub posted : Request Text → World Text → World Text × Result (HttpResponse Text)
  posted r w = (record w { requests = w.requests ++ r ∷ [] }, ok (server w.requests r))

  -- `http_client_.Post(config_.base_url + path, headers, body)`.
  abbrev pub post : String → List (String × String) → Text → Call (HttpResponse Text)
  post path headers body =
      posted (record { url = str_append config.base_url path; headers = headers; body = body })

  abbrev pub dumped : Value → Call Text
  dumped v = lift (or_throw (J.dump v))

  abbrev pub document : Text → Call Value
  document t = lift (parsed J t)

  abbrev pub at : Value → String → Call Value
  at j k = lift (or_throw (J.at j k))

  abbrev pub text_at : Value → String → Call String
  text_at j k = lift (at_string J j k)

  abbrev pub success_of : Value → Call Bool
  success_of j = lift (or_throw (J.value_bool j "success" false))

  abbrev pub failed : HttpResponse Text → Bool
  failed resp = not resp.success || J.is_empty resp.body

  -- `data.accessToken` of an answer that says success.
  unfoldable pub access_token : Text → (String → AuthService → AuthService) → Call Bool
  access_token body keep = do
    j ← document body
    said ← success_of j
    if said
        then (do
          answer ← at j "data"
          token ← text_at answer "accessToken"
          with_auth (keep token)
          pure true)
        else pure false

  abbrev pub keep_token : String → AuthService → AuthService
  keep_token t a = record a { token = t }

  abbrev pub login_body : Value
  login_body =
      object
        (("email", string config.admin_email) ∷ ("password", string config.admin_password) ∷ [])

  unfoldable pub login : Call Bool
  unfolding access_token
  login =
      catching
        (do
          headers ← field λ a. a.json_headers
          body ← dumped login_body
          resp ← post "/api/auth/login" headers body
          if failed resp then pure false else access_token resp.body keep_token)
        (pure false)

  unfoldable pub ensure_auth_headers : Call (Unit {0})
  ensure_auth_headers =
      with_auth λ a.
        if is_empty a.token then a else record a { auth_headers = bearer a.token a.json_headers }

  abbrev pub verify_body : Value
  verify_body =
      object (("email", string config.admin_email) ∷ ("code", string config.verify_code) ∷ [])

  unfoldable pub verify_code : Call Bool
  verify_code =
      catching
        (do
          headers ← field λ a. a.json_headers
          body ← dumped verify_body
          resp ← post "/api/auth/verify-code" headers body
          pure (resp.status_code == 200))
        (pure false)

  abbrev pub signup_body : Value
  signup_body = object (
      ("email", string config.admin_email)
      ∷ ("password", string config.admin_password)
      ∷ ("firstName", string config.admin_first_name)
      ∷ ("lastName", string config.admin_last_name)
      ∷ ("phoneNumber", string config.admin_phone)
      ∷ [])

  unfoldable pub signup : Call Bool
  signup =
      catching
        (do
          headers ← field λ a. a.json_headers
          body ← dumped signup_body
          resp ← post "/api/auth/admin/signup" headers body
          pure (resp.status_code == 201 || resp.status_code == 409))
        (pure false)

  -- `setup` from its last steps to its first.
  abbrev pub once_verified : Bool → Call Bool
  once_verified verified = if not verified then pure false else login

  abbrev pub once_signed : Bool → Call Bool
  once_signed signed = if not signed then pure false else verify_code >>= once_verified

  abbrev pub once_tried : Bool → Call Bool
  once_tried known = if known then pure true else signup >>= once_signed

  unfoldable pub setup : Call Bool
  setup = do
    token ← field λ a. a.token
    if not (is_empty token) then pure true else login >>= once_tried
