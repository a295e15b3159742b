-- ===== src/Auth/Credentials.antt =====
-- src/services/auth_services.cc: the credentials file.
use iv_cloud_gateway.Base.{Bool, true, false, [], ◌∷◌, Option, none, some, Result, if◌then◌else◌}
use iv_cloud_gateway.Base.Effects.{pure, lift, modify, catching, ◌>>=◌, ◌>>◌}
use iv_cloud_gateway.Infra.Config.{Config}
use iv_cloud_gateway.Json.{Json, or_throw}
use iv_cloud_gateway.Auth.{AuthService, Server, Call, with_auth, field, document, text_at}

module _ (J : Json) (config : Config J.Double) (server : Server J) (disk : Result Bool) where
  open J use {Text, Value, string, object}

  abbrev pub credentials : AuthService → Value
  credentials a = object (
      ("apiKey", string a.vehicle_api_key)
      ∷ ("apiSecret", string a.vehicle_api_secret)
      ∷ ("accessToken", string a.vehicle_access_token)
      ∷ [])

  abbrev write_file : Text → Call J config server disk (Unit {0})
  write_file t = modify λ w. record w { file = some t }

  -- Opening the file truncates it, before the document is written.
  unfoldable pub save_vehicle_credentials : Call J config server disk Bool
  save_vehicle_credentials =
      catching
        (do
          j ← field J config server disk credentials
          opened ← lift disk
          if opened
              then (do
                write_file J.empty
                text ← lift (or_throw (J.pretty j))
                write_file text
                pure true)
              else pure false)
        (pure false)

  abbrev loaded : Option Text → Call J config server disk Bool
  loaded none = pure false
  loaded (some text) = do
    j ← document J config server disk text
    key ← text_at J config server disk j "apiKey"
    with_auth J config server disk λ a. record a { vehicle_api_key = key }
    secret ← text_at J config server disk j "apiSecret"
    with_auth J config server disk λ a. record a { vehicle_api_secret = secret }
    token ← lift (or_throw (J.value_string j "accessToken" ""))
    with_auth J config server disk λ a. record a { vehicle_access_token = token }
    pure true

  -- An exception keeps what was read before it.
  unfoldable pub load_vehicle_credentials : Call J config server disk Bool
  load_vehicle_credentials = catching (λ w. loaded w.file w) (pure false)
