-- ===== src/Auth/Restart.antt =====
-- src/services/auth_services.cc: the credentials file over a restart of the gateway.
use iv_cloud_gateway.Base.{◌≡◌, refl, true, some, ok, Result, Bool, arith}
use iv_cloud_gateway.Infra.Config.{Config}
use iv_cloud_gateway.Json.{Json, JsonLaws, at_string}
use iv_cloud_gateway.Auth.{AuthService, World, Server}
use iv_cloud_gateway.Auth.Credentials.{
  credentials, save_vehicle_credentials, load_vehicle_credentials,
}

module _ (J : Json) (laws : JsonLaws J) (config : Config J.Double) (server : Server J)
    (disk : Result Bool) where
  open J use {Text, Value}

  -- What a service that has read the file knows.
  abbrev pub restored : AuthService → AuthService → AuthService
  restored a b = record b {
    vehicle_api_key = a.vehicle_api_key;
    vehicle_api_secret = a.vehicle_api_secret;
    vehicle_access_token = a.vehicle_access_token;
  }

  abbrev Saved : AuthService → Value
  Saved a = credentials J config server disk a

  save-file :
      (w : World Text) (t : Text)
      → disk ≡ ok true
      → J.pretty (Saved w.auth) ≡ some t
      → save_vehicle_credentials J config server disk w ≡ (record w { file = some t }, ok true)
  unfolding save_vehicle_credentials
  save-file w t opens written = ground arith

  key_of : (a : AuthService) → at_string J (Saved a) "apiKey" ≡ ok a.vehicle_api_key
  key_of a = rw (laws.at-object, laws.get_string-string)

  secret_of : (a : AuthService) → at_string J (Saved a) "apiSecret" ≡ ok a.vehicle_api_secret
  secret_of a = rw (laws.at-object, laws.get_string-string)

  token_of :
      (a : AuthService) → J.value_string (Saved a) "accessToken" "" ≡ some a.vehicle_access_token
  token_of a = laws.value_string-object "accessToken" "" a.vehicle_access_token _ refl

  load-file :
      (a : AuthService) (w : World Text) (t : Text)
      → w.file ≡ some t
      → J.parse t ≡ some (Saved a)
      → load_vehicle_credentials J config server disk w
        ≡ (record w { auth = restored a w.auth }, ok true)
  unfolding load_vehicle_credentials
  load-file a w t stored read = ground (arith, key_of a, secret_of a, token_of a)

  -- If the file can be written, and the document that is written reads back as itself, then a
  -- service that starts later from this file, in whatever state, loads the key, the secret and the
  -- token that were saved, and nothing else of it changes.
  pub load-save :
      (w : World Text) (t : Text) (later : AuthService)
      → disk ≡ ok true
      → J.pretty (credentials J config server disk w.auth) ≡ some t
      → J.parse t ≡ some (credentials J config server disk w.auth)
      → let w' = (save_vehicle_credentials J config server disk w).0 in
        load_vehicle_credentials J config server disk (record w' { auth = later })
        ≡ (record w' { auth = restored w.auth later }, ok true)
  load-save w t later opens written read =
      rw (save-file w t opens written) (load-file w.auth _ t refl read)
