-- ===== src/App/Announce.antt =====
-- src/main.cpp: the accounts, the publication of the start, and the end.
use Prim.Native.String.{◌++◌ as str_append}
use iv_cloud_gateway.Base.{
  ℕ, ◌≡◌, refl, ◌⊎◌, inl, inr, Bool, true, false, not, ◌||◌, String, [], ◌∷◌, ◌++◌, none, some,
  Result, ok, err, arith, if◌then◌else◌,
}
use iv_cloud_gateway.Base.Effects.{Act, and_then, ◌>>=◌}
use iv_cloud_gateway.Base.Log.{Adds, Adds-imp}
use iv_cloud_gateway.Infra.Config.{Config}
use iv_cloud_gateway.Infra.Topics
use iv_cloud_gateway.Json.{Json}
use iv_cloud_gateway.Mqtt.{Session, MqttClient, publish, stop}
use iv_cloud_gateway.Mqtt.Sound.{IsSound}
use iv_cloud_gateway.Auth.{Request, World, Server, setup}
use iv_cloud_gateway.Auth.Vehicle.{create_vehicle, vehicle_login}
use iv_cloud_gateway.Auth.Requests.{Sends-bind, IsRegistering, create_vehicle-Sends}
use iv_cloud_gateway.Auth.Setup.{IsSetup, setup-Sends}
use iv_cloud_gateway.Auth.Login.{vehicle_login-Sends, vehicle_login-IsAuthenticated}
use iv_cloud_gateway.Rpc.Lifetime.{blocks, ended, lifetime_lem}
use iv_cloud_gateway.App.Startup.{
  Mqtt, Process, start_location, publish_start, sign_in, settle_accounts, finish,
}

module _ (J : Json) (config : Config J.Double) (server : Server J) (disk : Result Bool) where
  open J use {Text, Double}

  -- A request of `setup`, of `create_vehicle` or of `vechile_login`.
  abbrev pub IsSignIn : Request Text → Type 0
  IsSignIn r =
      IsSetup J config server disk r
      ⊎ (IsRegistering J config server disk r
          ⊎ (r.url ≡ str_append config.base_url "/api/auth/vehicle/login"))

  -- main makes at most ten requests of the backend, each one of `setup`, `create_vehicle` or
  -- `vechile_login`.
  pub sign_in-Sends :
      (w : World Text) → Adds IsSignIn 10 w.requests (sign_in J config server disk w).0.requests
  unfolding sign_in
  sign_in-Sends =
      Sends-bind J config server disk IsSignIn 4 6 (setup J config server disk) _
        (λ w. Adds-imp _ IsSignIn 4 _ _ (λ r. inl) (setup-Sends J config server disk w))
        λ authenticated.
          Sends-bind J config server disk IsSignIn 5 1
            (create_vehicle J config server disk false false) _
            (λ w.
              Adds-imp _ IsSignIn 5 _ _ (λ r h. inr (inl h))
                (create_vehicle-Sends J config server disk w))
            λ registered. vehicle_login-Sends J config server disk IsSignIn λ a b. inr (inr refl)

  -- A result of true means that the vehicle counts as authenticated.
  abbrev Authenticates : Act (World Text) Bool → Type 0
  Authenticates m =
      (w : World Text) (b : Bool)
      → (m w).1 ≡ ok b
      → (not b || (m w).0.auth.vehicle_authenticated) ≡ true

  Authenticates-bind :
      (a : Act (World Text) Bool) (f : Bool → Act (World Text) Bool)
      → ((x : Bool) → Authenticates (f x))
      → Authenticates (a >>= f)
  Authenticates-bind a f h w = go (a w)
    where
      go :
          (x : World Text × Result Bool) (b : Bool)
          → (and_then x f).1 ≡ ok b
          → (not b || (and_then x f).0.auth.vehicle_authenticated) ≡ true
      go (v, ok x) b e = h x v b e
      go (v, err p) b e = cc

  vehicle_login-Authenticates : Authenticates (vehicle_login J config server disk)
  vehicle_login-Authenticates w false e = refl
  vehicle_login-Authenticates w true e = vehicle_login-IsAuthenticated J config server disk w e

  sign_in-Authenticates : Authenticates (sign_in J config server disk)
  unfolding sign_in
  sign_in-Authenticates = Authenticates-bind (setup J config server disk) _ λ authenticated.
      Authenticates-bind (create_vehicle J config server disk false false) _
        λ registered. vehicle_login-Authenticates

  module _ (mqtt_thread : Mqtt J → Mqtt J) (p : Process J) where
    -- The client once the accounts are settled.
    abbrev pub after_login : Bool → Text → Mqtt J → Session Text → Mqtt J
    after_login logged_in payload c s =
        if logged_in
        then record c {
          session =
              some (record s { published = s.published ++ (Topics.update_location, payload) ∷ [] });
        }
        else c

    -- If the accounts are settled without an exception, the document of the start can be serialised
    -- and the MQTT client runs, main publishes the start just when `vechile_login` returned true,
    -- which means that the vehicle counts as authenticated, and changes nothing else of the client.
    pub settle_accounts_lem :
        (logged_in : Bool) (payload : Text) (s : Session Text)
        → (sign_in J config server disk p.accounts).1 ≡ ok logged_in
        → J.dump (start_location J config) ≡ some payload
        → (mqtt_thread p.mqtt).started ≡ true
        → (mqtt_thread p.mqtt).session ≡ some s
        → settle_accounts J config server disk mqtt_thread p ≡ (
          record {
            mqtt = after_login logged_in payload (mqtt_thread p.mqtt) s;
            accounts = (sign_in J config server disk p.accounts).0;
          },
          ok tt,
        )
          × ((not logged_in
                || (sign_in J config server disk p.accounts).0.auth.vehicle_authenticated)
              ≡ true)
    unfolding settle_accounts publish_start publish
    settle_accounts_lem logged_in payload s said dumped on at =
        (ground arith, sign_in-Authenticates p.accounts logged_in said)

pub stopped_client :
    {H T : Type 0} (c : MqttClient H T)
    → IsSound c
    → ((stop (stop c)).started ≡ false) × ((stop (stop c)).session ≡ none)
unfolding stop
stopped_client c (e, e') = (ground arith, ground arith)

module _ (J : Json) where
  -- main ends if the gRPC server does not come up or a signal comes after its start, with the MQTT
  -- client in a sound state: the server is then destroyed as `ended` says, with its thread joined,
  -- and the client is stopped and has no session left.
  pub finish_lem :
      (built : Bool) (early signals : ℕ) (addr : String) (c : Mqtt J)
      → blocks built signals ≡ false
      → IsSound c
      → (c' : Mqtt J) × (finish J built early signals addr c ≡ some (ended built signals addr, c'))
        × (c'.started ≡ false)
        × (c'.session ≡ none)
  unfolding finish
  finish_lem built early signals addr c free i =
      let (idle, gone) = stopped_client c i in
      (stop (stop c), rw (lifetime_lem built early signals addr, free) refl, idle, gone)
