-- ===== src/App/Startup.antt =====
-- src/main.cpp: what `main` does in its order. The MQTT client's thread runs beside it from its
-- start on: `mqtt_thread` is what it has done by the time that the accounts are settled.
use iv_cloud_gateway.Base.{
  String, [], ◌∷◌, Option, none, some, Result, Bool, false, ℕ, if◌then◌else◌,
}
use iv_cloud_gateway.Base.Effects.{Act, pure, lift, modify, ◌>>=◌, ◌>>◌}
use iv_cloud_gateway.Infra.Topics
use iv_cloud_gateway.Infra.Config.{Config}
use iv_cloud_gateway.Json.{Json, or_throw}
use iv_cloud_gateway.Router.{dispatch}
use iv_cloud_gateway.Mqtt.{
  MqttClient, new_client, set_message_handler, subscribe, start, stop, publish,
}
use iv_cloud_gateway.Trip.{TripOrchestrator, new_orchestrator, set_callbacks}
use iv_cloud_gateway.Stream.Incoming.{Gateway}
use iv_cloud_gateway.Auth.{World, Server, setup}
use iv_cloud_gateway.Auth.Vehicle.{create_vehicle, vehicle_login}
use iv_cloud_gateway.Rpc.Server.{GrpcServer}
use iv_cloud_gateway.Rpc.Lifetime.{lifetime}
use iv_cloud_gateway.App.{Gate, main_callbacks, main_router}

module _ (J : Json) where
  open J use {Text, Value, Double, string, double, object}

  -- A message handler.
  abbrev pub Handler : Type 0
  Handler = String → Text → Act (Gate J) (Unit {0})

  abbrev pub Mqtt : Type 0
  Mqtt = MqttClient Handler Text

  -- The argument of `set_message_handler`. It refers to the router, which has all its routes before
  -- the client is started.
  unfoldable pub message_handler : Handler
  unfolding dispatch main_router
  message_handler topic payload = dispatch topic payload (main_router J)

  unfoldable pub subscribe_orders : Mqtt → Mqtt
  unfolding subscribe
  subscribe_orders c = subscribe Topics.trip_cancel (
      subscribe Topics.order_update_status (
        subscribe Topics.order_update_location
          (subscribe Topics.trip_park (subscribe Topics.trip_move (subscribe Topics.trip_init c)))))

  -- The client up to `mqtt.start()`.
  unfoldable pub connected : Config Double → Mqtt
  unfolding new_client set_message_handler subscribe_orders start
  connected config =
      let c = new_client config.mqtt_broker config.mqtt_port config.mqtt_client_id in
      start (subscribe_orders (set_message_handler message_handler c))

  -- The orchestrator.
  unfoldable pub orchestrator : Config Double → TripOrchestrator Double (Gateway J)
  unfolding new_orchestrator set_callbacks main_callbacks
  orchestrator config = set_callbacks (main_callbacks J) (new_orchestrator config.vin_number)

  -- The client and the accounts.
  pub record Process : Type 0 where
    pub mqtt : Mqtt
    pub accounts : World Text

  abbrev pub start_location : Config Double → Value
  start_location config = object (
      ("vinNumber", string config.vin_number)
      ∷ ("latitude", double config.start_lat)
      ∷ ("longitude", double config.start_lon)
      ∷ [])

  -- The publication of the start; its callback only logs.
  unfoldable pub publish_start : Config Double → Act Process (Unit {0})
  unfolding publish
  publish_start config = do
    payload ← lift (or_throw (J.dump (start_location config)))
    modify (λ p. record p { mqtt = (publish Topics.update_location payload p.mqtt).0 })

  abbrev with_accounts : {A : Type 0} → Process → World Text × Result A → Process × Result A
  with_accounts p (w, r) = (record p { accounts = w }, r)

  abbrev within : {A : Type 0} → Act (World Text) A → Act Process A
  within m p = with_accounts p (m p.accounts)

  module _ (config : Config Double) (server : Server J) (disk : Result Bool) where
    -- What becomes of `setup` and `create_vehicle` is not looked at.
    unfoldable pub sign_in : Act (World Text) Bool
    unfolding setup create_vehicle vehicle_login
    sign_in = do
      authenticated ← setup J config server disk
      registered ← create_vehicle J config server disk false false
      vehicle_login J config server disk

    unfoldable pub settle_accounts : (Mqtt → Mqtt) → Act Process (Unit {0})
    unfolding sign_in publish_start
    settle_accounts mqtt_thread = do
      logged_in ← within sign_in
      modify (λ p. record p { mqtt = mqtt_thread p.mqtt })
      if logged_in then publish_start config else pure tt

  abbrev and_stop : Mqtt → Option GrpcServer → Option (GrpcServer × Mqtt)
  and_stop c none = none
  and_stop c (some g) = some (g, stop (stop c))

  -- From the gRPC server to the end, or none while main waits: `built` and the numbers of signals
  -- are those of `lifetime`. The client is stopped, and stopped again by its destructor.
  unfoldable pub finish : Bool → ℕ → ℕ → String → Mqtt → Option (GrpcServer × Mqtt)
  unfolding lifetime stop
  finish built early signals addr c = and_stop c (lifetime built early signals addr)
