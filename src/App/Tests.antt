-- ===== src/App/Tests.antt =====
-- Orders of the backend at concrete inputs.
use iv_cloud_gateway.Base.{String, ◌≡◌, refl, Option, some, ok, pos}
use iv_cloud_gateway.Json.{tree_json, Tree, str, int, boolean, obj, field, end}
use iv_cloud_gateway.Proto.{trip_cancel}
use iv_cloud_gateway.Stream.Arrivals.{Arrives}
use iv_cloud_gateway.Stream.Steps.{start}
use iv_cloud_gateway.Stream.Tags.{Inv, start-Inv}
use iv_cloud_gateway.Trip.{new_orchestrator, set_callbacks}
use iv_cloud_gateway.Router.{dispatch}
use iv_cloud_gateway.App.{Gate, main_callbacks, main_router}
use iv_cloud_gateway.Base.{List, Bool, true, none, ℕ, Result, [], ◌∷◌, ◌++◌}
use iv_cloud_gateway.Base.{not, ◌||◌}
use iv_cloud_gateway.Infra.Config.{Config}
use iv_cloud_gateway.Infra.Env.{default_config}
use iv_cloud_gateway.Mqtt.{Session, on_receive}
use iv_cloud_gateway.Mqtt.Sound.{IsSound}
use iv_cloud_gateway.Auth.{World, Server, new_service, login, ensure_auth_headers}
use iv_cloud_gateway.Auth.Vehicle.{round, request_vehicle}
use iv_cloud_gateway.App.Startup.{
  Process, Mqtt, message_handler, connected, sign_in, settle_accounts, start_location,
}
use iv_cloud_gateway.App.AnyTopic.{order_at, obeyed_at, dispatch-order_at}
use iv_cloud_gateway.App.Messages.{commands, last_trip, dispatch_all, dispatch_all-Arrives}
use iv_cloud_gateway.App.Main.{IsRun, settings, main, main-IsRun}
use iv_cloud_gateway.App.Routes.{order_topics, at_once, order_handled}
use iv_cloud_gateway.App.Announce.{after_login, settle_accounts_lem}
use iv_cloud_gateway.App.Orders.{topic_of, init, cancel, translate, obeyed}

abbrev gate : Gate tree_json
gate = record {
  orchestrator = set_callbacks (main_callbacks tree_json) (new_orchestrator "vin");
  world = start;
}

gate_wired : gate.orchestrator.trip_callbacks ≡ main_callbacks tree_json
unfolding set_callbacks
gate_wired = refl

abbrev message : Option Tree
message = some (obj (field "vinNumber" (str "vin") (field "requestId" (int (pos 7)) end)))

read_message :
    translate tree_json cancel message
    ≡ ok (trip_cancel (record { vin_number = "vin"; request_id = pos 7 }))
read_message = refl

dispatch-order_at_example :
    dispatch (topic_of cancel) message (main_router tree_json) gate
    ≡ obeyed_at tree_json (order_at (topic_of cancel)) message gate
dispatch-order_at_example = dispatch-order_at tree_json message gate gate_wired (topic_of cancel)

-- An order, a message that is no order, one on another topic, and the order again.
abbrev messages : List (String × Option Tree)
messages =
    (topic_of cancel, message)
    ∷ (topic_of init, message)
    ∷ ("topic/trip/eta", message)
    ∷ (topic_of cancel, message)
    ∷ []

two_orders :
    commands tree_json messages
    ≡ trip_cancel (record { vin_number = "vin"; request_id = pos 7 })
      ∷ trip_cancel (record { vin_number = "vin"; request_id = pos 7 })
      ∷ []
unfolding order_at
two_orders = refl

dispatch_all-Arrives_example :
    (t : Gate tree_json) × (dispatch_all tree_json messages gate ≡ (t, ok tt))
    × Inv t.world
    × (t.orchestrator.trip_callbacks ≡ main_callbacks tree_json)
    × Arrives gate.world.active (commands tree_json messages) gate.world t.world
    × (t.orchestrator.trip_id
        ≡ last_trip tree_json (commands tree_json messages) gate.orchestrator.trip_id)
dispatch_all-Arrives_example = dispatch_all-Arrives tree_json messages gate gate_wired start-Inv

abbrev config : Config ℕ
config = default_config 35 139

-- A client whose topics the broker has granted, and which receives.
abbrev session : Session (Option Tree)
session = record {
  brokers = (config.mqtt_broker, config.mqtt_port);
  credentials = config.mqtt_client_id;
  asked = order_topics;
  outstanding = [];
  subscribed = order_topics;
  published = [];
  tasks = [];
  receives = 1;
}

order_handled_example :
    ((on_receive true (topic_of cancel) message (connected tree_json config) session).handled
      ≡ (connected tree_json config).handled
        ++ (message_handler tree_json, topic_of cancel, message) ∷ [])
    × (message_handler tree_json (topic_of cancel) message gate
        ≡ obeyed tree_json gate (translate tree_json cancel message))
order_handled_example =
    order_handled tree_json config cancel message session gate at_once gate_wired

abbrev backend : Server tree_json
backend log r = record {
  status_code = 200;
  body = some (
      obj (
        field "success" (boolean true)
          (field "data" (obj (field "accessToken" (str "t") end)) end)));
  headers = [];
  success = true;
  error_message = "";
}

abbrev opens : Result Bool
opens = ok true

abbrev accounts : World (Option Tree)
accounts = record {
  auth = record new_service { vehicle_api_key = "k"; vehicle_api_secret = "s" };
  requests = [];
  file = none;
}

-- The MQTT client's thread subscribes the orders meanwhile.
abbrev begun : Process tree_json
begun = record { mqtt = connected tree_json config; accounts = accounts }

abbrev busy : Mqtt tree_json → Mqtt tree_json
busy c = record c { session = some session; pending_topics = [] }

signed_in : (sign_in tree_json config backend opens accounts).1 ≡ ok true
unfolding sign_in new_service login round request_vehicle ensure_auth_headers
signed_in = refl

settle_accounts_lem_example :
    (settle_accounts tree_json config backend opens busy begun ≡ (
      record {
        mqtt =
            after_login tree_json config backend opens busy begun true
              (some (start_location tree_json config))
              (busy begun.mqtt)
              session;
        accounts = (sign_in tree_json config backend opens accounts).0;
      },
      ok tt,
    ))
    × ((not true || (sign_in tree_json config backend opens accounts).0.auth.vehicle_authenticated)
        ≡ true)
unfolding connected
settle_accounts_lem_example =
    settle_accounts_lem tree_json config backend opens busy begun true
      (some (start_location tree_json config)) session signed_in refl refl refl

sound : IsSound (connected tree_json config)
unfolding connected
sound = (refl, refl)

keeps_IsSound : (c : Mqtt tree_json) → IsSound c → IsSound c
keeps_IsSound c i = i

-- The settings are the defaults, no credentials are stored, and one signal comes.
main-IsRun_example :
    IsRun tree_json
      (settings tree_json (λ t. none) 35 139 (λ path. none) [])
      backend
      opens
      (λ c. c)
      (λ c. c)
      true
      0
      1
      (record { auth = new_service; requests = []; file = none })
      (main tree_json
        (λ t. none)
        35
        139
        (λ path. none)
        []
        backend
        opens
        (λ c. c)
        (λ c. c)
        true
        0
        1
        none)
main-IsRun_example =
    main-IsRun tree_json (λ t. none) 35 139 (λ path. none) [] backend opens (λ c. c) (λ c. c) true 0
      1 none keeps_IsSound keeps_IsSound
