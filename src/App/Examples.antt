-- ===== src/App/Examples.antt =====
-- Orders and reports on their whole way, at concrete inputs.
use iv_cloud_gateway.Base.{
  String, List, ℕ, ◌≡◌, refl, true, false, [], ◌∷◌, ◌++◌, Option, some, Result, ok, err, arith, pos,
}
use mathlib.Core.Option.{map}
use iv_cloud_gateway.Infra.Topics
use iv_cloud_gateway.Json.{tree_json, tree_laws, Tree, num, str, int, obj, field, end}
use iv_cloud_gateway.Proto.{GatewayCommand, trip_cancel, VehicleEvent, event_not_set, status}
use iv_cloud_gateway.Mqtt.{Session}
use iv_cloud_gateway.Mqtt.Sound.{IsSound}
use iv_cloud_gateway.Stream.{reading, Handler}
use iv_cloud_gateway.Stream.Incoming.{Gateway, proceed, report}
use iv_cloud_gateway.Stream.Steps.{settle, start, Step, completed}
use iv_cloud_gateway.Stream.Order.{sent}
use iv_cloud_gateway.Stream.Tags.{Inv, start-Inv}
use iv_cloud_gateway.Stream.Live.{Step-Inv}
use iv_cloud_gateway.Stream.Waiting.{begins}
use iv_cloud_gateway.Router.{dispatch}
use iv_cloud_gateway.Trip.{new_orchestrator, set_callbacks}
use iv_cloud_gateway.App.{Gate, main_callbacks, main_router}
use iv_cloud_gateway.App.Orders.{topic_of, cancel}
use iv_cloud_gateway.App.Startup.{Mqtt, connected}
use iv_cloud_gateway.Infra.Env.{default_config}
use iv_cloud_gateway.App.EndToEnd.{handed, due, IsReceiver, every_order_is_sent}
use iv_cloud_gateway.App.Documents.{passed_on, read_report, read_message, read_report-report}
use iv_cloud_gateway.App.Reports.{
  Site, proceed_published, with_message, with_messages, report_arrives,
}
use iv_cloud_gateway.Stream.{push_command}
use iv_cloud_gateway.Stream.Mailbox.{perform}
use iv_cloud_gateway.Stream.Views.{view}
use iv_cloud_gateway.Stream.Refines.{empty_mailbox}
use iv_cloud_gateway.Stream.Drain.{Driven}
use iv_cloud_gateway.App.Messages.{commands, last_trip}
use iv_cloud_gateway.App.Traffic.{
  Event, received, completed as comes, Traffic, quiet, followed, heard, told, all_acts,
  Traffic-view,
}
use iv_cloud_gateway.App.Tracking.{on_sample, tracked, sample_published}

abbrev message : Option Tree
message = some (obj (field "vinNumber" (str "vin") (field "requestId" (int (pos 7)) end)))

abbrev cancel_order : GatewayCommand ℕ
cancel_order = trip_cancel (record { vin_number = "vin"; request_id = pos 7 })

abbrev gate_of : Gateway tree_json → Gate tree_json
gate_of w = record {
  orchestrator = set_callbacks (main_callbacks tree_json) (new_orchestrator "vin");
  world = w;
}

wired : (w : Gateway tree_json) → (gate_of w).orchestrator.trip_callbacks ≡ main_callbacks tree_json
unfolding set_callbacks
wired w = refl

every_order_is_sent_example :
    (u : Gateway tree_json) × (v : Gateway tree_json) × (id : ℕ) × (dispatch
        (topic_of cancel)
        message
        (main_router tree_json)
        (gate_of start)
      ≡ (handed tree_json cancel_order (gate_of start) u, ok tt))
    × (push_command cancel_order (gate_of start).world ≡ ok u)
    × Driven tree_json u v
    × (v.active ≡ some id)
    × (sent id v.grpc.calls
        ≡ due (gate_of start).world.active id (gate_of start).world ++ cancel_order ∷ [])
    × IsReceiver (gate_of start).world.active id
every_order_is_sent_example =
    every_order_is_sent tree_json cancel message cancel_order (gate_of start) (wired start) begins
      refl

-- A vehicle has connected.
abbrev fallen_back : Result (Gateway tree_json) → Gateway tree_json
fallen_back (ok w) = w
fallen_back (err e) = start

abbrev vehicle_on : Gateway tree_json
vehicle_on = fallen_back (proceed tree_json 0 true event_not_set (settle 0 start))

turns_on : Step tree_json start vehicle_on
unfolding proceed start
turns_on = completed 0 true event_not_set (omega arith) refl

vehicle_on-Inv : Inv vehicle_on
vehicle_on-Inv = Step-Inv tree_json turns_on start-Inv

-- The vehicle connects, and an order comes.
abbrev ordered : Gate tree_json
ordered = (dispatch (topic_of cancel) message (main_router tree_json) (gate_of vehicle_on)).0

first_event : Event tree_json (gate_of start) (gate_of vehicle_on)
unfolding proceed start
first_event = comes 0 true event_not_set vehicle_on (omega arith) refl refl

traffic : Traffic tree_json (gate_of start) ordered
traffic = followed (followed quiet first_event) (received (topic_of cancel) message _ refl)

Traffic-view_example :
    (view ordered.world ≡ perform (all_acts tree_json traffic) (empty_mailbox tree_json))
    × (ordered.world.published ≡ told tree_json traffic)
    × (ordered.orchestrator.trip_id
        ≡ last_trip tree_json
            (commands tree_json (heard tree_json traffic))
            (gate_of start).orchestrator.trip_id)
Traffic-view_example =
    Traffic-view tree_json (gate_of start).orchestrator ordered traffic (wired start)

abbrev event : VehicleEvent ℕ
event = status (record { vin_number = "vin"; trip_id = pos 3; status = "moving" })

read_report-report_example :
    map (λ d. read_report tree_json d.0 d.1) (report tree_json event) ≡ map ok (passed_on event)
read_report-report_example = read_report-report tree_json tree_laws event

abbrev client : Mqtt tree_json
client = connected tree_json (default_config 35 139)

abbrev site : Site tree_json
site = record { gateway = vehicle_on; mqtt = client }

reader : (h : Handler (GatewayCommand ℕ)) × (vehicle_on.heap 0 ≡ some h) × (h.state ≡ reading)
unfolding proceed start
reader = (record { state = reading; write_queue = []; writing = false }, refl, refl)

sound : IsSound client
unfolding connected
sound = (refl, refl)

session : (s : Session (Option Tree)) × (client.session ≡ some s)
unfolding connected
session = (_, refl)

report_arrives_example :
    (u : Site tree_json) × (m : Option (String × Option Tree)) × (proceed_published tree_json 0 true
        event site
      ≡ ok u)
    × (u.mqtt ≡ record (site.mqtt) { session = some (with_messages tree_json m session.0) })
    × (map (read_message tree_json) m ≡ map ok (passed_on event))
report_arrives_example =
    report_arrives tree_json tree_laws 0 event reader.0 session.0 site reader.1 reader.2 session.1
      sound (λ topic v e. (some v, refl, refl))

-- A sample without a trip.
abbrev sample_fields : List (String × Tree)
sample_fields = ("latitude", num 35) ∷ ("longitude", num 139) ∷ []

sample_published_example :
    on_sample tree_json "vin" (some (tree_json.object sample_fields)) client ≡ record client {
      session =
          map
            (with_message Topics.stream_location (some (tracked tree_json "vin" sample_fields)))
            client.session;
    }
sample_published_example =
    sample_published tree_json tree_laws "vin" (some (tree_json.object sample_fields))
      (some (tracked tree_json "vin" sample_fields)) sample_fields client refl refl sound
