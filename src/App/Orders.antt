-- ===== src/App/Orders.antt =====
-- An order of the backend, from the MQTT message to the command for the vehicle.
use iv_cloud_gateway.Base.{String, ◌≡◌, refl, Result, ok, err, dangling, arith, ◌>>=◌}
use iv_cloud_gateway.Base.Effects.{recover, pure}
use iv_cloud_gateway.Infra.Topics
use iv_cloud_gateway.Json.{Json, parsed, at_string, at_int64, at_double}
use iv_cloud_gateway.Proto.{
  GatewayCommand, trip_init, trip_move, trip_park, order_update_location, order_update_status,
  trip_cancel,
}
use iv_cloud_gateway.Stream.{push_command}
use iv_cloud_gateway.Stream.Incoming.{Gateway}
use iv_cloud_gateway.Stream.Tags.{Inv}
use iv_cloud_gateway.Stream.Live.{push_command-ok}
use iv_cloud_gateway.Trip.{
  TripOrchestrator, handle_trip_init, handle_trip_move, handle_trip_park,
  handle_order_update_location, handle_order_update_status, handle_trip_cancel,
}
use iv_cloud_gateway.Trip.Double.{to_double}
use iv_cloud_gateway.Router.{dispatch}
use iv_cloud_gateway.App.{Gate, main_callbacks, main_router}

-- The orders that the gateway knows, and the topic of each.
pub data Order : Type 0 where
  init move park location status cancel : Order

abbrev pub topic_of : Order → String
topic_of init = Topics.trip_init
topic_of move = Topics.trip_move
topic_of park = Topics.trip_park
topic_of location = Topics.order_update_location
topic_of status = Topics.order_update_status
topic_of cancel = Topics.trip_cancel

module _ (J : Json) where
  open J use {Text, Value, Double}

  -- The specification: the command that a document stands for.
  abbrev pub read_order : Order → Value → Result (GatewayCommand Double)
  read_order init j = do
    vin ← at_string J j "vinNumber"
    id ← at_int64 J j "requestId"
    start_long ← at_double J j "startLong"
    start_lat ← at_double J j "startLat"
    end_long ← at_double J j "endLong"
    end_lat ← at_double J j "endLat"
    ok (
        trip_init (record {
          vin_number = vin;
          request_id = id;
          start_long = start_long;
          start_lat = start_lat;
          end_long = end_long;
          end_lat = end_lat;
        }))
  read_order move j = do
    vin ← at_string J j "vinNumber"
    id ← at_int64 J j "tripId"
    longitude ← at_double J j "longitude"
    latitude ← at_double J j "latitude"
    ok (
        trip_move
          (record { vin_number = vin; trip_id = id; longitude = longitude; latitude = latitude }))
  read_order park j = do
    vin ← at_string J j "vinNumber"
    longitude ← at_double J j "longitude"
    latitude ← at_double J j "latitude"
    ok (trip_park (record { vin_number = vin; longitude = longitude; latitude = latitude }))
  read_order location j = do
    vin ← at_string J j "vinNumber"
    ok (order_update_location (record { vin_number = vin }))
  read_order status j = do
    vin ← at_string J j "vinNumber"
    ok (order_update_status (record { vin_number = vin }))
  read_order cancel j = do
    vin ← at_string J j "vinNumber"
    id ← at_int64 J j "requestId"
    ok (trip_cancel (record { vin_number = vin; request_id = id }))

  abbrev pub translate : Order → Text → Result (GatewayCommand Double)
  translate k payload = do j ← parsed J payload; read_order k j

  abbrev pub Orchestrator : Type 0
  Orchestrator = TripOrchestrator Double (Gateway J)

  -- The ids that the orchestrator keeps of a command.
  abbrev pub remember : GatewayCommand Double → Orchestrator → Orchestrator
  remember (trip_init r) o = record o { request_id = to_double r.request_id }
  remember (trip_move r) o = record o { trip_id = r.trip_id }
  remember _ o = o

  -- The command is handed to the vehicle's stream; only a stray access would not come back.
  abbrev pub handed_over :
      Orchestrator → Gateway J → Result (Gateway J) → Gate J × Result (Unit {0})
  handed_over o w (ok w') = (record { orchestrator = o; world = w' }, ok tt)
  handed_over o w (err dangling) = (record { orchestrator = o; world = w }, err dangling)
  handed_over o w (err _) = (record { orchestrator = o; world = w }, ok tt)

  -- A payload that is no order changes nothing; the command of another one is remembered and
  -- pushed.
  abbrev pub obeyed : Gate J → Result (GatewayCommand Double) → Gate J × Result (Unit {0})
  obeyed s (err e) = (s, ok tt)
  obeyed s (ok c) = handed_over (remember c s.orchestrator) s.world (push_command c s.world)

  abbrev Wired : Gate J → Type 0
  Wired s = s.orchestrator.trip_callbacks ≡ main_callbacks J

  module _ (payload : Text) (s : Gate J) (wired : Wired s) where
    pub init-translate :
        recover (handle_trip_init J payload s) (pure tt) ≡ obeyed s (translate init payload)
    unfolding handle_trip_init main_callbacks
    init-translate = ground arith

    pub move-translate :
        recover (handle_trip_move J payload s) (pure tt) ≡ obeyed s (translate move payload)
    unfolding handle_trip_move main_callbacks
    move-translate = ground arith

    pub park-translate :
        recover (handle_trip_park J payload s) (pure tt) ≡ obeyed s (translate park payload)
    unfolding handle_trip_park main_callbacks
    park-translate = ground arith

    pub location-translate :
        recover (handle_order_update_location J payload s) (pure tt)
        ≡ obeyed s (translate location payload)
    unfolding handle_order_update_location main_callbacks
    location-translate = ground arith

    pub status-translate :
        recover (handle_order_update_status J payload s) (pure tt)
        ≡ obeyed s (translate status payload)
    unfolding handle_order_update_status main_callbacks
    status-translate = ground arith

    pub cancel-translate :
        recover (handle_trip_cancel J payload s) (pure tt) ≡ obeyed s (translate cancel payload)
    unfolding handle_trip_cancel main_callbacks
    cancel-translate = ground arith

  -- With the routes and the callbacks of `main`, a message on the topic of an order does exactly
  -- what the specification of the order says: a payload that does not read as the order changes
  -- nothing; any other becomes the command with its values, whose id is remembered and which is
  -- pushed to the vehicle.
  pub dispatch-translate :
      (k : Order) (payload : Text) (s : Gate J)
      → s.orchestrator.trip_callbacks ≡ main_callbacks J
      → dispatch (topic_of k) payload (main_router J) s ≡ obeyed s (translate k payload)
  unfolding dispatch main_router
  dispatch-translate init payload s wired = init-translate payload s wired
  dispatch-translate move payload s wired = move-translate payload s wired
  dispatch-translate park payload s wired = park-translate payload s wired
  dispatch-translate location payload s wired = location-translate payload s wired
  dispatch-translate status payload s wired = status-translate payload s wired
  dispatch-translate cancel payload s wired = cancel-translate payload s wired

  -- With the callbacks of `main` and the accounts of the stream in order, a message on the topic
  -- of an order is handled to its end, whatever its payload; the accounts and the callbacks hold
  -- after it.
  pub dispatch-Inv :
      (k : Order) (payload : Text) (s : Gate J)
      → s.orchestrator.trip_callbacks ≡ main_callbacks J
      → Inv s.world
      → let (t, r) = dispatch (topic_of k) payload (main_router J) s in
        (r ≡ ok tt) × Inv t.world × (t.orchestrator.trip_callbacks ≡ main_callbacks J)
  dispatch-Inv k payload s wired v =
      rw (dispatch-translate k payload s wired) (follows (translate k payload))
    where
      remembered :
          (c : GatewayCommand Double) (o : Orchestrator)
          → o.trip_callbacks ≡ main_callbacks J
          → (remember c o).trip_callbacks ≡ main_callbacks J
      remembered (trip_init r) o e = e
      remembered (trip_move r) o e = e
      remembered _ o e = e

      follows :
          (r : Result (GatewayCommand Double))
          → ((obeyed s r).1 ≡ ok tt)
            × Inv (obeyed s r).0.world
            × ((obeyed s r).0.orchestrator.trip_callbacks ≡ main_callbacks J)
      follows (err e) = (refl, v, wired)
      follows (ok c) =
          let (w', pushed, v') = push_command-ok c s.world v in
          rw pushed (refl, v', remembered c s.orchestrator wired)
