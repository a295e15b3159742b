-- ===== src/App/Documents.antt =====
-- The documents that handle_incoming of src/services/vehicle_stream_handler.h publishes for the
-- events of a vehicle, and what a reader of their topics gets back.
use mathlib.Core.Option.{map}
use iv_cloud_gateway.Base.{
  ◌≡◌, refl, String, List, [], ◌∷◌, Option, none, some, Result, ok, err, json_exception, ◌>>=◌,
}
use iv_cloud_gateway.Infra.Topics
use iv_cloud_gateway.Json.{Json, JsonLaws, find, at_string, at_int64, at_double, parsed}
use iv_cloud_gateway.Proto.{
  VehicleEvent, eta, status, arrive, location, event_not_set, trip_init_ack, trip_move_ack,
  trip_park_ack, order_update_location_ack, order_update_status_ack, trip_cancel_ack,
}
use iv_cloud_gateway.Stream.Incoming.{report}

-- The specification: the events that are passed on, and those that are only logged.
abbrev pub passed_on : {D : Type 0} → VehicleEvent D → Option (VehicleEvent D)
passed_on (eta r) = some (eta r)
passed_on (status r) = some (status r)
passed_on (arrive r) = some (arrive r)
passed_on (location r) = some (location r)
passed_on event_not_set = none
passed_on (trip_init_ack a) = none
passed_on (trip_move_ack a) = none
passed_on (trip_park_ack a) = none
passed_on (order_update_location_ack a) = none
passed_on (order_update_status_ack a) = none
passed_on (trip_cancel_ack a) = none

module _ (J : Json) where
  open J use {Text, Value, Double}

  abbrev read_eta : Value → Result (VehicleEvent Double)
  read_eta v = do
    vin ← at_string J v "vinNumber"
    id ← at_int64 J v "requestId"
    fare ← at_double J v "estimatedFare"
    time ← at_double J v "estimatedTime"
    said ← at_string J v "status"
    ok (eta (record { vin_number = vin; request_id = id; time = time; fare = fare; status = said }))

  abbrev read_status : Value → Result (VehicleEvent Double)
  read_status v = do
    vin ← at_string J v "vinNumber"
    id ← at_int64 J v "tripId"
    said ← at_string J v "tripStatus"
    ok (status (record { vin_number = vin; trip_id = id; status = said }))

  abbrev read_arrive : Value → Result (VehicleEvent Double)
  read_arrive v = do
    vin ← at_string J v "vinNumber"
    id ← at_int64 J v "tripId"
    long ← at_double J v "longitude"
    lat ← at_double J v "latitude"
    ok (arrive (record { vin_number = vin; trip_id = id; long = long; lat = lat }))

  abbrev read_location : Value → Result (VehicleEvent Double)
  read_location v = do
    vin ← at_string J v "vinNumber"
    long ← at_double J v "longitude"
    lat ← at_double J v "latitude"
    ok (location (record { vin_number = vin; longitude = long; latitude = lat }))

  -- The specification: how a reader at the backend understands each topic.
  abbrev readers : List (String × (Value → Result (VehicleEvent Double)))
  readers =
      (Topics.trip_eta, read_eta)
      ∷ (Topics.trip_status, read_status)
      ∷ (Topics.trip_arrive, read_arrive)
      ∷ (Topics.update_location, read_location)
      ∷ []

  abbrev read_by :
      Option (Value → Result (VehicleEvent Double)) → Value → Result (VehicleEvent Double)
  read_by none v = err json_exception
  read_by (some reader) v = reader v

  abbrev pub read_report : String → Value → Result (VehicleEvent Double)
  read_report topic v = read_by (find topic readers) v

  -- A published message: its topic, and its text.
  abbrev pub read_message : String × Text → Result (VehicleEvent Double)
  read_message (topic, payload) = do v ← parsed J payload; read_report topic v

module _ (J : Json) (laws : JsonLaws J) where
  open J use {Double}

  -- The document that is published for an event of the vehicle, read at its topic, gives back the
  -- event with all its values; there is one for each ETA, status, arrival and location, and none
  -- for any other event.
  pub read_report-report :
      (ev : VehicleEvent Double)
      → map (λ d. read_report J d.0 d.1) (report J ev) ≡ map ok (passed_on ev)
  unfolding report
  read_report-report (eta r) =
      simp (laws.at-object, laws.get_string-string, laws.get_int64-int64, laws.get_double-double)
  read_report-report (status r) =
      simp (laws.at-object, laws.get_string-string, laws.get_int64-int64)
  read_report-report (arrive r) =
      simp (laws.at-object, laws.get_string-string, laws.get_int64-int64, laws.get_double-double)
  read_report-report (location r) =
      simp (laws.at-object, laws.get_string-string, laws.get_double-double)
  read_report-report event_not_set = refl
  read_report-report (trip_init_ack a) = refl
  read_report-report (trip_move_ack a) = refl
  read_report-report (trip_park_ack a) = refl
  read_report-report (order_update_location_ack a) = refl
  read_report-report (order_update_status_ack a) = refl
  read_report-report (trip_cancel_ack a) = refl
