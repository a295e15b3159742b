-- ===== src/Rpc/Classes.antt =====
-- src/services/rpc_dispatcher.cc: the six classes of unary calls.
use iv_cloud_gateway.Base.{pos, Bool, String, [], ◌∷◌, if◌then◌else◌}
use iv_cloud_gateway.Infra.Topics
use iv_cloud_gateway.Json.{Json}
use iv_cloud_gateway.Proto.{
  Ack, EtaRequest, StatusRequest, ArriveRequest, UpdateVehicleLocationRequest, TripInitRequest,
  TripMoveRequest,
}
use iv_cloud_gateway.Rpc.{
  CallData, Status, status_ok, internal, Method, send_eta, send_status, send_arrive,
  update_vehicle_location, trip_init, trip_move,
}

-- The bodies of `set_response` and `finish_rpc`, which are the same in all classes.
abbrev pub set_response : Bool → String → Ack → Ack
set_response success msg response = record response { success = success; message = msg }

abbrev pub finish_rpc : Bool → Ack → Status
finish_rpc success response = if success then status_ok else internal response.message

module _ (J : Json) where
  open J use {Value, Double, zero, string, int64, double, object}

  abbrev pub EtaCallData : Type 0
  EtaCallData = CallData (EtaRequest Double)

  abbrev pub eta_call_data : Method Value (EtaRequest Double)
  eta_call_data = record {
    register_rpc = send_eta;
    mqtt_topic = Topics.trip_eta;
    build_payload = λ r. object (
        ("vin_number", string r.vin_number)
        ∷ ("request_id", int64 r.request_id)
        ∷ ("estimated_fare", double r.fare)
        ∷ ("estimated_time", double r.time)
        ∷ []);
    set_response = set_response;
    finish_rpc = finish_rpc;
    unset = record { vin_number = ""; request_id = pos 0; time = zero; fare = zero; status = "" };
  }

  abbrev pub StatusCallData : Type 0
  StatusCallData = CallData (StatusRequest)

  abbrev pub status_call_data : Method Value StatusRequest
  status_call_data = record {
    register_rpc = send_status;
    mqtt_topic = Topics.trip_status;
    build_payload = λ r. object (
        ("vinNumber", string r.vin_number)
        ∷ ("trip_id", int64 r.trip_id)
        ∷ ("status", string r.status)
        ∷ []);
    set_response = set_response;
    finish_rpc = finish_rpc;
    unset = record { vin_number = ""; trip_id = pos 0; status = "" };
  }

  abbrev pub ArriveCallData : Type 0
  ArriveCallData = CallData (ArriveRequest Double)

  abbrev pub arrive_call_data : Method Value (ArriveRequest Double)
  arrive_call_data = record {
    register_rpc = send_arrive;
    mqtt_topic = Topics.trip_arrive;
    build_payload = λ r. object (
        ("vinNumber", string r.vin_number)
        ∷ ("tripId", int64 r.trip_id)
        ∷ ("longitude", double r.long)
        ∷ ("latitude", double r.lat)
        ∷ []);
    set_response = set_response;
    finish_rpc = finish_rpc;
    unset = record { vin_number = ""; trip_id = pos 0; long = zero; lat = zero };
  }

  abbrev pub UpdateLocationCallData : Type 0
  UpdateLocationCallData = CallData (UpdateVehicleLocationRequest Double)

  abbrev pub update_location_call_data : Method Value (UpdateVehicleLocationRequest Double)
  update_location_call_data = record {
    register_rpc = update_vehicle_location;
    mqtt_topic = Topics.update_location;
    build_payload = λ r. object (
        ("vinNumber", string r.vin_number)
        ∷ ("longitude", double r.longitude)
        ∷ ("latitude", double r.latitude)
        ∷ []);
    set_response = set_response;
    finish_rpc = finish_rpc;
    unset = record { vin_number = ""; longitude = zero; latitude = zero };
  }

  abbrev pub TripInitCallData : Type 0
  TripInitCallData = CallData (TripInitRequest Double)

  abbrev pub trip_init_call_data : Method Value (TripInitRequest Double)
  trip_init_call_data = record {
    register_rpc = trip_init;
    mqtt_topic = Topics.trip_init;
    build_payload = λ r. object (
        ("vinNumber", string r.vin_number)
        ∷ ("requestId", int64 r.request_id)
        ∷ ("startLong", double r.start_long)
        ∷ ("startLat", double r.start_lat)
        ∷ ("endLong", double r.end_long)
        ∷ ("endLat", double r.end_lat)
        ∷ []);
    set_response = set_response;
    finish_rpc = finish_rpc;
    unset = record {
      vin_number = "";
      request_id = pos 0;
      start_long = zero;
      start_lat = zero;
      end_long = zero;
      end_lat = zero;
    };
  }

  abbrev pub TripMoveCallData : Type 0
  TripMoveCallData = CallData (TripMoveRequest Double)

  abbrev pub trip_move_call_data : Method Value (TripMoveRequest Double)
  trip_move_call_data = record {
    register_rpc = trip_move;
    mqtt_topic = Topics.trip_move;
    build_payload = λ r. object (
        ("vinNumber", string r.vin_number)
        ∷ ("tripId", int64 r.trip_id)
        ∷ ("longitude", double r.longitude)
        ∷ ("latitude", double r.latitude)
        ∷ []);
    set_response = set_response;
    finish_rpc = finish_rpc;
    unset = record { vin_number = ""; trip_id = pos 0; longitude = zero; latitude = zero };
  }
