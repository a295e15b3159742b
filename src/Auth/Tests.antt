-- ===== src/Auth/Tests.antt =====
-- The accounts at concrete inputs: a backend that answers every request alike.
use iv_cloud_gateway.Base.{
  ℕ, ◌≡◌, refl, Bool, true, false, [], Option, none, some, Result, ok, ◌==◌, pos,
}
use iv_cloud_gateway.Infra.Config.{Config}
use iv_cloud_gateway.Json.{tree_json, tree_laws, Tree, str, obj, field, end}
use iv_cloud_gateway.Auth.{
  World, Server, new_service, verify_body, verify_code, ensure_auth_headers,
}
use iv_cloud_gateway.Auth.Credentials.{
  credentials, save_vehicle_credentials, load_vehicle_credentials,
}
use iv_cloud_gateway.Auth.Vehicle.{create_vehicle, round, vehicle_body, request_vehicle}
use iv_cloud_gateway.Http.{default_options}
use iv_cloud_gateway.Http.Urls.{Url, parse_url, parse_rest}
use iv_cloud_gateway.Http.Socket.{Connection, Peer, done, end_of_stream}
use iv_cloud_gateway.Auth.Client.{http_server, verify_code_dropped}
use iv_cloud_gateway.Base.Log.{Adds}
use iv_cloud_gateway.Auth.Requests.{IsRegistering, create_vehicle-Sends}
use iv_cloud_gateway.Auth.Restart.{restored, load-save}
use iv_cloud_gateway.Auth.Registration.{garbled_registration, create_vehicle-Registers}

abbrev settings : Config ℕ
settings = record {
  vin_number = "vin";
  mqtt_broker = "localhost";
  mqtt_port = 1883;
  mqtt_client_id = "gateway";
  autoware_grpc_addr = "localhost:50051";
  grpc_listen = "0.0.0.0:50052";
  zenoh_connect = "";
  base_url = "http://backend";
  admin_email = "admin";
  admin_password = "secret";
  admin_first_name = "A";
  admin_last_name = "B";
  admin_phone = "1";
  verify_code = "123";
  plate_no = "P";
  color = "red";
  car_company = "C";
  model = "M";
  seat_no = pos 4;
  start_lat = 0;
  start_lon = 0;
}

-- Answers with a status and a body.
abbrev answers : ℕ → Option Tree → Server tree_json
answers code b log r = record {
  status_code = code;
  body = b;
  headers = [];
  success = code == 201;
  error_message = "";
}

abbrev keys : Tree
keys = obj (field "data" (obj (field "apiKey" (str "k") (field "apiSecret" (str "s") end))) end)

abbrev logged_in : World (Option Tree)
logged_in = record { auth = record new_service { token = "t" }; requests = []; file = none }

abbrev opens : Result Bool
opens = ok true

create_vehicle-Sends_example :
    Adds
      (IsRegistering tree_json settings (answers 401 none) opens)
      5
      logged_in.requests
      (create_vehicle tree_json settings (answers 401 none) opens false false logged_in).0.requests
create_vehicle-Sends_example =
    create_vehicle-Sends tree_json settings (answers 401 none) opens logged_in

abbrev known : World (Option Tree) × Result Bool
known = create_vehicle tree_json settings (answers 201 (some keys)) opens false false logged_in

registers : known.1 ≡ ok true
unfolding create_vehicle round new_service request_vehicle ensure_auth_headers
registers = refl

create_vehicle-Registers_example : known.0.auth.vehicle_registered ≡ true
create_vehicle-Registers_example =
    create_vehicle-Registers tree_json settings (answers 201 (some keys)) opens logged_in registers

abbrev keyed : World (Option Tree)
keyed = record logged_in {
  auth = record new_service {
    vehicle_api_key = "k";
    vehicle_api_secret = "s";
    vehicle_access_token = "a";
  };
}

abbrev saved : World (Option Tree)
saved = (save_vehicle_credentials tree_json settings (answers 401 none) opens keyed).0

load-save_example :
    load_vehicle_credentials tree_json settings
      (answers 401 none)
      opens
      (record saved { auth = new_service })
    ≡ (
      record saved {
        auth =
            restored tree_json tree_laws settings (answers 401 none) opens keyed.auth new_service;
      },
      ok true,
    )
load-save_example =
    load-save tree_json tree_laws settings (answers 401 none) opens keyed
      (some (credentials tree_json settings (answers 401 none) opens keyed.auth)) new_service refl
      refl refl

unread_answer_counts :
    let (w', r) =
      create_vehicle tree_json settings (answers 201 none) opens false false logged_in in
    (r ≡ ok false)
    × (create_vehicle tree_json settings (answers 201 none) opens false false w' ≡ (w', ok true))
unfolding new_service
unread_answer_counts =
    garbled_registration tree_json settings (answers 201 none) opens logged_in
      (some (vehicle_body tree_json settings (answers 201 none) opens)) refl refl refl refl refl

garbled_registration_example :
    let (w', r) =
      create_vehicle tree_json settings (answers 201 none) opens false false logged_in in
    (r ≡ ok false)
    × (create_vehicle tree_json settings (answers 201 none) opens false false w' ≡ (w', ok true))
unfolding new_service
garbled_registration_example =
    garbled_registration tree_json settings (answers 201 none) opens logged_in
      (some (vehicle_body tree_json settings (answers 201 none) opens)) refl refl refl refl refl

-- A host that closes each connection without an answer.
abbrev dropping : Connection (Option Tree)
dropping = record {
  resolve = done;
  no_handle = false;
  no_sni = none;
  connect = done;
  handshake = done;
  write = done;
  read = end_of_stream;
  reply = record { result_int = 200; fields = []; body = none };
}

abbrev drops_all : Peer (tree_json.empty) (tree_json.is_empty)
drops_all past url w = dropping

abbrev backend : Url
backend = record {
  protocol = "http";
  host = "backend";
  port = "80";
  path = "/api/auth/verify-code";
}

abbrev dropped : Server tree_json
dropped = http_server tree_json default_options drops_all

verify_code_dropped_example : (verify_code tree_json settings dropped opens logged_in).1 ≡ ok true
unfolding parse_url parse_rest
verify_code_dropped_example =
    verify_code_dropped tree_json default_options drops_all settings opens logged_in
      (some (verify_body tree_json settings dropped opens)) backend refl refl
      (refl, refl, refl, refl, refl, refl, refl, refl)
