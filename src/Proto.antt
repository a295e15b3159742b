-- ===== src/Proto.antt =====
-- proto/vehicle_gateway.proto: the messages, from which the build generates the classes.
use iv_cloud_gateway.Base.{ℤ, String, Bool}

pub record EtaRequest (D : Type 0) : Type 0 where
  pub vin_number : String
  pub request_id : ℤ
  pub time : D
  pub fare : D
  pub status : String

pub record TripParkRequest (D : Type 0) : Type 0 where
  pub vin_number : String
  pub longitude : D
  pub latitude : D

pub record StatusRequest : Type 0 where
  pub vin_number : String
  pub trip_id : ℤ
  pub status : String

pub record ArriveRequest (D : Type 0) : Type 0 where
  pub vin_number : String
  pub trip_id : ℤ
  pub long : D
  pub lat : D

pub record UpdateVehicleLocationRequest (D : Type 0) : Type 0 where
  pub vin_number : String
  pub longitude : D
  pub latitude : D

pub record TripInitRequest (D : Type 0) : Type 0 where
  pub vin_number : String
  pub request_id : ℤ
  pub start_long : D
  pub start_lat : D
  pub end_long : D
  pub end_lat : D

pub record TripMoveRequest (D : Type 0) : Type 0 where
  pub vin_number : String
  pub trip_id : ℤ
  pub longitude : D
  pub latitude : D

pub record TripCancelRequest : Type 0 where
  pub vin_number : String
  pub request_id : ℤ

pub record OrderUpdateLocationRequest : Type 0 where
  pub vin_number : String

pub record OrderUpdateStatusRequest : Type 0 where
  pub vin_number : String

pub data GatewayCommand (D : Type 0) : Type 0 where
  trip_init : TripInitRequest D → GatewayCommand D
  trip_move : TripMoveRequest D → GatewayCommand D
  trip_park : TripParkRequest D → GatewayCommand D
  order_update_location : OrderUpdateLocationRequest → GatewayCommand D
  order_update_status : OrderUpdateStatusRequest → GatewayCommand D
  trip_cancel : TripCancelRequest → GatewayCommand D

-- The messages that answer: all have these two fields.
pub record Ack : Type 0 where
  pub success : Bool
  pub message : String

pub data VehicleEvent (D : Type 0) : Type 0 where
  event_not_set : VehicleEvent D
  trip_init_ack : Ack → VehicleEvent D
  trip_move_ack : Ack → VehicleEvent D
  trip_park_ack : Ack → VehicleEvent D
  order_update_location_ack : Ack → VehicleEvent D
  order_update_status_ack : Ack → VehicleEvent D
  trip_cancel_ack : Ack → VehicleEvent D
  eta : EtaRequest D → VehicleEvent D
  status : StatusRequest → VehicleEvent D
  arrive : ArriveRequest D → VehicleEvent D
  location : UpdateVehicleLocationRequest D → VehicleEvent D
