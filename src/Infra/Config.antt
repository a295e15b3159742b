-- ===== src/Infra/Config.antt =====
-- src/infra/config.h: the settings, which the other parts read. `D` is the type of a double.
use iv_cloud_gateway.Base.{ℕ, ℤ, String}

pub record Config (D : Type 0) : Type 0 where
  pub vin_number : String
  pub mqtt_broker : String
  pub mqtt_port : ℕ
  pub mqtt_client_id : String
  pub autoware_grpc_addr : String
  pub grpc_listen : String
  pub zenoh_connect : String
  pub base_url : String
  pub admin_email : String
  pub admin_password : String
  pub admin_first_name : String
  pub admin_last_name : String
  pub admin_phone : String
  pub verify_code : String
  pub plate_no : String
  pub color : String
  pub car_company : String
  pub model : String
  pub seat_no : ℤ
  pub start_lat : D
  pub start_lon : D
