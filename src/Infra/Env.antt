-- ===== src/Infra/Env.antt =====
-- src/infra/config.h: `env_or`, `env_int`, `env_double` and `Config::from_env`. `stod` stands for
-- std::stod, with `none` for a throw, and `lat` and `lon` for the literals of the start.
pub mod Numbers
pub mod Settings
use Prim.Native.Char.{code}
use iv_cloud_gateway.Base.{
  ℕ, ℤ, pos, negsuc, Bool, true, false, not, ◌&&◌, ◌||◌, String, Option, none, some, leb, ltb, ◌==◌,
  zero, suc, ◌+◌, ◌-◌, ◌*◌, ◌%◌, ◌^◌, if◌then◌else◌,
}
use iv_cloud_gateway.Base.Texts.{is_none, is_digit, run}
use iv_cloud_gateway.Json.{find}
use iv_cloud_gateway.Infra.Config.{Config}
use iv_cloud_gateway.Infra.Dotenv.{Environment, load_dotenv}

-- A variable's text, or none if it is not set or empty.
abbrev pub filled : Option String → Option String
filled none = none
filled (some v) = if is_none v then none else some v

abbrev pub with_default {ℓ} : {A : Type ℓ} → Option A → A → A
with_default none d = d
with_default (some x) d = x

unfoldable pub env_or : String → String → Environment → String
env_or key def env = with_default (filled (find key env)) def

-- isspace.
abbrev pub is_white : ℕ → Bool
is_white c = c == b' ' || (leb 9 c && leb c 13)

pub skip_white : String → String
skip_white String.[] = ""
skip_white (String.◌∷◌ c s) = if is_white (code c) then skip_white s else String.◌∷◌ c s

-- The digits at the front, after those that are read already.
pub digits_from : ℕ → String → ℕ
digits_from n String.[] = n
digits_from n (String.◌∷◌ c s) =
    let rest = digits_from (n * 10 + (code c - b'0')) s in if is_digit (code c) then rest else n

abbrev pub starts_digit : String → Bool
starts_digit String.[] = false
starts_digit (String.◌∷◌ c s) = is_digit (code c)

-- The int of a sign and a magnitude, if one has it.
abbrev pub int_of : Bool → ℕ → Option ℤ
int_of false n = if ltb n (2 ^ 31) then some (pos n) else none
int_of true zero = some (pos 0)
int_of true (suc n) = if ltb n (2 ^ 31) then some (negsuc n) else none

abbrev pub magnitude : Bool → String → Option ℤ
magnitude negative s = if starts_digit s then int_of negative (digits_from 0 s) else none

abbrev pub signed : String → Option ℤ
signed String.[] = none
signed (String.◌∷◌ c s) =
    if code c == b'-'
    then magnitude true s
    else if code c == b'+'
    then magnitude false s
    else magnitude false (String.◌∷◌ c s)

-- std::stoi, with `none` for a throw.
unfoldable pub stoi : String → Option ℤ
unfolding skip_white digits_from
stoi s = signed (skip_white s)

-- A text's reading, with `none` for a text that is missing or a reading that throws.
abbrev pub read_as {ℓ} : {A : Type ℓ} → (String → Option A) → Option String → Option A
read_as read none = none
read_as read (some v) = read v

unfoldable pub env_int : String → ℤ → Environment → ℤ
unfolding stoi
env_int key def env = with_default (read_as stoi (filled (find key env))) def

unfoldable pub env_double : {D : Type 0} → (String → Option D) → String → D → Environment → D
env_double stod key def env = with_default (read_as stod (filled (find key env))) def

-- static_cast<uint16_t>.
abbrev pub to_uint16 : ℤ → ℕ
to_uint16 (pos n) = n % 2 ^ 16
to_uint16 (negsuc n) = (2 ^ 16 - 1) - n % 2 ^ 16

-- The members' initialisers.
abbrev pub default_config : {D : Type 0} → D → D → Config D
default_config lat lon = record {
  vin_number = "ORIN_NANO_001";
  mqtt_broker = "localhost";
  mqtt_port = 1883;
  mqtt_client_id = "vehicle_gateway";
  autoware_grpc_addr = "127.0.0.1:50051";
  grpc_listen = "0.0.0.0:50051";
  zenoh_connect = "udp/127.0.0.1:7447";
  base_url = "https://yaquod.duckdns.org";
  admin_email = "";
  admin_password = "";
  admin_first_name = "";
  admin_last_name = "";
  admin_phone = "";
  verify_code = "";
  plate_no = "";
  color = "";
  car_company = "";
  model = "";
  seat_no = pos 4;
  start_lat = lat;
  start_lon = lon;
}

-- A configuration read from the environment, over another one.
unfoldable pub configured : {D : Type 0} → (String → Option D) → Config D → Environment → Config D
unfolding env_or env_int env_double
configured stod c env = record {
  vin_number = env_or "VIN_NUMBER" (c.vin_number) env;
  mqtt_broker = env_or "MQTT_BROKER" (c.mqtt_broker) env;
  mqtt_port = to_uint16 (env_int "MQTT_PORT" (pos (c.mqtt_port)) env);
  mqtt_client_id = env_or "MQTT_CLIENT_ID" (c.mqtt_client_id) env;
  autoware_grpc_addr = env_or "AUTOWARE_GRPC_ADDR" (c.autoware_grpc_addr) env;
  grpc_listen = env_or "GRPC_LISTEN" (c.grpc_listen) env;
  zenoh_connect = env_or "ZENOH_CONNECT" (c.zenoh_connect) env;
  base_url = env_or "BASE_URL" (c.base_url) env;
  admin_email = env_or "ADMIN_EMAIL" (c.admin_email) env;
  admin_password = env_or "ADMIN_PASSWORD" (c.admin_password) env;
  admin_first_name = env_or "ADMIN_FIRST_NAME" (c.admin_first_name) env;
  admin_last_name = env_or "ADMIN_LAST_NAME" (c.admin_last_name) env;
  admin_phone = env_or "ADMIN_PHONE" (c.admin_phone) env;
  verify_code = env_or "VERIFY_CODE" (c.verify_code) env;
  plate_no = env_or "PLATE_NO" (c.plate_no) env;
  color = env_or "COLOR" (c.color) env;
  car_company = env_or "CAR_COMPANY" (c.car_company) env;
  model = env_or "MODEL" (c.model) env;
  seat_no = env_int "SEAT_NO" (c.seat_no) env;
  start_lat = env_double stod "START_LAT" (c.start_lat) env;
  start_lon = env_double stod "START_LON" (c.start_lon) env;
}

-- `files` is the file system: a path's text, if the file opens.
unfoldable pub from_env :
    {D : Type 0} → (String → Option D) → D → D → (String → Option String) → Environment → Config D
unfolding load_dotenv configured env_or
from_env stod lat lon files env =
    let path = env_or "GATEWAY_ENV_FILE" ".env" env in
    configured stod (default_config lat lon) (load_dotenv (files path) env)
