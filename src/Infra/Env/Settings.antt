-- ===== src/Infra/Env/Settings.antt =====
-- src/infra/config.h: where each setting comes from.
use iv_cloud_gateway.Base.{
  ℕ, ℤ, pos, ◌≡◌, ◌∙◌, ap, false, String, Option, none, some, List, [], ◌∷◌, ltb, ◌%◌, ◌^◌,
  if◌then◌else◌, arith, All,
}
use iv_cloud_gateway.Base.Texts.{is_none, is_digit, AllCodes}
use iv_cloud_gateway.Json.{find}
use iv_cloud_gateway.Infra.Config.{Config}
use iv_cloud_gateway.Infra.Dotenv.{Environment, load_dotenv}
use iv_cloud_gateway.Infra.Dotenv.Lookup.{or_else, file_settings, find-load_dotenv}
use iv_cloud_gateway.Infra.Env.{
  filled, int_of, with_default, read_as, env_or, env_int, env_double, stoi, to_uint16,
  default_config, configured, from_env,
}
use iv_cloud_gateway.Infra.Env.Numbers.{value, stoi-digits}

-- The text of a variable: that of the environment, or else that of the first line of the file that
-- sets it; none when it is empty.
abbrev pub setting : (String → Option String) → Environment → String → Option String
setting files env key =
    let path = with_default (filled (find "GATEWAY_ENV_FILE" env)) ".env" in
    filled (or_else (find key env) (find key (file_settings (files path))))

-- The settings that are texts.
abbrev pub text_settings : {D : Type 0} → List (String × (Config D → String))
text_settings =
    ("VIN_NUMBER", λ c. c.vin_number)
    ∷ ("MQTT_BROKER", λ c. c.mqtt_broker)
    ∷ ("MQTT_CLIENT_ID", λ c. c.mqtt_client_id)
    ∷ ("AUTOWARE_GRPC_ADDR", λ c. c.autoware_grpc_addr)
    ∷ ("GRPC_LISTEN", λ c. c.grpc_listen)
    ∷ ("ZENOH_CONNECT", λ c. c.zenoh_connect)
    ∷ ("BASE_URL", λ c. c.base_url)
    ∷ ("ADMIN_EMAIL", λ c. c.admin_email)
    ∷ ("ADMIN_PASSWORD", λ c. c.admin_password)
    ∷ ("ADMIN_FIRST_NAME", λ c. c.admin_first_name)
    ∷ ("ADMIN_LAST_NAME", λ c. c.admin_last_name)
    ∷ ("ADMIN_PHONE", λ c. c.admin_phone)
    ∷ ("VERIFY_CODE", λ c. c.verify_code)
    ∷ ("PLATE_NO", λ c. c.plate_no)
    ∷ ("COLOR", λ c. c.color)
    ∷ ("CAR_COMPANY", λ c. c.car_company)
    ∷ ("MODEL", λ c. c.model)
    ∷ []

filled-ne_none : (v : Option String) (s : String) → filled v ≡ some s → is_none s ≡ false
filled-ne_none none s h = cc
filled-ne_none (some String.[]) s h = cc
filled-ne_none (some (String.◌∷◌ c t)) s h = ground arith

port_of_int :
    (n : ℕ)
    → to_uint16 (with_default (int_of false n) (pos 1883))
      ≡ (if ltb n (2 ^ 31) then n % 2 ^ 16 else 1883)
port_of_int n = ground arith

module _ {D : Type 0} (stod : String → Option D) (lat lon : D) (files : String → Option String)
    (env : Environment) where
  abbrev seeded : Environment
  unfolding env_or
  seeded = load_dotenv (files (env_or "GATEWAY_ENV_FILE" ".env" env)) env

  filled-seeded : (key : String) → filled (find key seeded) ≡ setting files env key
  unfolding env_or
  filled-seeded key =
      ap filled (find-load_dotenv key (files (env_or "GATEWAY_ENV_FILE" ".env" env)) env)

  env_or-seeded :
      (key def : String) → env_or key def seeded ≡ with_default (setting files env key) def
  unfolding env_or
  env_or-seeded key def = ap (λ v. with_default v def) (filled-seeded key)

  env_int-seeded :
      (key : String) (def : ℤ)
      → env_int key def seeded ≡ with_default (read_as stoi (setting files env key)) def
  unfolding env_or env_int
  env_int-seeded key def = ap (λ v. with_default (read_as stoi v) def) (filled-seeded key)

  env_double-seeded :
      (key : String) (def : D)
      → env_double stod key def seeded ≡ with_default (read_as stod (setting files env key)) def
  unfolding env_or env_double
  env_double-seeded key def = ap (λ v. with_default (read_as stod v) def) (filled-seeded key)

  -- Every text setting is what the environment says, or else what the file that GATEWAY_ENV_FILE
  -- names says, and the default when that is missing or empty.
  pub from_env-text_settings :
      All
        (λ (key, field).
          field (from_env stod lat lon files env)
          ≡ with_default (setting files env key) (field (default_config lat lon)))
        text_settings
  unfolding from_env configured
  from_env-text_settings =
      let e = env_or-seeded in
      (
        e "VIN_NUMBER" "ORIN_NANO_001",
        (
          e "MQTT_BROKER" "localhost",
          (
            e "MQTT_CLIENT_ID" "vehicle_gateway",
            (
              e "AUTOWARE_GRPC_ADDR" "127.0.0.1:50051",
              (
                e "GRPC_LISTEN" "0.0.0.0:50051",
                (
                  e "ZENOH_CONNECT" "udp/127.0.0.1:7447",
                  (
                    e "BASE_URL" "https://yaquod.duckdns.org",
                    (
                      e "ADMIN_EMAIL" "",
                      (
                        e "ADMIN_PASSWORD" "",
                        (
                          e "ADMIN_FIRST_NAME" "",
                          (
                            e "ADMIN_LAST_NAME" "",
                            (
                              e "ADMIN_PHONE" "",
                              (
                                e "VERIFY_CODE" "",
                                (
                                  e "PLATE_NO" "",
                                  (e "COLOR" "", (e "CAR_COMPANY" "", (e "MODEL" "", tt))),
                                ),
                              ),
                            ),
                          ),
                        ),
                      ),
                    ),
                  ),
                ),
              ),
            ),
          ),
        ),
      )

  -- SEAT_NO and the start, which are numbers, likewise; a text that is no number counts as missing.
  pub from_env-number_settings :
      (from_env stod lat lon files env).seat_no
        ≡ with_default (read_as stoi (setting files env "SEAT_NO")) (pos 4)
      × (from_env stod lat lon files env).start_lat
        ≡ with_default (read_as stod (setting files env "START_LAT")) lat
      × (from_env stod lat lon files env).start_lon
        ≡ with_default (read_as stod (setting files env "START_LON")) lon
  unfolding from_env configured env_or env_double
  from_env-number_settings = (
    env_int-seeded "SEAT_NO" (pos 4),
    env_double-seeded "START_LAT" lat,
    env_double-seeded "START_LON" lon,
  )

  -- When the setting MQTT_PORT is a text of decimal digits, the MQTT port is their number modulo
  -- 65536, and 1883 when the number is no int.
  pub from_env-mqtt_port :
      (digits : String)
      → setting files env "MQTT_PORT" ≡ some digits
      → AllCodes is_digit digits
      → (from_env stod lat lon files env).mqtt_port
        ≡ (if ltb (value digits) (2 ^ 31) then value digits % 2 ^ 16 else 1883)
  unfolding from_env configured env_or
  from_env-mqtt_port digits h a =
      let v =
        or_else (find "MQTT_PORT" env)
          (find "MQTT_PORT" (file_settings (files (env_or "GATEWAY_ENV_FILE" ".env" env)))) in
      ap to_uint16 (env_int-seeded "MQTT_PORT" (pos 1883))
      ∙ rw (h, stoi-digits digits (filled-ne_none v digits h) a) (port_of_int (value digits))
