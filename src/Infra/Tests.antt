-- ===== src/Infra/Tests.antt =====
-- Test data and runs for the settings.
use iv_cloud_gateway.Base.{
  ℕ, negsuc, ◌≡◌, refl, String, Option, none, some, [], ◌∷◌, All, str_eq, ltb, if◌then◌else◌, ◌%◌,
  ◌^◌,
}
use iv_cloud_gateway.Json.{find}
use iv_cloud_gateway.Infra.Config.{Config}
use iv_cloud_gateway.Infra.Dotenv.{Environment, load_dotenv, lines, parse_line}
use iv_cloud_gateway.Infra.Dotenv.Lookup.{or_else, file_settings, find-load_dotenv}
use iv_cloud_gateway.Infra.Dotenv.RoundTrip.{file_of, file_settings-file_of}
use iv_cloud_gateway.Infra.Env.{with_default, default_config, from_env}
use iv_cloud_gateway.Infra.Env.Numbers.{value}
use iv_cloud_gateway.Infra.Env.Settings.{
  setting, text_settings, from_env-text_settings, from_env-mqtt_port,
}

abbrev sample : String
sample =
    "# a comment\n\n  MQTT_BROKER = \"broker one\" \r\nMQTT_PORT=70000\nMQTT_BROKER=other\nCOLOR=red\nno setting\n=none"

abbrev shell : Environment
shell = ("COLOR", "") ∷ ("SEAT_NO", "-2x") ∷ []

abbrev disk : String → Option String
disk path = if str_eq path ".env" then some sample else none

abbrev no_double : String → Option ℕ
no_double s = none

abbrev read_config : Config ℕ
read_config = from_env no_double 35 139 disk shell

-- A blank after the '=' stays in the value, and the quotes with it.
file_settings-sample :
    file_settings (some sample)
    ≡ ("MQTT_BROKER", " \"broker one\"")
      ∷ ("MQTT_PORT", "70000")
      ∷ ("MQTT_BROKER", "other")
      ∷ ("COLOR", "red")
      ∷ []
unfolding lines parse_line
file_settings-sample = refl

find-load_dotenv_example :
    find "COLOR" (load_dotenv (some sample) shell)
    ≡ or_else (find "COLOR" shell) (find "COLOR" (file_settings (some sample)))
find-load_dotenv_example = find-load_dotenv "COLOR" (some sample) shell

abbrev two_settings : Environment
two_settings = ("MODEL", "\"=# ") ∷ ("COLOR", "") ∷ []

file_settings-file_of_example : file_settings (some (file_of two_settings)) ≡ two_settings
file_settings-file_of_example = file_settings-file_of two_settings (
  (refl, (refl, (refl, (refl, (refl, (refl, tt))))), (refl, (refl, (refl, (refl, tt))))),
  ((refl, (refl, (refl, (refl, (refl, (refl, tt))))), tt), tt),
)

-- A variable that is set to nothing hides the file's line, and the default stands.
read_color : read_config.color ≡ ""
unfolding from_env parse_line
read_color = refl

-- The port 70000 of the file is taken as 4464.
read_mqtt_port : read_config.mqtt_port ≡ 4464
unfolding from_env parse_line
read_mqtt_port = refl

read_seat_no : read_config.seat_no ≡ negsuc 1
unfolding from_env parse_line
read_seat_no = refl

from_env-text_settings_example :
    All
      (λ (key, field).
        field read_config ≡ with_default (setting disk shell key) (field (default_config 35 139)))
      text_settings
from_env-text_settings_example = from_env-text_settings no_double 35 139 disk shell

from_env-mqtt_port_example :
    read_config.mqtt_port ≡ (if ltb (value "70000") (2 ^ 31) then value "70000" % 2 ^ 16 else 1883)
unfolding lines parse_line
from_env-mqtt_port_example =
    from_env-mqtt_port no_double 35 139 disk shell "70000" refl
      (refl, (refl, (refl, (refl, (refl, tt)))))
