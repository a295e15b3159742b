-- ===== src/Mqtt/Tests.antt =====
-- The MQTT client at concrete inputs.
use iv_cloud_gateway.Base.{ℕ, ◌≡◌, refl, true, false, [], ◌∷◌, some}
use iv_cloud_gateway.Mqtt.{
  MqttClient, new_client, start, subscribe, starts, subscribes, Reach, here, next,
}
use iv_cloud_gateway.Mqtt.Topics.{Uptime, begun, goes_on, Kept, subscribe-Kept}

abbrev Client : Type 0
Client = MqttClient ℕ ℕ

abbrev first : Client
first = new_client "localhost" 1883 "gateway"

abbrev asked : Client
asked = subscribe "a" first

abbrev on : Client
on = start asked

up : Uptime asked on
unfolding start subscribe new_client
up = goes_on begun (starts refl) refl

subscribe-Kept_example : Kept "a" on
subscribe-Kept_example = subscribe-Kept "a" "localhost" 1883 "gateway" here up

reached : Reach first on
reached = next (next here (subscribes "a" refl)) (starts refl)

-- Subscribed to a topic, nothing pending.
abbrev settled : Client
settled = record first {
  started = true;
  session = some (record {
    brokers = ("localhost", 1883);
    credentials = "gateway";
    asked = "a" ∷ [];
    outstanding = [];
    subscribed = "a" ∷ [];
    published = [];
    tasks = [];
    receives = 1;
  });
}

settled_state : (settled.started ≡ true) × (settled.stopped ≡ false) × (settled.pending_topics ≡ [])
unfolding new_client
settled_state = (refl, refl, refl)
