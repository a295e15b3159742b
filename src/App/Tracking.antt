-- ===== src/App/Tracking.antt =====
-- src/main.cpp: the subscriber of "autoware/location" and the MQTT client to which it publishes.
use mathlib.Core.Option.{map}
use iv_cloud_gateway.Base.{◌≡◌, ◌∙◌, ap, String, List, [], ◌∷◌, Option, none, some}
use iv_cloud_gateway.Infra.Topics
use iv_cloud_gateway.Json.{Json, JsonLaws, find, or_null}
use iv_cloud_gateway.Mqtt.{publish}
use iv_cloud_gateway.Mqtt.Sound.{IsSound}
use iv_cloud_gateway.App.Location.{location_message, on_location}
use iv_cloud_gateway.App.Startup.{Mqtt}
use iv_cloud_gateway.App.Reports.{with_message, publish_sound}

module _ (J : Json) where
  open J use {Text, Value}

  abbrev publish_if : Option (String × Text) → Mqtt J → Mqtt J
  publish_if none c = c
  publish_if (some (topic, payload)) c = (publish topic payload c).0

  -- The callback of the subscriber; what the callback of the publication is told is only logged.
  unfoldable pub on_sample : String → Text → Mqtt J → Mqtt J
  unfolding on_location publish
  on_sample vin sample c = publish_if (on_location J vin sample) c

  -- The document that is published for a sample with these fields.
  abbrev pub tracked : String → List (String × Value) → Value
  tracked vin fields = J.object (
      ("vinNumber", J.string vin)
      ∷ ("latitude", or_null J.null (find "latitude" fields))
      ∷ ("longitude", or_null J.null (find "longitude" fields))
      ∷ ("tripId", or_null J.null (find "tripId" fields))
      ∷ [])

module _ (J : Json) (laws : JsonLaws J) where
  open J use {Text, Value}

  on_location-tracked :
      (vin : String) (sample payload : Text) (fields : List (String × Value))
      → J.parse sample ≡ some (J.object fields)
      → J.dump (tracked J vin fields) ≡ some payload
      → on_location J vin sample ≡ some (Topics.stream_location, payload)
  unfolding on_location location_message
  on_location-tracked vin sample payload fields parsed dumped =
      simp (parsed, laws.index-object, dumped)

  -- A sample is a JSON object, the document made of it can be serialised and the MQTT client is in
  -- a sound state: if the client has a session, the document is published in it, once; else nothing
  -- is published. The document has the gateway's VIN and the sample's latitude, longitude and
  -- tripId, where what the sample lacks is null; the client is otherwise left as it was.
  pub sample_published :
      (vin : String) (sample payload : Text) (fields : List (String × Value)) (c : Mqtt J)
      → J.parse sample ≡ some (J.object fields)
      → J.dump (tracked J vin fields) ≡ some payload
      → IsSound c
      → on_sample J vin sample c
        ≡ record c { session = map (with_message Topics.stream_location payload) c.session }
  unfolding on_sample
  sample_published vin sample payload fields c parsed dumped sound =
      ap (λ o. publish_if J o c) (on_location-tracked vin sample payload fields parsed dumped)
      ∙ publish_sound J Topics.stream_location payload c sound
