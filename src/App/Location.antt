-- ===== src/App/Location.antt =====
-- src/main.cpp: the subscriber of "autoware/location".
use iv_cloud_gateway.Base.{String, [], ◌∷◌, Option, none, some, Result, ok, err, ◌>>=◌}
use iv_cloud_gateway.Infra.Topics
use iv_cloud_gateway.Json.{Json, or_throw, parsed}

module _ (J : Json) where
  open J use {Text, Value, string, object}

  index : Value → String → Result Value
  index j key = or_throw (J.index j key)

  -- The message that the subscriber builds from a sample.
  unfoldable pub location_message : String → Text → Result Text
  unfolding index
  location_message vin sample = do
    j ← parsed J sample
    latitude ← index j "latitude"
    longitude ← index j "longitude"
    trip_id ← index j "tripId"
    or_throw (
        J.dump (
          object (
            ("vinNumber", string vin)
            ∷ ("latitude", latitude)
            ∷ ("longitude", longitude)
            ∷ ("tripId", trip_id)
            ∷ [])))

  published : Result Text → Option (String × Text)
  published (ok payload) = some (Topics.stream_location, payload)
  published (err e) = none

  -- What is published for a sample; an exception is caught, and nothing is.
  unfoldable pub on_location : String → Text → Option (String × Text)
  unfolding location_message published
  on_location vin sample = published (location_message vin sample)
