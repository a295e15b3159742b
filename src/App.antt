-- ===== src/App.antt =====
-- src/main.cpp: the callbacks that turn an order of the backend into a command for the vehicle, the
-- routes. `Location` has the reports that come in over zenoh.
pub mod Orders
pub mod Location
pub mod Startup
pub mod Routes
pub mod Announce
pub mod AnyTopic
pub mod Main
pub mod Messages
pub mod Traffic
pub mod EndToEnd
pub mod Reports
pub mod Documents
pub mod Tracking
mod Examples
mod Tests
use iv_cloud_gateway.Base.{[], some, Result, ok, err}
use iv_cloud_gateway.Base.Effects.{Act}
use iv_cloud_gateway.Infra.Topics
use iv_cloud_gateway.Json.{Json}
use iv_cloud_gateway.Proto.{
  GatewayCommand, trip_init, trip_move, trip_park, order_update_location, order_update_status,
  trip_cancel,
}
use iv_cloud_gateway.Stream.{push_command}
use iv_cloud_gateway.Stream.Incoming.{Gateway}
use iv_cloud_gateway.Trip.{
  TripCallbacks, State, handle_trip_init, handle_trip_move, handle_trip_park,
  handle_order_update_location, handle_order_update_status, handle_trip_cancel,
}
use iv_cloud_gateway.Router.{MqttRouter, on}

module _ (J : Json) where
  open J use {Text, Double}

  abbrev pub Gate : Type 0
  Gate = State Double (Gateway J)

  abbrev pub stored : Gateway J → Result (Gateway J) → Gateway J × Result (Unit {0})
  stored w (ok w') = (w', ok tt)
  stored w (err e) = (w, err e)

  -- `VehicleStreamHandler::push_command` as a callback runs it.
  unfoldable pub push : GatewayCommand Double → Act (Gateway J) (Unit {0})
  push cmd w = stored w (push_command cmd w)

  -- The argument of `set_callbacks`.
  unfoldable pub main_callbacks : TripCallbacks Double (Gateway J)
  unfolding push
  main_callbacks = record {
    on_trip_init = some (λ vin req_id s_lat s_lon e_lat e_lon. push (
        trip_init (record {
          vin_number = vin;
          request_id = req_id;
          start_lat = s_lat;
          start_long = s_lon;
          end_lat = e_lat;
          end_long = e_lon;
        })));
    on_trip_move = some (λ vin id lat lon.
        push
          (trip_move (record { vin_number = vin; trip_id = id; latitude = lat; longitude = lon })));
    on_trip_park = some (λ vin lon lat.
        push (trip_park (record { vin_number = vin; latitude = lat; longitude = lon })));
    on_order_update_location =
        some (λ vin. push (order_update_location (record { vin_number = vin })));
    on_order_update_status = some (λ vin. push (order_update_status (record { vin_number = vin })));
    on_trip_cancel =
        some (λ vin id. push (trip_cancel (record { vin_number = vin; request_id = id })));
  }

  -- The calls of `router.on`.
  unfoldable pub main_router : MqttRouter Text Gate
  unfolding on
  main_router = on Topics.trip_cancel (handle_trip_cancel J) (
      on Topics.order_update_status (handle_order_update_status J) (
        on Topics.order_update_location (handle_order_update_location J) (
          on Topics.trip_park (handle_trip_park J) (
            on Topics.trip_move (handle_trip_move J)
              (on Topics.trip_init (handle_trip_init J) (record { handlers = [] }))))))
