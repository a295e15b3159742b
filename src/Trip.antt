-- ===== src/Trip.antt =====
-- src/application/trip_orchestrator.h and .cc. `S` is the state that the callbacks work on.
pub mod Double
pub mod Ids
mod Tests
use iv_cloud_gateway.Base.{ℤ, pos, String, Option, none, some, Result, ok}
use iv_cloud_gateway.Base.Effects.{Act, pure, lift, modify, ◌>>=◌, ◌>>◌}
use iv_cloud_gateway.Json.{Json, parsed, at_string, at_int64, at_double}
use Double.{to_double, to_int64}

-- An empty std::function is `none`.
pub record TripCallbacks (D S : Type 0) : Type 0 where
  pub on_trip_init : Option (String → ℤ → D → D → D → D → Act S (Unit {0}))
  pub on_trip_move : Option (String → ℤ → D → D → Act S (Unit {0}))
  pub on_trip_park : Option (String → D → D → Act S (Unit {0}))
  pub on_order_update_location : Option (String → Act S (Unit {0}))
  pub on_order_update_status : Option (String → Act S (Unit {0}))
  pub on_trip_cancel : Option (String → ℤ → Act S (Unit {0}))

-- `request_id_` is a std::atomic<double>: the integer that it holds.
pub record TripOrchestrator (D S : Type 0) : Type 0 where
  pub vin_number : String
  pub trip_callbacks : TripCallbacks D S
  pub trip_id : ℤ
  pub request_id : ℤ

-- The orchestrator, and what its callbacks change.
pub record State (D S : Type 0) : Type 0 where
  pub orchestrator : TripOrchestrator D S
  pub world : S

no_callbacks : {D S : Type 0} → TripCallbacks D S
no_callbacks = record {
  on_trip_init = none;
  on_trip_move = none;
  on_trip_park = none;
  on_order_update_location = none;
  on_order_update_status = none;
  on_trip_cancel = none;
}

module _ {D S : Type 0} where
  -- The constructor.
  unfoldable pub new_orchestrator : String → TripOrchestrator D S
  unfolding no_callbacks
  new_orchestrator vin = record {
    vin_number = vin;
    trip_callbacks = no_callbacks;
    trip_id = pos 0;
    request_id = pos 0;
  }

  unfoldable pub set_callbacks : TripCallbacks D S → TripOrchestrator D S → TripOrchestrator D S
  set_callbacks callbacks o = record o { trip_callbacks = callbacks }

  unfoldable pub active_trip_id : TripOrchestrator D S → ℤ
  active_trip_id o = o.trip_id

  -- The double is converted back to an int64_t.
  unfoldable pub active_request_id : TripOrchestrator D S → Option ℤ
  active_request_id o = to_int64 o.request_id

  unfoldable pub vin : TripOrchestrator D S → String
  vin o = o.vin_number

  unfoldable pub set_trip_id : ℤ → TripOrchestrator D S → TripOrchestrator D S
  set_trip_id id o = record o { trip_id = id }

  abbrev pub store_request_id : ℤ → State D S → State D S
  store_request_id n s = record s {
    orchestrator = record (s.orchestrator) { request_id = to_double n };
  }

  abbrev pub store_trip_id : ℤ → State D S → State D S
  store_trip_id n s = record s { orchestrator = record (s.orchestrator) { trip_id = n } }

  abbrev with_world : State D S → S × Result (Unit {0}) → State D S × Result (Unit {0})
  with_world s (w, r) = (record s { world = w }, r)

  -- `if (callback) callback(...)`: what a callback has changed stays changed if it throws.
  abbrev called : {F : Type 0} → Option F → (F → Act S (Unit {0})) → Act (State D S) (Unit {0})
  called none call s = (s, ok tt)
  called (some f) call s = with_world s (call f s.world)

  abbrev pub callbacks_of : State D S → TripCallbacks D S
  callbacks_of s = s.orchestrator.trip_callbacks

module _ (J : Json) {S : Type 0} where
  open J use {Text, Double}

  unfoldable pub handle_trip_init : Text → Act (State Double S) (Unit {0})
  handle_trip_init payload = do
    j ← lift (parsed J payload)
    vin ← lift (at_string J j "vinNumber")
    request_id ← lift (at_int64 J j "requestId")
    start_lon ← lift (at_double J j "startLong")
    start_lat ← lift (at_double J j "startLat")
    end_lon ← lift (at_double J j "endLong")
    end_lat ← lift (at_double J j "endLat")
    modify (store_request_id request_id)
    λ s.
        called (callbacks_of s).on_trip_init
          (λ f. f vin request_id start_lat start_lon end_lat end_lon) s

  unfoldable pub handle_trip_move : Text → Act (State Double S) (Unit {0})
  handle_trip_move payload = do
    j ← lift (parsed J payload)
    vin ← lift (at_string J j "vinNumber")
    trip_id ← lift (at_int64 J j "tripId")
    lon ← lift (at_double J j "longitude")
    lat ← lift (at_double J j "latitude")
    modify (store_trip_id trip_id)
    λ s. called (callbacks_of s).on_trip_move (λ f. f vin trip_id lat lon) s

  unfoldable pub handle_trip_park : Text → Act (State Double S) (Unit {0})
  handle_trip_park payload = do
    j ← lift (parsed J payload)
    vin ← lift (at_string J j "vinNumber")
    lon ← lift (at_double J j "longitude")
    lat ← lift (at_double J j "latitude")
    λ s. called (callbacks_of s).on_trip_park (λ f. f vin lon lat) s

  unfoldable pub handle_order_update_location : Text → Act (State Double S) (Unit {0})
  handle_order_update_location payload = do
    j ← lift (parsed J payload)
    vin ← lift (at_string J j "vinNumber")
    λ s. called (callbacks_of s).on_order_update_location (λ f. f vin) s

  unfoldable pub handle_order_update_status : Text → Act (State Double S) (Unit {0})
  handle_order_update_status payload = do
    j ← lift (parsed J payload)
    vin ← lift (at_string J j "vinNumber")
    λ s. called (callbacks_of s).on_order_update_status (λ f. f vin) s

  unfoldable pub handle_trip_cancel : Text → Act (State Double S) (Unit {0})
  handle_trip_cancel payload = do
    j ← lift (parsed J payload)
    vin ← lift (at_string J j "vinNumber")
    request_id ← lift (at_int64 J j "requestId")
    λ s. called (callbacks_of s).on_trip_cancel (λ f. f vin request_id) s
