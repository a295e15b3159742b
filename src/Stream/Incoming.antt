-- ===== src/Stream/Incoming.antt =====
-- `VehicleStreamHandler::handle_incoming`, and `Proceed` as a whole.
use iv_cloud_gateway.Base.{
  ℕ, Bool, true, false, String, [], ◌∷◌, ◌++◌, Option, none, some, Result, ok, err, dangling, ◌>>=◌,
}
use iv_cloud_gateway.Infra.Topics
use iv_cloud_gateway.Json.{Json, or_throw}
use iv_cloud_gateway.Proto.{GatewayCommand, VehicleEvent, eta, status, arrive, location}
use iv_cloud_gateway.Stream.{
  State, create, accepting, reading, finish, read, World, delete, proceed_create, accept,
  disconnect, release, go_on,
}

module _ (J : Json) where
  open J use {Double, Text, Value, dump, string, int64, double, object}

  abbrev pub Gateway : Type 0
  Gateway = World (GatewayCommand Double) Text

  -- The topic and the document of an event that is passed on; an acknowledgement is only logged.
  unfoldable pub report : VehicleEvent Double → Option (String × Value)
  report (eta r) = some (
    Topics.trip_eta,
    object (
        ("vinNumber", string r.vin_number)
        ∷ ("requestId", int64 r.request_id)
        ∷ ("estimatedFare", double r.fare)
        ∷ ("estimatedTime", double r.time)
        ∷ ("status", string r.status)
        ∷ []),
  )
  report (status r) = some (
    Topics.trip_status,
    object (
        ("vinNumber", string r.vin_number)
        ∷ ("tripId", int64 r.trip_id)
        ∷ ("tripStatus", string r.status)
        ∷ []),
  )
  report (arrive r) = some (
    Topics.trip_arrive,
    object (
        ("vinNumber", string r.vin_number)
        ∷ ("tripId", int64 r.trip_id)
        ∷ ("longitude", double r.long)
        ∷ ("latitude", double r.lat)
        ∷ []),
  )
  report (location r) = some (
    Topics.update_location,
    object (
        ("vinNumber", string r.vin_number)
        ∷ ("latitude", double r.latitude)
        ∷ ("longitude", double r.longitude)
        ∷ []),
  )
  report _ = none

  unfoldable pub publish : Option (String × Value) → Gateway → Result Gateway
  publish none w = ok w
  publish (some (topic, j)) w = do
    payload ← or_throw (dump j)
    ok (record w { published = w.published ++ (topic, payload) ∷ [] })

  unfoldable pub handle_incoming : VehicleEvent Double → Gateway → Result Gateway
  unfolding report publish
  handle_incoming ev w = publish (report ev) w

  unfoldable pub proceed_in : State → ℕ → Bool → VehicleEvent Double → Gateway → Result Gateway
  unfolding accept disconnect release proceed_create handle_incoming go_on
  proceed_in create id success ev w = elim (w.heap id) [
    | none ↦ err dangling
    | some h ↦ ok (proceed_create id h w)
  ]
  proceed_in accepting id false ev w = ok (delete id w)
  proceed_in accepting id true ev w = accept id w
  proceed_in reading id false ev w = ok (disconnect id w)
  proceed_in reading id true ev w = do w' ← handle_incoming ev w; ok (go_on id reading (read id) w')
  proceed_in finish id success ev w = ok (release id w)

  -- `ev` is what gRPC has put into `incoming_`.
  unfoldable pub proceed : ℕ → Bool → VehicleEvent Double → Gateway → Result Gateway
  unfolding proceed_in
  proceed id success ev w = elim (w.heap id) [
    | none ↦ err dangling
    | some h ↦ proceed_in h.state id success ev w
  ]
