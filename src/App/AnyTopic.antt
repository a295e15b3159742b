-- ===== src/App/AnyTopic.antt =====
-- src/main.cpp: a message on any topic, whether or not it is that of an order.
use mathlib.Core.Option.{map}
use iv_cloud_gateway.Base.{
  ◌≡◌, refl, ◌∙◌, ap, String, List, [], ◌∷◌, Option, none, some, Result, ok, arith,
}
use iv_cloud_gateway.Base.Effects.{Act}
use iv_cloud_gateway.Json.{Json, find}
use iv_cloud_gateway.Router.{dispatch, dispatch_to, on}
use iv_cloud_gateway.Trip.{
  handle_trip_init, handle_trip_move, handle_trip_park, handle_order_update_location,
  handle_order_update_status, handle_trip_cancel,
}
use iv_cloud_gateway.App.{Gate, main_callbacks, main_router}
use iv_cloud_gateway.App.Orders.{
  Order, init, move, park, location, status, cancel, topic_of, translate, obeyed, init-translate,
  move-translate, park-translate, location-translate, status-translate, cancel-translate,
}
use iv_cloud_gateway.App.Routes.{orders}

keyed : {A : Type 0} → (Order → A) → List Order → List (String × A)
keyed f [] = []
keyed f (k ∷ ks) = (topic_of k, f k) ∷ keyed f ks

-- The order that a topic stands for, if it does.
unfoldable pub order_at : String → Option Order
unfolding keyed
order_at topic = find topic (keyed (λ k. k) orders)

pub order_at-topic_of : (k : Order) → order_at (topic_of k) ≡ some k
unfolding order_at keyed
order_at-topic_of init = refl
order_at-topic_of move = refl
order_at-topic_of park = refl
order_at-topic_of location = refl
order_at-topic_of status = refl
order_at-topic_of cancel = refl

find-keyed :
    {A : Type 0} (f : Order → A) (topic : String) (ks : List Order)
    → find topic (keyed f ks) ≡ map f (find topic (keyed (λ k. k) ks))
unfolding keyed
find-keyed f topic [] = refl
find-keyed f topic (k ∷ ks) = ground (arith, find-keyed f topic ks)

module _ (J : Json) where
  open J use {Text}

  handler_of : Order → Text → Act (Gate J) (Unit {0})
  handler_of init = handle_trip_init J
  handler_of move = handle_trip_move J
  handler_of park = handle_trip_park J
  handler_of location = handle_order_update_location J
  handler_of status = handle_order_update_status J
  handler_of cancel = handle_trip_cancel J

  routes : (main_router J).handlers ≡ keyed handler_of orders
  unfolding main_router on keyed handler_of
  routes = refl

  -- What a message should do: nothing, on a topic that is no order's.
  abbrev pub obeyed_at : Option Order → Text → Gate J → Gate J × Result (Unit {0})
  obeyed_at none payload s = (s, ok tt)
  obeyed_at (some k) payload s = obeyed J s (translate J k payload)

  module _ (payload : Text) (s : Gate J)
      (wired : s.orchestrator.trip_callbacks ≡ main_callbacks J) where
    handled : (o : Option Order) → dispatch_to (map handler_of o) payload s ≡ obeyed_at o payload s
    unfolding dispatch_to handler_of
    handled none = refl
    handled (some init) = init-translate J payload s wired
    handled (some move) = move-translate J payload s wired
    handled (some park) = park-translate J payload s wired
    handled (some location) = location-translate J payload s wired
    handled (some status) = status-translate J payload s wired
    handled (some cancel) = cancel-translate J payload s wired

    -- With the routes and the callbacks of `main`, a message on any topic does what the
    -- specification of the order says that the topic stands for: a payload that does not read as
    -- the order changes nothing; any other becomes the command with its values, whose id is
    -- remembered and which is pushed to the vehicle. On a topic that stands for no order it does
    -- nothing.
    pub dispatch-order_at :
        (topic : String)
        → dispatch topic payload (main_router J) s ≡ obeyed_at (order_at topic) payload s
    unfolding dispatch order_at
    dispatch-order_at topic =
        ap (λ m. dispatch_to (find topic m) payload s) routes
        ∙ (ap (λ o. dispatch_to o payload s) (find-keyed handler_of topic orders)
            ∙ handled (order_at topic))
