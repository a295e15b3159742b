-- ===== src/App/EndToEnd.antt =====
-- An order of the backend, from the MQTT message to the stream of the vehicle.
use iv_cloud_gateway.Base.{
  ◌≡◌, refl, ◌∙◌, ap, ok, List, [], ◌∷◌, ◌++◌, Option, none, some, ℕ, sym, subst, Option-cases, inl,
  inr,
}
use mathlib.Core.List.{append_assoc}
use iv_cloud_gateway.Json.{Json}
use iv_cloud_gateway.Proto.{GatewayCommand}
use iv_cloud_gateway.Stream.{World, accepting, Handler, push_command}
use iv_cloud_gateway.Stream.Incoming.{Gateway}
use iv_cloud_gateway.Stream.Steps.{pushed, start}
use iv_cloud_gateway.Stream.Order.{sent}
use iv_cloud_gateway.Stream.Tags.{Inv}
use iv_cloud_gateway.Stream.Live.{Step-Inv}
use iv_cloud_gateway.Stream.Delivery.{line_of, parked, push_parked}
use iv_cloud_gateway.Stream.Drain.{Driven, pushed_is_sent, pending_is_sent}
use iv_cloud_gateway.Stream.Waiting.{Serving, Serving-Waits}
use iv_cloud_gateway.Router.{dispatch}
use iv_cloud_gateway.App.{Gate, main_callbacks, main_router}
use iv_cloud_gateway.App.Orders.{Order, topic_of, translate, remember, dispatch-translate}

append-cases :
    {C : Type 0} (xs : List C) (c : C) → (y : C) × (ys : List C) × (xs ++ c ∷ [] ≡ y ∷ ys)
append-cases [] c = (c, [], refl)
append-cases (x ∷ xs) c = (x, xs ++ c ∷ [], refl)

module _ {C T : Type 0} where
  -- What is to be written to the stream of handler `id`, which is active or will be the next one.
  abbrev pub due : Option ℕ → ℕ → World C T → List C
  due none id w = line_of id w ++ w.pending
  due (some a) id w = line_of id w

-- A command goes to the active handler, if there is one.
abbrev pub IsReceiver : Option ℕ → ℕ → Type 0
IsReceiver none id = Unit
IsReceiver (some a) id = id ≡ a

module _ (J : Json) where
  open J use {Text, Double}

  -- The gate after an order has been handed to the stream.
  abbrev pub handed : GatewayCommand Double → Gate J → Gateway J → Gate J
  handed c s u = record { orchestrator = remember J c s.orchestrator; world = u }

  dispatch-handed :
      (k : Order) (payload : Text) (c : GatewayCommand Double) (s : Gate J) (u : Gateway J)
      → s.orchestrator.trip_callbacks ≡ main_callbacks J
      → translate J k payload ≡ ok c
      → push_command c s.world ≡ ok u
      → dispatch (topic_of k) payload (main_router J) s ≡ (handed c s u, ok tt)
  dispatch-handed k payload c s u wired read done =
      rw (dispatch-translate J k payload s wired, read, done) refl

  -- With the routes and the callbacks of `main`, the accounts of the stream in order, no handler
  -- active and a handler that waits for a connection: a message on the topic of an order whose
  -- payload reads as that order is handled to its end, the id of its command is remembered, and
  -- from there the gateway can reach, by steps that push no command, a world in which that handler
  -- is active, the command has been written to its stream after the handler's own line and all that
  -- was pending before, and nothing is pending.
  order_waits_and_is_sent :
      (k : Order) (payload : Text) (c : GatewayCommand Double) (id : ℕ)
      (h : Handler (GatewayCommand Double)) (s : Gate J)
      → s.orchestrator.trip_callbacks ≡ main_callbacks J
      → Inv s.world
      → s.world.active ≡ none
      → s.world.heap id ≡ some h
      → h.state ≡ accepting
      → translate J k payload ≡ ok c
      → (u : Gateway J) × (v : Gateway J) × (dispatch (topic_of k) payload (main_router J) s
          ≡ (handed c s u, ok tt))
        × (push_command c s.world ≡ ok u)
        × Driven J u v
        × (sent id v.grpc.calls ≡ line_of id s.world ++ (s.world.pending ++ c ∷ []))
        × (v.active ≡ some id)
        × (v.pending ≡ [])
  order_waits_and_is_sent k payload c id h s wired i idle live waits read =
      let u = parked c s.world in
      let done = push_parked c s.world idle in
      let (y, ys, e) = append-cases s.world.pending c in
      let (v, r, all, empty, on, none_left) =
        pending_is_sent J id y ys u h (Step-Inv J (pushed c done) i) live waits e in
      (
        u,
        v,
        dispatch-handed k payload c s u wired read done,
        done,
        r,
        all ∙ ap (λ l. line_of id s.world ++ l) (sym e),
        on,
        none_left,
      )

  -- With the routes and the callbacks of `main`, and a stream that has come from its start by any
  -- steps in which no request for a connection failed: a message on the topic of an order whose
  -- payload reads as that order is handled to its end: the id of its command is remembered and the
  -- command is pushed, and from there the gateway can reach, by steps that push no command, a world
  -- in which some handler is active and the command has been written to its stream after all that
  -- was due there before: what had been written or waited in its queue and, if no handler was
  -- active, what was pending. If one was active, it is that one.
  pub every_order_is_sent :
      (k : Order) (payload : Text) (c : GatewayCommand Double) (s : Gate J)
      → s.orchestrator.trip_callbacks ≡ main_callbacks J
      → Serving J start s.world
      → translate J k payload ≡ ok c
      → (u : Gateway J) × (v : Gateway J) × (id : ℕ) × (dispatch
            (topic_of k)
            payload
            (main_router J)
            s
          ≡ (handed c s u, ok tt))
        × (push_command c s.world ≡ ok u)
        × Driven J u v
        × (v.active ≡ some id)
        × (sent id v.grpc.calls ≡ due s.world.active id s.world ++ c ∷ [])
        × IsReceiver s.world.active id
  every_order_is_sent k payload c s wired run read =
      let (i, (a, h, live, waits)) = Serving-Waits J run in
      elim (Option-cases s.world.active) [
        | inl idle ↦
            let (u, v, handled, done, later, all, on, none_left) =
              order_waits_and_is_sent k payload c a h s wired i idle live waits read in
            let joined = append_assoc (line_of a s.world) s.world.pending (c ∷ []) in
            (
              u,
              v,
              a,
              handled,
              done,
              later,
              on,
              subst (λ r. sent a v.grpc.calls ≡ due r a s.world ++ c ∷ []) (sym idle)
                  (all ∙ sym joined),
              subst (λ r. IsReceiver r a) (sym idle) tt,
            )
        | inr (id, now) ↦
            let (u, v, done, later, all, empty, on, same) = pushed_is_sent J id c s.world i now in
            let handled = dispatch-handed k payload c s u wired read done in
            (
              u,
              v,
              id,
              handled,
              done,
              later,
              on,
              subst (λ r. sent id v.grpc.calls ≡ due r id s.world ++ c ∷ []) (sym now) all,
              subst (λ r. IsReceiver r id) (sym now) refl,
            )
      ]
