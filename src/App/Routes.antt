-- ===== src/App/Routes.antt =====
-- src/main.cpp: the topics that main subscribes, the routes, and the way of a message between them.
use iv_cloud_gateway.Base.{
  ◌≡◌, refl, sym, ◌∙◌, ap, inl, inr, Bool, true, false, ◌||◌, String, List, [], ◌∷◌, ◌++◌, Option,
  none, some, arith, str_eq, map,
}
use iv_cloud_gateway.Infra.Config.{Config}
use iv_cloud_gateway.Json.{Json, find}
use iv_cloud_gateway.Mqtt.{
  Task, flush, subscribe_to, Session, new_client, start, stop, publish, subscribe,
  set_message_handler, flush_topics, run_task, on_receive, Step, starts, stops, publishes,
  subscribes, handles, runs, receives, completes,
}
use iv_cloud_gateway.Mqtt.Sound.{IsSound}
use iv_cloud_gateway.Mqtt.Topics.{Kept, Uptime, Uptime-Kept}
use iv_cloud_gateway.Router.{on}
use iv_cloud_gateway.App.{Gate, main_callbacks, main_router}
use iv_cloud_gateway.App.Orders.{
  Order, init, move, park, location, status, cancel, topic_of, translate, obeyed,
  dispatch-translate,
}
use iv_cloud_gateway.App.Startup.{Handler, Mqtt, message_handler, subscribe_orders, connected}

abbrev pub orders : List Order
orders = init ∷ move ∷ park ∷ location ∷ status ∷ cancel ∷ []

abbrev pub order_topics : List String
order_topics = map topic_of orders

abbrev pub present : {A : Type 0} → Option A → Bool
present none = false
present (some a) = true

abbrev pub elem : String → List String → Bool
elem t [] = false
elem t (x ∷ xs) = str_eq x t || elem t xs

module _ (J : Json) where
  open J use {Text, Double}

  -- The topics that have a route are those of the orders.
  pub main_router-topics :
      (t : String) → present (find t (main_router J).handlers) ≡ elem t order_topics
  unfolding main_router on
  main_router-topics t = ground arith

  connected-IsSound : (config : Config Double) → IsSound (connected J config)
  unfolding connected subscribe_orders subscribe set_message_handler new_client start
  connected-IsSound config = (refl, refl)

  connected-Kept : (config : Config Double) (k : Order) → Kept (topic_of k) (connected J config)
  unfolding connected subscribe_orders subscribe set_message_handler new_client start
  connected-Kept config init = inr (inl (inl (inl refl)))
  connected-Kept config move = inr (inl (inl (inr (inl refl))))
  connected-Kept config park = inr (inl (inl (inr (inr (inl refl)))))
  connected-Kept config location = inr (inl (inl (inr (inr (inr (inl refl))))))
  connected-Kept config status = inr (inl (inl (inr (inr (inr (inr (inl refl)))))))
  connected-Kept config cancel = inr (inl (inl (inr (inr (inr (inr (inr (inl refl))))))))

  -- While it is not stopped, the client that main starts has asked for each topic of an order, or a
  -- task is posted that will.
  pub order-Kept :
      {v : Mqtt J} (config : Config Double) (k : Order)
      → Uptime (connected J config) v
      → Kept (topic_of k) v
  order-Kept config k u =
      Uptime-Kept (topic_of k) u (connected-IsSound config) (connected-Kept config k)

  -- A step that is no call of `set_message_handler`.
  abbrev pub quiet : {c v : Mqtt J} → Step c v → Bool
  quiet (starts e) = true
  quiet (stops e) = true
  quiet (publishes t p e) = true
  quiet (subscribes t e) = true
  quiet (handles h e) = false
  quiet (runs t rest s at todo e) = true
  quiet (receives b t p s at due e) = true
  quiet (completes b t before after s at due e) = true

  pub data Later (c : Mqtt J) : Mqtt J → Type 0 where
    at_once : Later c c
    later : {u v : Mqtt J} → Later c u → (st : Step u v) → quiet st ≡ true → Later c v

  start-cb : (c : Mqtt J) → (start c).cb ≡ c.cb
  unfolding start
  start-cb c = ground arith

  stop-cb : (c : Mqtt J) → (stop c).cb ≡ c.cb
  unfolding stop
  stop-cb c = ground arith

  publish-cb : (t : String) (p : Text) (c : Mqtt J) → (publish t p c).0.cb ≡ c.cb
  unfolding publish
  publish-cb t p c = ground arith

  subscribe-cb : (t : String) (c : Mqtt J) → (subscribe t c).cb ≡ c.cb
  unfolding subscribe
  subscribe-cb t c = ground arith

  run_task-cb : (t : Task) (c : Mqtt J) (s : Session Text) → (run_task t c s).cb ≡ c.cb
  unfolding run_task flush_topics
  run_task-cb flush c s = refl
  run_task-cb (subscribe_to t) c s = refl

  on_receive-cb :
      (b : Bool) (t : String) (p : Text) (c : Mqtt J) (s : Session Text)
      → (on_receive b t p c s).cb ≡ c.cb
  unfolding on_receive flush_topics
  on_receive-cb false t p c s = ground arith
  on_receive-cb true t p c s = ground arith

  Step-cb : {c v : Mqtt J} (st : Step c v) → quiet st ≡ true → v.cb ≡ c.cb
  Step-cb {c} (starts e) q = ap (λ v. v.cb) (sym e) ∙ start-cb c
  Step-cb {c} (stops e) q = ap (λ v. v.cb) (sym e) ∙ stop-cb c
  Step-cb {c} (publishes t p e) q = ap (λ v. v.cb) (sym e) ∙ publish-cb t p c
  Step-cb {c} (subscribes t e) q = ap (λ v. v.cb) (sym e) ∙ subscribe-cb t c
  Step-cb {c} (handles h e) q = cc
  Step-cb {c} (runs t rest s at todo e) q = ap (λ v. v.cb) (sym e) ∙ run_task-cb t c _
  Step-cb {c} (receives b t p s at due e) q = ap (λ v. v.cb) (sym e) ∙ on_receive-cb b t p c _
  Step-cb {c} (completes b t before after s at due e) q = ap (λ v. v.cb) (sym e)

  Later-cb :
      (config : Config Double) {c : Mqtt J}
      → Later (connected J config) c
      → c.cb ≡ some (message_handler J)
  unfolding connected subscribe_orders subscribe set_message_handler new_client start
  Later-cb config at_once = refl
  Later-cb config (later l st q) = Step-cb st q ∙ Later-cb config l

  receive-handled :
      (t : String) (payload : Text) (h : Handler J) (c : Mqtt J) (s : Session Text)
      → c.cb ≡ some h
      → (on_receive true t payload c s).handled ≡ c.handled ++ (h, t, payload) ∷ []
  unfolding on_receive flush_topics
  receive-handled t payload h c s e = ground arith

  -- With main's callbacks in the orchestrator, and after whatever the client that main starts has
  -- gone through but another call of `set_message_handler`, a message that it receives on the topic
  -- of an order is handed to main's handler once, and this does what the specification of the order
  -- says.
  pub order_handled :
      {c : Mqtt J} (config : Config Double) (k : Order) (payload : Text) (s : Session Text)
      (gate : Gate J)
      → Later (connected J config) c
      → gate.orchestrator.trip_callbacks ≡ main_callbacks J
      → ((on_receive true (topic_of k) payload c s).handled
          ≡ c.handled ++ (message_handler J, topic_of k, payload) ∷ [])
        × (message_handler J (topic_of k) payload gate ≡ obeyed J gate (translate J k payload))
  unfolding message_handler
  order_handled {c} config k payload s gate l wired = (
    receive-handled (topic_of k) payload (message_handler J) c s (Later-cb config l),
    dispatch-translate J k payload gate wired,
  )
