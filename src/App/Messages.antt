-- ===== src/App/Messages.antt =====
-- A run of MQTT messages, one after the other, through the routes and callbacks of src/main.cpp.
use iv_cloud_gateway.Base.{
  String, ℕ, ℤ, ◌≡◌, refl, sym, ◌∙◌, ap, List, [], ◌∷◌, ◌++◌, Option, none, some, Result, ok, err,
}
use iv_cloud_gateway.Base.Effects.{Act, pure, ◌>>◌}
use iv_cloud_gateway.Json.{Json}
use iv_cloud_gateway.Proto.{
  GatewayCommand, trip_init, trip_move, trip_park, order_update_location, order_update_status,
  trip_cancel,
}
use iv_cloud_gateway.Stream.Steps.{pushed}
use iv_cloud_gateway.Stream.Tags.{Inv}
use iv_cloud_gateway.Stream.Live.{Step-Inv}
use iv_cloud_gateway.Stream.Arrivals.{
  Arrives, Arrives-none, Arrives-trans, Arrives-active, push-Arrives,
}
use iv_cloud_gateway.Router.{dispatch}
use iv_cloud_gateway.App.{Gate, main_callbacks, main_router}
use iv_cloud_gateway.App.Orders.{Order, translate, remember, obeyed, Orchestrator}
use iv_cloud_gateway.App.AnyTopic.{order_at, obeyed_at, dispatch-order_at}

module _ (J : Json) where
  open J use {Text, Double}

  -- The messages are handed to the router one by one.
  pub dispatch_all : List (String × Text) → Act (Gate J) (Unit {0})
  dispatch_all [] = pure tt
  dispatch_all ((topic, payload) ∷ more) =
      dispatch topic payload (main_router J) >> dispatch_all more

  -- The commands of the messages that read as orders.
  abbrev pub command_of : Result (GatewayCommand Double) → List (GatewayCommand Double)
  command_of (err e) = []
  command_of (ok c) = c ∷ []

  abbrev pub command_at : Option Order → Text → List (GatewayCommand Double)
  command_at none payload = []
  command_at (some k) payload = command_of (translate J k payload)

  abbrev pub commands : List (String × Text) → List (GatewayCommand Double)
  commands [] = []
  commands ((topic, payload) ∷ more) = command_at (order_at topic) payload ++ commands more

  -- The trip of the last command that names one.
  abbrev pub last_trip : List (GatewayCommand Double) → ℤ → ℤ
  last_trip [] id = id
  last_trip (trip_move r ∷ cs) id = last_trip cs r.trip_id
  last_trip (_ ∷ cs) id = last_trip cs id

  pub last_trip-append :
      (cs ds : List (GatewayCommand Double)) (id : ℤ)
      → last_trip (cs ++ ds) id ≡ last_trip ds (last_trip cs id)
  last_trip-append [] ds id = refl
  last_trip-append (trip_move r ∷ cs) ds id = last_trip-append cs ds r.trip_id
  last_trip-append (trip_init r ∷ cs) ds id = last_trip-append cs ds id
  last_trip-append (trip_park r ∷ cs) ds id = last_trip-append cs ds id
  last_trip-append (order_update_location r ∷ cs) ds id = last_trip-append cs ds id
  last_trip-append (order_update_status r ∷ cs) ds id = last_trip-append cs ds id
  last_trip-append (trip_cancel r ∷ cs) ds id = last_trip-append cs ds id

  pub remember-trip_id :
      (c : GatewayCommand Double) (o : Orchestrator J)
      → (remember J c o).trip_id ≡ last_trip (c ∷ []) o.trip_id
  remember-trip_id (trip_move r) o = refl
  remember-trip_id (trip_init r) o = refl
  remember-trip_id (trip_park r) o = refl
  remember-trip_id (order_update_location r) o = refl
  remember-trip_id (order_update_status r) o = refl
  remember-trip_id (trip_cancel r) o = refl

  pub remember-trip_callbacks :
      (c : GatewayCommand Double) (o : Orchestrator J)
      → (remember J c o).trip_callbacks ≡ o.trip_callbacks
  remember-trip_callbacks (trip_init r) o = refl
  remember-trip_callbacks (trip_move r) o = refl
  remember-trip_callbacks (trip_park r) o = refl
  remember-trip_callbacks (order_update_location r) o = refl
  remember-trip_callbacks (order_update_status r) o = refl
  remember-trip_callbacks (trip_cancel r) o = refl

  -- The gate after some messages, whose commands are `cs`.
  record Obeys (a : Option ℕ) (cs : List (GatewayCommand Double)) (s t : Gate J) : Type 0 where
    pub sound : Inv t.world
    pub wired : t.orchestrator.trip_callbacks ≡ main_callbacks J
    pub arrives : Arrives a cs s.world t.world
    pub trip : t.orchestrator.trip_id ≡ last_trip cs s.orchestrator.trip_id

  obeyed-Obeys :
      (r : Result (GatewayCommand Double)) (a : Option ℕ) (s : Gate J)
      → s.orchestrator.trip_callbacks ≡ main_callbacks J
      → Inv s.world
      → s.world.active ≡ a
      → (t : Gate J) × (obeyed J s r ≡ (t, ok tt)) × Obeys a (command_of r) s t
  obeyed-Obeys (err e) a s wired i now = (
    s,
    refl,
    record { sound = i; wired = wired; arrives = Arrives-none a s.world now; trip = refl },
  )
  obeyed-Obeys (ok c) a s wired i now =
      let (v, done, came) = push-Arrives a c s.world i now in
      (
        record { orchestrator = remember J c s.orchestrator; world = v },
        rw done refl,
        record {
          sound = Step-Inv J (pushed c done) i;
          wired = remember-trip_callbacks c s.orchestrator ∙ wired;
          arrives = came;
          trip = remember-trip_id c s.orchestrator;
        },
      )

  at-Obeys :
      (o : Option Order) (payload : Text) (a : Option ℕ) (s : Gate J)
      → s.orchestrator.trip_callbacks ≡ main_callbacks J
      → Inv s.world
      → s.world.active ≡ a
      → (t : Gate J) × (obeyed_at J o payload s ≡ (t, ok tt)) × Obeys a (command_at o payload) s t
  at-Obeys none payload a s wired i now = (
    s,
    refl,
    record { sound = i; wired = wired; arrives = Arrives-none a s.world now; trip = refl },
  )
  at-Obeys (some k) payload a s wired i now = obeyed-Obeys (translate J k payload) a s wired i now

  dispatch_all-Obeys :
      (ms : List (String × Text)) (a : Option ℕ) (s : Gate J)
      → s.orchestrator.trip_callbacks ≡ main_callbacks J
      → Inv s.world
      → s.world.active ≡ a
      → (t : Gate J) × (dispatch_all ms s ≡ (t, ok tt)) × Obeys a (commands ms) s t
  unfolding dispatch_all
  dispatch_all-Obeys [] a s wired i now = (
    s,
    refl,
    record { sound = i; wired = wired; arrives = Arrives-none a s.world now; trip = refl },
  )
  dispatch_all-Obeys ((topic, payload) ∷ more) a s wired i now =
      let cs = command_at (order_at topic) payload in
      let (t, done, o) = at-Obeys (order_at topic) payload a s wired i now in
      let (u, done', o') =
        dispatch_all-Obeys more a t o.wired o.sound
          (Arrives-active a cs s.world t.world o.arrives) in
      (
        u,
        rw (dispatch-order_at J payload s wired topic, done) done',
        record {
          sound = o'.sound;
          wired = o'.wired;
          arrives = Arrives-trans a cs (commands more) s.world t.world u.world o.arrives o'.arrives;
          trip =
              o'.trip
              ∙ (ap (last_trip (commands more)) o.trip
                  ∙ sym (last_trip-append cs (commands more) s.orchestrator.trip_id));
        },
      )

  -- With main's callbacks and the accounts of the stream in order, any messages, whatever their
  -- topics and payloads, are all handled to their ends, and the callbacks and the accounts hold
  -- after them. The commands of those on the topics of orders that read as these orders, and no
  -- others, have come in their order to the end of the line of the active handler, with what is
  -- pending unchanged, or to the end of what is pending if no handler is active; which handler is
  -- active does not change. The id of the trip is that of the last command that names one, or else
  -- the one from before.
  pub dispatch_all-Arrives :
      (ms : List (String × Text)) (s : Gate J)
      → s.orchestrator.trip_callbacks ≡ main_callbacks J
      → Inv s.world
      → (t : Gate J) × (dispatch_all ms s ≡ (t, ok tt))
        × Inv t.world
        × (t.orchestrator.trip_callbacks ≡ main_callbacks J)
        × Arrives s.world.active (commands ms) s.world t.world
        × (t.orchestrator.trip_id ≡ last_trip (commands ms) s.orchestrator.trip_id)
  dispatch_all-Arrives ms s wired i =
      let (t, done, o) = dispatch_all-Obeys ms s.world.active s wired i refl in
      (t, done, o.sound, o.wired, o.arrives, o.trip)
