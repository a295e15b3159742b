-- ===== src/App/Traffic.antt =====
-- src/main.cpp as it runs: MQTT messages, and the events of the stream, in any order.
use mathlib.Core.List.{append-nil, append_assoc}
use iv_cloud_gateway.Base.{
  ℕ, ◌<◌, ◌≡◌, refl, sym, ◌∙◌, ap, subst, Bool, String, List, [], ◌∷◌, ◌++◌, Option, none, some,
  Result, ok, err, map,
}
use iv_cloud_gateway.Json.{Json}
use iv_cloud_gateway.Proto.{GatewayCommand, VehicleEvent}
use iv_cloud_gateway.Stream.{on_write_done}
use iv_cloud_gateway.Stream.Incoming.{Gateway, proceed}
use iv_cloud_gateway.Stream.Steps.{
  settle, settle_write, start, Step, completed as completes, wrote as writes, pushed, Reach, here,
  next,
}
use iv_cloud_gateway.Stream.Mailbox.{Act, rest, push, perform}
use iv_cloud_gateway.Stream.Views.{view, act_at}
use iv_cloud_gateway.Stream.Live.{push_command-ok, Reach-Inv}
use iv_cloud_gateway.Stream.Refines.{act_of, empty_mailbox, Step-seen, Reach-view}
use iv_cloud_gateway.Stream.Reported.{reports_at, reports_of, all_reports, Reach-reports}
use iv_cloud_gateway.Router.{dispatch}
use iv_cloud_gateway.App.{Gate, main_callbacks, main_router}
use iv_cloud_gateway.App.Orders.{Order, Orchestrator, translate, obeyed}
use iv_cloud_gateway.App.AnyTopic.{order_at, obeyed_at, dispatch-order_at}
use iv_cloud_gateway.App.Messages.{
  command_of, command_at, commands, last_trip, last_trip-append, remember-trip_id,
  remember-trip_callbacks,
}

module _ (J : Json) where
  open J use {Text, Double}

  -- One thing that happens: a message comes, an operation of a handler completes, or a write does.
  pub data Event (s t : Gate J) : Type 0 where
    received :
        (topic : String) (payload : Text) (r : Result (Unit {0}))
        → dispatch topic payload (main_router J) s ≡ (t, r)
        → Event s t
    completed :
        (id : ℕ) (success : Bool) (ev : VehicleEvent Double) (w : Gateway J)
        → 0 < s.world.grpc.owed id
        → proceed J id success ev (settle id s.world) ≡ ok w
        → t ≡ record s { world = w }
        → Event s t
    wrote :
        (id : ℕ) (success : Bool) (w : Gateway J)
        → 0 < s.world.grpc.owed_writes id
        → on_write_done id success (settle_write id s.world) ≡ ok w
        → t ≡ record s { world = w }
        → Event s t

  pub data Traffic (s : Gate J) : Gate J → Type 0 where
    quiet : Traffic s s
    followed : {t u : Gate J} → Traffic s t → Event t u → Traffic s u

  -- The messages that came, oldest first.
  abbrev pub message_of : {s t : Gate J} → Event s t → List (String × Text)
  message_of (received topic payload r e) = (topic, payload) ∷ []
  message_of (completed id success ev w due e f) = []
  message_of (wrote id success w due e f) = []

  abbrev pub heard : {s t : Gate J} → Traffic s t → List (String × Text)
  heard quiet = []
  heard (followed r e) = heard r ++ message_of e

  -- What the events of the vehicles that came had to be published.
  abbrev pub told_by : {s t : Gate J} → Event s t → List (String × Text)
  told_by (received topic payload r e) = []
  told_by {s} (completed id success ev w due e f) = reports_at J (s.world.heap id) success ev
  told_by (wrote id success w due e f) = []

  abbrev pub told : {s t : Gate J} → Traffic s t → List (String × Text)
  told quiet = []
  told (followed r e) = told r ++ told_by e

  -- What each event is, seen as acts on the mailbox of the vehicle: a message pushes the command of
  -- the order that it reads as, if it does, and what the event of a stream does depends on the
  -- state of its handler.
  abbrev pub acts_at : {s t : Gate J} → Event s t → List (Act (GatewayCommand Double))
  acts_at (received topic payload r e) = map push (command_at J (order_at topic) payload)
  acts_at {s} (completed id success ev w due e f) = act_at (s.world.heap id) id success s.world ∷ []
  acts_at (wrote id success w due e f) = rest ∷ []

  abbrev pub all_acts : {s t : Gate J} → Traffic s t → List (Act (GatewayCommand Double))
  all_acts quiet = []
  all_acts (followed r e) = all_acts r ++ acts_at e

  commands-append :
      (xs ys : List (String × Text)) → commands J (xs ++ ys) ≡ commands J xs ++ commands J ys
  commands-append [] ys = refl
  commands-append ((topic, payload) ∷ xs) ys =
      let cs = command_at J (order_at topic) payload in
      ap (λ l. cs ++ l) (commands-append xs ys)
      ∙ sym (append_assoc cs (commands J xs) (commands J ys))

  abbrev pub first : Orchestrator J → Gate J
  first o = record { orchestrator = o; world = start }

  -- Where the traffic has come to: the stream has been reached by steps that published `ds`, it is
  -- what the acts `xs` make of an empty mailbox, and `cs` are the commands so far.
  record Comes (o : Orchestrator J) (xs : List (Act (GatewayCommand Double)))
      (cs : List (GatewayCommand Double)) (ds : List (String × Text)) (t : Gate J) : Type 0 where
    pub way : Reach J start t.world
    pub seen : view t.world ≡ perform xs (empty_mailbox J)
    pub said : all_reports J way ≡ ds
    pub wired : t.orchestrator.trip_callbacks ≡ main_callbacks J
    pub trip : t.orchestrator.trip_id ≡ last_trip J cs o.trip_id

  quiet-Comes :
      (o : Orchestrator J) (xs : List (Act (GatewayCommand Double)))
      (cs : List (GatewayCommand Double)) (ds : List (String × Text)) (t : Gate J)
      → Comes o xs cs ds t
      → Comes o (xs ++ []) (cs ++ []) ds t
  quiet-Comes o xs cs ds t c =
      subst (λ l. Comes o (xs ++ []) l ds t) (sym (append-nil cs))
        (subst (λ l. Comes o l cs ds t) (sym (append-nil xs)) c)

  obeyed-Comes :
      (r : Result (GatewayCommand Double)) (o : Orchestrator J)
      (xs : List (Act (GatewayCommand Double))) (cs : List (GatewayCommand Double))
      (ds : List (String × Text)) (s : Gate J)
      → Comes o xs cs ds s
      → Comes o (xs ++ map push (command_of J r)) (cs ++ command_of J r) ds (obeyed J s r).0
  obeyed-Comes (err e) o xs cs ds s c = quiet-Comes o xs cs ds s c
  obeyed-Comes (ok cmd) o xs cs ds s c =
      let i = Reach-Inv J c.way in
      let (w, done, _) = push_command-ok cmd s.world i in
      rw done (record {
        way = next c.way (pushed cmd done);
        seen = Step-seen J xs (pushed cmd done) i c.seen;
        said = append-nil (all_reports J c.way) ∙ c.said;
        wired = remember-trip_callbacks J cmd s.orchestrator ∙ c.wired;
        trip =
            remember-trip_id J cmd s.orchestrator
            ∙ (ap (last_trip J (cmd ∷ [])) c.trip
                ∙ sym (last_trip-append J cs (cmd ∷ []) o.trip_id));
      })

  at-Comes :
      (k : Option Order) (payload : Text) (o : Orchestrator J)
      (xs : List (Act (GatewayCommand Double))) (cs : List (GatewayCommand Double))
      (ds : List (String × Text)) (s : Gate J)
      → Comes o xs cs ds s
      → Comes o
          (xs ++ map push (command_at J k payload))
          (cs ++ command_at J k payload)
          ds
          (obeyed_at J k payload s).0
  at-Comes none payload o xs cs ds s c = quiet-Comes o xs cs ds s c
  at-Comes (some k) payload o xs cs ds s c = obeyed-Comes (translate J k payload) o xs cs ds s c

  driven-Comes :
      (o : Orchestrator J) (xs : List (Act (GatewayCommand Double)))
      (cs : List (GatewayCommand Double)) (ds : List (String × Text)) (s t : Gate J) (w : Gateway J)
      (st : Step J s.world w)
      → t ≡ record s { world = w }
      → Comes o xs cs ds s
      → Comes o (xs ++ act_of J st ∷ []) (cs ++ []) (ds ++ reports_of J st) t
  driven-Comes o xs cs ds s t w st f c =
      let ys = xs ++ act_of J st ∷ [] in
      let es = ds ++ reports_of J st in
      subst (Comes o ys (cs ++ []) es) (sym f) (
        subst (λ l. Comes o ys l es (record s { world = w })) (sym (append-nil cs))
          (record {
            way = next c.way st;
            seen = Step-seen J xs st (Reach-Inv J c.way) c.seen;
            said = ap (λ l. l ++ reports_of J st) c.said;
            wired = c.wired;
            trip = c.trip;
          }))

  Event-Comes :
      {s t : Gate J} (e : Event s t) (o : Orchestrator J) (xs : List (Act (GatewayCommand Double)))
      (cs : List (GatewayCommand Double)) (ds : List (String × Text))
      → Comes o xs cs ds s
      → Comes o (xs ++ acts_at e) (cs ++ commands J (message_of e)) (ds ++ told_by e) t
  Event-Comes {s} {t} (received topic payload r e) o xs cs ds c =
      let cmds = command_at J (order_at topic) payload in
      let ys = xs ++ map push cmds in
      let got = at-Comes (order_at topic) payload o xs cs ds s c in
      let same = sym (dispatch-order_at J payload s c.wired topic) ∙ e in
      let there = subst (Comes o ys (cs ++ cmds) ds) (ap (λ x. x.0) same) got in
      subst (λ l. Comes o ys l (ds ++ []) t) (ap (λ l. cs ++ l) (sym (append-nil cmds)))
        (subst (λ l. Comes o ys (cs ++ cmds) l t) (sym (append-nil ds)) there)
  Event-Comes {s} {t} (completed id success ev w due e f) o xs cs ds c =
      driven-Comes o xs cs ds s t w (completes id success ev due e) f c
  Event-Comes {s} {t} (wrote id success w due e f) o xs cs ds c =
      driven-Comes o xs cs ds s t w (writes id success due e) f c

  Traffic-Comes :
      {o : Orchestrator J} {t : Gate J} (r : Traffic (first o) t)
      → o.trip_callbacks ≡ main_callbacks J
      → Comes o (all_acts r) (commands J (heard r)) (told r) t
  Traffic-Comes quiet wired = record {
    way = here;
    seen = Reach-view J here;
    said = refl;
    wired = wired;
    trip = refl;
  }
  Traffic-Comes {o} {t} (followed r e) wired =
      subst (λ l. Comes o (all_acts r ++ acts_at e) l (told r ++ told_by e) t)
        (sym (commands-append (heard r) (message_of e)))
        (Event-Comes e o (all_acts r) (commands J (heard r)) (told r) (Traffic-Comes r wired))

  -- With main's callbacks in an orchestrator, and the stream at its start: whatever messages come
  -- on whatever topics, and however the operations of the handlers and their writes complete in
  -- between, the active stream, what is pending and the line of each stream are what the events, as
  -- acts, make of an empty mailbox. A message that reads as the order of its topic is the push of
  -- its command, and any other message is no act; a connection takes over what is pending, a read
  -- that fails hangs the stream up, a stream that is dropped keeps what was written to it, and
  -- every other event does nothing. What has been handed to `publish_` are the documents of the
  -- events that the reads of the handlers brought, each once and in their order, but for the events
  -- that are only logged. The id of the trip is that of the last of the commands that names one, or
  -- else the one from before.
  pub Traffic-view :
      (o : Orchestrator J) (t : Gate J) (r : Traffic (first o) t)
      → o.trip_callbacks ≡ main_callbacks J
      → (view t.world ≡ perform (all_acts r) (empty_mailbox J))
        × (t.world.published ≡ told r)
        × (t.orchestrator.trip_id ≡ last_trip J (commands J (heard r)) o.trip_id)
  Traffic-view o t r wired =
      let c = Traffic-Comes r wired in (c.seen, Reach-reports J c.way ∙ c.said, c.trip)
