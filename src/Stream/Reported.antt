-- ===== src/Stream/Reported.antt =====
-- src/services/vehicle_stream_handler.h: what has been published of the events of the vehicles.
use mathlib.Core.List.{append-nil}
use iv_cloud_gateway.Base.{
  ℕ, ◌≡◌, refl, sym, ◌∙◌, ap, subst, inl, inr, Bool, true, false, String, List, [], ◌∷◌, ◌++◌,
  Option, none, some, Result, ok, err, arith, Option-cases,
}
use iv_cloud_gateway.Json.{Json}
use iv_cloud_gateway.Proto.{GatewayCommand, VehicleEvent}
use iv_cloud_gateway.Stream.{
  State, create, accepting, reading, finish, Handler, finish_stream, read, clear_active,
  on_write_done, push_to, push_command, proceed_create,
}
use iv_cloud_gateway.Stream.Incoming.{
  Gateway, report, publish, handle_incoming, proceed_in, proceed,
}
use iv_cloud_gateway.Stream.Steps.{
  settle, settle_write, start, Step, completed, wrote, pushed, Reach, here, next,
}
use iv_cloud_gateway.Stream.Heap.{
  accept_live, go_on_live, on_write_done_gone, on_write_done_live, enqueue_live,
}
use iv_cloud_gateway.Stream.Tags.{Inv, IsReading}
use iv_cloud_gateway.Stream.Live.{handle_incoming-cases, Reach-Inv}

module _ (J : Json) where
  open J use {Text, Value, Double}

  abbrev serialised : String → Option Text → List (String × Text)
  serialised topic none = []
  serialised topic (some payload) = (topic, payload) ∷ []

  -- The topic and the document of an event that is passed on, if it can be serialised.
  abbrev document_of : Option (String × Value) → List (String × Text)
  document_of none = []
  document_of (some (topic, j)) = serialised topic (J.dump j)

  -- What the completion of an operation of a handler in a state publishes: only a read that has
  -- succeeded brings an event.
  abbrev reports_in : State → Bool → VehicleEvent Double → List (String × Text)
  reports_in reading true ev = document_of (report J ev)
  reports_in reading false ev = []
  reports_in create success ev = []
  reports_in accepting success ev = []
  reports_in finish success ev = []

  abbrev pub reports_at :
      Option (Handler (GatewayCommand Double)) → Bool → VehicleEvent Double → List (String × Text)
  reports_at none success ev = []
  reports_at (some h) success ev = reports_in h.state success ev

  abbrev pub reports_of : {u v : Gateway J} → Step J u v → List (String × Text)
  reports_of {u} (completed id success ev due e) = reports_at (u.heap id) success ev
  reports_of (wrote id success due e) = []
  reports_of (pushed c e) = []

  abbrev pub all_reports : {u v : Gateway J} → Reach J u v → List (String × Text)
  all_reports here = []
  all_reports (next r st) = all_reports r ++ reports_of st

  -- A call that returns has published `ds`, and nothing else.
  abbrev Publishes : List (String × Text) → Gateway J → Result (Gateway J) → Type 0
  Publishes ds w (ok v) = v.published ≡ w.published ++ ds
  Publishes ds w (err e) = Unit

  publish-Publishes :
      (r : Option (String × Value)) (w : Gateway J) → Publishes (document_of r) w (publish J r w)
  unfolding publish
  publish-Publishes none w = sym (append-nil w.published)
  publish-Publishes (some (topic, j)) w = elim (Option-cases (J.dump j)) [
    | inl failed ↦ rw failed tt
    | inr (payload, done) ↦ rw done refl
  ]

  proceed_in-Publishes :
      (s : State) (id : ℕ) (success : Bool) (ev : VehicleEvent Double) (w : Gateway J)
      (h : Handler (GatewayCommand Double))
      → Inv w
      → w.heap id ≡ some h
      → h.state ≡ s
      → Publishes (reports_in s success ev) w (proceed_in J s id success ev (settle id w))
  unfolding proceed_in proceed_create clear_active handle_incoming
  proceed_in-Publishes create id success ev w h i live e =
      rw (live, proceed_in) (sym (append-nil w.published))
  proceed_in-Publishes accepting id false ev w h i live e = sym (append-nil w.published)
  proceed_in-Publishes accepting id true ev w h i live e =
      rw (accept_live id (settle id w) h live (λ p. ground (arith, i.unused id)))
        (sym (append-nil w.published))
  proceed_in-Publishes reading id false ev w h i live e =
      let w' = clear_active id (settle id w) in
      subst (λ u. Publishes [] w (ok u)) (sym (go_on_live id finish (finish_stream id) w' h live))
        (sym (append-nil w.published))
  proceed_in-Publishes reading id true ev w h i live e =
      elim (handle_incoming-cases J ev (settle id w)) [
        | inl failed ↦ rw failed tt
        | inr (p, done) ↦
            let w' = record (settle id w) { published = p } in
            let ds = document_of (report J ev) in
            let said =
              subst (Publishes ds (settle id w)) done
                (publish-Publishes (report J ev) (settle id w)) in
            rw done (
              subst (λ u. Publishes ds w (ok u)) (sym (go_on_live id reading (read id) w' h live))
                said)
      ]
  proceed_in-Publishes finish id success ev w h i live e = sym (append-nil w.published)

  proceed-Publishes :
      (id : ℕ) (success : Bool) (ev : VehicleEvent Double) (w : Gateway J)
      → Inv w
      → Publishes (reports_at (w.heap id) success ev) w (proceed J id success ev (settle id w))
  unfolding proceed
  proceed-Publishes id success ev w i = elim (Option-cases (w.heap id)) [
    | inl absent ↦ rw (absent, proceed) tt
    | inr (h, live) ↦
        rw (live, proceed) (proceed_in-Publishes h.state id success ev w h i live refl)
  ]

  on_write_done-Publishes :
      (id : ℕ) (success : Bool) (w : Gateway J)
      → Publishes [] w (on_write_done id success (settle_write id w))
  on_write_done-Publishes id success w = elim (Option-cases (w.heap id)) [
    | inl absent ↦ rw (on_write_done_gone id success (settle_write id w) absent) tt
    | inr (h, live) ↦
        rw (on_write_done_live id success (settle_write id w) h live) (sym (append-nil w.published))
  ]

  push_to-Publishes :
      (a : Option ℕ) (c : GatewayCommand Double) (w : Gateway J)
      → IsReading w.heap a
      → Publishes [] w (push_to a c w)
  unfolding push_to
  push_to-Publishes none c w r = sym (append-nil w.published)
  push_to-Publishes (some id) c w (h, live, r) =
      rw (enqueue_live id c w h live) (sym (append-nil w.published))

  Step-Publishes : {u v : Gateway J} (st : Step J u v) → Inv u → Publishes (reports_of st) u (ok v)
  unfolding push_command
  Step-Publishes {u} (completed id success ev due e) i =
      subst (Publishes (reports_at (u.heap id) success ev) u) e
        (proceed-Publishes id success ev u i)
  Step-Publishes {u} (wrote id success due e) i =
      subst (Publishes [] u) e (on_write_done-Publishes id success u)
  Step-Publishes {u} (pushed c e) i =
      subst (Publishes [] u) e (push_to-Publishes u.active c u i.active)

  -- Over any run of the gateway from its start, what has been handed to `publish_` are the
  -- documents of the events that the reads of the handlers brought, each once and in the order in
  -- which the reads completed, but for the events that are only logged; nothing else has been
  -- published.
  pub Reach-reports : {w : Gateway J} (r : Reach J start w) → w.published ≡ all_reports r
  unfolding start
  Reach-reports here = refl
  Reach-reports (next r st) =
      Step-Publishes st (Reach-Inv J r) ∙ ap (λ l. l ++ reports_of st) (Reach-reports r)
