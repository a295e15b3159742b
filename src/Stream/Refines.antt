-- ===== src/Stream/Refines.antt =====
-- src/services/vehicle_stream_handler.h and .cc: the handlers, seen as one mailbox.
use iv_cloud_gateway.Base.{
  fun_ext, ℕ, ◌≡◌, refl, sym, ◌∙◌, ap, subst, inl, inr, Bool, true, false, List, [], ◌∷◌, ◌++◌,
  none, some, ok, arith, Option-cases,
}
use iv_cloud_gateway.Json.{Json}
use iv_cloud_gateway.Proto.{GatewayCommand, VehicleEvent}
use iv_cloud_gateway.Stream.{
  on_write_done, new_handler, State, create, accepting, reading, finish, Handler, request_stream,
  read, finish_stream, clear_active, proceed_create, push_command,
}
use iv_cloud_gateway.Stream.Incoming.{Gateway, proceed_in, proceed}
use iv_cloud_gateway.Stream.Steps.{
  settle, settle_write, start, Step, completed, wrote, pushed, Reach, here, next,
}
use iv_cloud_gateway.Stream.Heap.{accept_live, go_on_live, on_write_done_gone, on_write_done_live}
use iv_cloud_gateway.Stream.Tags.{Inv, not-active}
use iv_cloud_gateway.Stream.Live.{handle_incoming-cases, Reach-Inv}
use iv_cloud_gateway.Stream.Delivery.{line_of}
use iv_cloud_gateway.Stream.Session.{wrote-line}
use iv_cloud_gateway.Stream.Mailbox.{
  Mailbox, Act, rest, push, hang_up, apply, perform, perform-append,
}
use iv_cloud_gateway.Stream.Views.{
  view, act_in, act_at, Does, gone_on-Does, clear_active-Does, accepted-Does, delete-Does,
  delete_inactive-Does, push_to-Does,
}

module _ (J : Json) where
  on_write_done-Does :
      (id : ℕ) (success : Bool) (w : Gateway J)
      → Does rest w (on_write_done id success (settle_write id w))
  unfolding apply view
  on_write_done-Does id success w = elim (Option-cases (w.heap id)) [
    | inl absent ↦ rw (on_write_done_gone id success (settle_write id w) absent) tt
    | inr (h, live) ↦ rw (on_write_done_live id success (settle_write id w) h live) λ i. record {
      active = w.active;
      pending = w.pending;
      line = fun_ext (λ j. wrote-line J j id success w h live) i;
    }
  ]

  proceed_in-Does :
      (s : State) (id : ℕ) (success : Bool) (ev : VehicleEvent J.Double) (w : Gateway J)
      (h : Handler (GatewayCommand J.Double))
      → Inv w
      → w.heap id ≡ some h
      → h.state ≡ s
      → Does (act_in s id success w) w (proceed_in J s id success ev (settle id w))
  unfolding proceed_in proceed_create view apply clear_active
  proceed_in-Does create id success ev w h i live e =
      rw (live, proceed_in)
        (gone_on-Does id accepting (request_stream id) h (settle id w) live (λ j. refl))
  proceed_in-Does accepting id false ev w h i live e =
      delete_inactive-Does id (settle id w) (not-active w id h i live (ground arith))
  proceed_in-Does accepting id true ev w h i live e =
      let unused = (i.unused w.next (omega arith)).0 in
      rw (accept_live id (settle id w) h live (λ p. ground (arith, i.unused id)))
        (accepted-Does id h (settle id w) live unused)
  proceed_in-Does reading id false ev w h i live e =
      let w' = clear_active id (settle id w) in
      subst (λ u. Does (hang_up id) w (ok u))
        (sym (go_on_live id finish (finish_stream id) w' h live))
        (gone_on-Does id finish (finish_stream id) h w' live (λ j. refl)
          ∙ clear_active-Does id (settle id w))
  proceed_in-Does reading id true ev w h i live e =
      elim (handle_incoming-cases J ev (settle id w)) [
        | inl failed ↦ rw failed tt
        | inr (p, done) ↦
            let w' = record (settle id w) { published = p } in
            rw done (
              subst (λ u. Does rest w (ok u)) (sym (go_on_live id reading (read id) w' h live))
                (gone_on-Does id reading (read id) h w' live (λ j. refl)))
      ]
  proceed_in-Does finish id success ev w h i live e = delete-Does id (settle id w)

  proceed-Does :
      (id : ℕ) (success : Bool) (ev : VehicleEvent J.Double) (w : Gateway J)
      → Inv w
      → Does (act_at (w.heap id) id success w) w (proceed J id success ev (settle id w))
  unfolding proceed
  proceed-Does id success ev w i = elim (Option-cases (w.heap id)) [
    | inl absent ↦ rw (absent, proceed) tt
    | inr (h, live) ↦ rw (live, proceed) (proceed_in-Does h.state id success ev w h i live refl)
  ]

  abbrev pub act_of : {u v : Gateway J} → Step J u v → Act (GatewayCommand J.Double)
  act_of {u} (completed id success ev due e) = act_at (u.heap id) id success u
  act_of (wrote id success due e) = rest
  act_of (pushed c e) = push c

  abbrev pub acts_of : {u v : Gateway J} → Reach J u v → List (Act (GatewayCommand J.Double))
  acts_of here = []
  acts_of (next r st) = acts_of r ++ act_of st ∷ []

  -- No stream, and no command.
  abbrev pub empty_mailbox : Mailbox (GatewayCommand J.Double)
  empty_mailbox = record { active = none; pending = []; line = λ id. [] }

  Step-view : {u v : Gateway J} (st : Step J u v) → Inv u → view v ≡ apply (act_of st) (view u)
  unfolding push_command
  Step-view {u} (completed id success ev due e) i =
      subst (Does (act_at (u.heap id) id success u) u) e (proceed-Does id success ev u i)
  Step-view {u} (wrote id success due e) i = subst (Does rest u) e (on_write_done-Does id success u)
  Step-view {u} (pushed c e) i = subst (Does (push c) u) e (push_to-Does u.active c u i.active refl)

  start-line : (id : ℕ) → line_of id (start {C = GatewayCommand J.Double} {T = J.Text}) ≡ []
  unfolding start new_handler proceed_create
  start-line id = ground arith

  start-view : view (start {C = GatewayCommand J.Double} {T = J.Text}) ≡ empty_mailbox
  unfolding view start new_handler proceed_create
  start-view = λ i. record { active = none; pending = []; line = fun_ext start-line i }

  -- What a step adds to the acts so far.
  pub Step-seen :
      {u v : Gateway J} (acts : List (Act (GatewayCommand J.Double))) (st : Step J u v)
      → Inv u
      → view u ≡ perform acts empty_mailbox
      → view v ≡ perform (acts ++ act_of st ∷ []) empty_mailbox
  Step-seen acts st i seen =
      Step-view st i
      ∙ (ap (apply (act_of st)) seen ∙ sym (perform-append acts (act_of st ∷ []) empty_mailbox))

  -- A run of the gateway from its start is, seen from outside, the acts of its steps on a mailbox
  -- that was empty.
  pub Reach-view :
      {w : Gateway J} (r : Reach J start w) → view w ≡ perform (acts_of r) empty_mailbox
  Reach-view here = start-view
  Reach-view (next r st) = Step-seen (acts_of r) st (Reach-Inv J r) (Reach-view r)
