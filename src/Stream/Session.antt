-- ===== src/Stream/Session.antt =====
-- A connection over any number of steps of the gateway, up to the moment when it stops being
-- active.
use mathlib.Core.List.{append-nil, append_assoc}
use iv_cloud_gateway.Base.{
  ℕ, ◌<◌, ◌≡◌, refl, sym, ◌∙◌, ap, subst, ◌≢◌, inl, inr, Bool, true, false, List, [], ◌∷◌, ◌++◌,
  some, Result, ok, err, arith, Option-cases, ok-injective, ℕ_discrete as dec_ℕ,
}
use iv_cloud_gateway.Json.{Json}
use iv_cloud_gateway.Proto.{GatewayCommand, VehicleEvent}
use iv_cloud_gateway.Stream.{
  State, create, accepting, reading, finish, Handler, request_stream, read, finish_stream, World,
  delete, clear_active, write_done, proceed_create,
}
use iv_cloud_gateway.Stream.Incoming.{Gateway, proceed_in, proceed}
use iv_cloud_gateway.Stream.Steps.{settle, settle_write, Step, completed, wrote, pushed}
use iv_cloud_gateway.Stream.Order.{write_done-line, write_done-sent_other}
use iv_cloud_gateway.Stream.Heap.{
  put, on_write_done_gone, on_write_done_live, accept_live, go_on_live,
}
use iv_cloud_gateway.Stream.Tags.{Inv, IsReading, not-active, clear_active-ne}
use iv_cloud_gateway.Stream.Live.{handle_incoming-cases, Step-Inv}
use iv_cloud_gateway.Stream.Delivery.{
  line_of, gone_on-line, put-line, put-line_other, push_command-line,
}

module _ {C T : Type 0} where
  -- As long as `id` stays active, a call changes neither its line nor what is pending.
  abbrev Carries : ℕ → World C T → Result (World C T) → Type 0
  Carries id w (ok v) = v.active ≡ some id → (line_of id v ≡ line_of id w) × (v.pending ≡ w.pending)
  Carries id w (err e) = Unit

  delete-line : (id j : ℕ) (w : World C T) → j ≢ id → line_of id (delete j w) ≡ line_of id w
  delete-line id j w ne = ground arith

  ne_of_inactive : (id j : ℕ) (w : World C T) → w.active ≡ some id → w.active ≢ some j → j ≢ id
  ne_of_inactive id j w now ne e = ne (now ∙ ap some (sym e))

module _ (J : Json) where
  proceed_in-Carries :
      (s : State) (id j : ℕ) (success : Bool) (ev : VehicleEvent J.Double) (w : Gateway J)
      (h : Handler (GatewayCommand J.Double))
      → Inv w
      → w.active ≡ some id
      → w.heap j ≡ some h
      → h.state ≡ s
      → Carries id w (proceed_in J s j success ev (settle j w))
  unfolding proceed_in proceed_create
  proceed_in-Carries create id j success ev w h v now live e =
      rw (live, proceed_in)
        (λ _. (gone_on-line id j accepting (request_stream j) h (settle j w) live refl, refl))
  proceed_in-Carries accepting id j false ev w h v now live e = λ _.
      let idle = not-active w j h v live (ground arith) in
      (delete-line id j (settle j w) (ne_of_inactive id j w now idle), refl)
  proceed_in-Carries accepting id j true ev w h v now live e =
      rw (accept_live j (settle j w) h live (λ p. ground (arith, v.unused j)))
        (λ p. absurd (not-active w j h v live (ground arith) (now ∙ sym p)))
  proceed_in-Carries reading id j false ev w h v now live e =
      let w' = clear_active j (settle j w) in
      subst (λ u. Carries id w (ok u)) (sym (go_on_live j finish (finish_stream j) w' h live))
        (λ _. (gone_on-line id j finish (finish_stream j) h w' live refl, refl))
  proceed_in-Carries reading id j true ev w h v now live e =
      elim (handle_incoming-cases J ev (settle j w)) [
        | inl failed ↦ rw failed tt
        | inr (p, done) ↦
            let w' = record (settle j w) { published = p } in
            rw done (
              subst (λ u. Carries id w (ok u)) (sym (go_on_live j reading (read j) w' h live))
                λ _. (gone_on-line id j reading (read j) h w' live refl, refl))
      ]
  proceed_in-Carries finish id j success ev w h v now live e = λ p.
      let other = ne_of_inactive id j (clear_active j w) p (clear_active-ne j w) in
      (delete-line id j (settle j w) other, refl)

  -- The commands that a step pushes.
  abbrev pub pushes : {u v : Gateway J} → Step J u v → List (GatewayCommand J.Double)
  pushes (completed id success ev due e) = []
  pushes (wrote id success due e) = []
  pushes (pushed c e) = c ∷ []

  -- Steps of the gateway after which handler `id` is still active, with the commands pushed on the
  -- way, oldest first.
  pub data Session (id : ℕ) (u : Gateway J)
      : List (GatewayCommand J.Double) → Gateway J → Type 0 where
    opened : Session id u [] u
    goes_on :
        {cs ds : List (GatewayCommand J.Double)} {v w : Gateway J}
        → Session id u cs v
        → (st : Step J v w) → w.active ≡ some id
        → ds ≡ cs ++ pushes st
        → Session id u ds w

  Carries-ok :
      (id : ℕ) (u v : Gateway J) (r : Result (Gateway J))
      → Carries id u r
      → r ≡ ok v
      → v.active ≡ some id
      → (line_of id v ≡ line_of id u) × (v.pending ≡ u.pending)
  Carries-ok id u v r c e = subst (Carries id u) e c

  proceed-Carries :
      (id j : ℕ) (success : Bool) (ev : VehicleEvent J.Double) (u v : Gateway J)
      → Inv u
      → u.active ≡ some id
      → 0 < u.grpc.owed j
      → proceed J j success ev (settle j u) ≡ ok v
      → v.active ≡ some id
      → (line_of id v ≡ line_of id u) × (v.pending ≡ u.pending)
  unfolding proceed
  proceed-Carries id j success ev u v i now due e = elim (Option-cases (u.heap j)) [
    | inl gone ↦ absurd (ground (arith, i.fits j))
    | inr (h, live) ↦
        Carries-ok id u v _ (proceed_in-Carries h.state id j success ev u h i now live refl)
          (rw (live, proceed) at e)
  ]

  pub wrote-line :
      (id j : ℕ) (success : Bool) (u : Gateway J) (h : Handler (GatewayCommand J.Double))
      → u.heap j ≡ some h
      → line_of id (put j (write_done j success h (settle_write j u).grpc) (settle_write j u))
        ≡ line_of id u
  wrote-line id j success u h live =
      let g = (settle_write j u).grpc in
      let (h', g') = write_done j success h g in
      elim (dec_ℕ j id) [
        | yes same ↦
            rw (← same)
              (put-line j h' g' (settle_write j u) ∙ (write_done-line j success h g ∙ rw live))
        | no other ↦
            put-line_other j id h' g' (settle_write j u) (λ p. other (sym p))
              (write_done-sent_other j id success h g (λ p. other (sym p)))
      ]

  -- One step, for a handler that is active before and after it.
  pub Step-line :
      (id : ℕ) {u v : Gateway J} (st : Step J u v)
      → Inv u
      → u.active ≡ some id
      → v.active ≡ some id
      → (line_of id v ≡ line_of id u ++ pushes st) × (v.pending ≡ u.pending)
  Step-line id {u} {v} (completed j success ev due e) i now after =
      let (same, kept) = proceed-Carries id j success ev u v i now due e after in
      (same ∙ sym (append-nil (line_of id u)), kept)
  Step-line id {u} {v} (wrote j success due e) i now after = elim (Option-cases (u.heap j)) [
    | inl gone ↦ cc (on_write_done_gone j success (settle_write j u) gone)
    | inr (h, live) ↦
        let e' = on_write_done_live j success (settle_write j u) h live in
        let (same, kept) =
          Carries-ok id u v _ (λ _. (wrote-line id j success u h live, refl)) (sym e' ∙ e) after in
        (same ∙ sym (append-nil (line_of id u)), kept)
  ]
  Step-line id {u} {v} (pushed c e) i now after =
      let (h, live, r) = subst (IsReading u.heap) now i.active in
      let (w, done, same, kept, on) = push_command-line id c u h now live in
      subst (λ x. (line_of id x ≡ line_of id u ++ c ∷ []) × (x.pending ≡ u.pending))
        (ok-injective (sym done ∙ e)) (same, kept)

  Session-Inv :
      {id : ℕ} {u : Gateway J} {cs : List (GatewayCommand J.Double)} {v : Gateway J}
      → Session id u cs v
      → Inv u
      → Inv v
  Session-Inv opened i = i
  Session-Inv (goes_on s st now e) i = Step-Inv J st (Session-Inv s i)

  Session-active :
      {id : ℕ} {u : Gateway J} {cs : List (GatewayCommand J.Double)} {v : Gateway J}
      → Session id u cs v
      → u.active ≡ some id
      → v.active ≡ some id
  Session-active opened now = now
  Session-active (goes_on s st now e) before = now

  -- From a world with its accounts in order, over any steps of the gateway after each of which the
  -- handler `id` is the active one: what has been written to its stream, followed by its queue, is
  -- what that was at the beginning followed by the commands pushed since, each once and in the
  -- order in which they were pushed; what was pending stays pending.
  pub Session-line :
      {id : ℕ} {u : Gateway J} {cs : List (GatewayCommand J.Double)} {v : Gateway J}
      → Session id u cs v
      → Inv u
      → u.active ≡ some id
      → (line_of id v ≡ line_of id u ++ cs) × (v.pending ≡ u.pending)
  Session-line {id} {u} opened i now = (sym (append-nil (line_of id u)), refl)
  Session-line {id} {u} (goes_on {cs = cs} s st after e) i now =
      let (same, kept) = Session-line s i now in
      let (one, kept') = Step-line id st (Session-Inv s i) (Session-active s now) after in
      (
        one
            ∙ (ap (λ l. l ++ pushes st) same
                ∙ (append_assoc (line_of id u) cs (pushes st)
                    ∙ ap (λ l. line_of id u ++ l) (sym e))),
        kept' ∙ kept,
      )
