-- ===== src/Stream/Loss.antt =====
-- src/services/vehicle_stream_handler.h: what becomes of a handler's queue when its stream ends.
use iv_cloud_gateway.Base.{
  ℕ, ◌<◌, ◌≡◌, refl, sym, ◌∙◌, subst, ◌≢◌, inl, inr, Bool, true, false, List, [], ◌∷◌, Option, none,
  some, Result, ok, err, arith, ==_refl, Option-cases,
}
use iv_cloud_gateway.Json.{Json}
use iv_cloud_gateway.Proto.{GatewayCommand, VehicleEvent, event_not_set}
use iv_cloud_gateway.Stream.{
  State, create, accepting, reading, finish, Handler, Grpc, Call, request_stream, read,
  finish_stream, World, ask, clear_active, write_done, push_back, push_to, push_command,
  on_write_done, proceed_create,
}
use iv_cloud_gateway.Stream.Incoming.{Gateway, proceed_in, proceed}
use iv_cloud_gateway.Stream.Steps.{
  settle, settle_write, Step, completed, wrote, pushed, Reach, here, next,
}
use iv_cloud_gateway.Stream.Order.{sent, push_back-sent_other, write_done-sent_other}
use iv_cloud_gateway.Stream.Heap.{
  feed, put, flushed, accepted, gone_on, on_write_done_gone, on_write_done_live, enqueue_live,
  accept_live, go_on_live,
}
use iv_cloud_gateway.Stream.Tags.{Inv, IsReading}
use iv_cloud_gateway.Stream.Live.{handle_incoming-cases, Step-Inv}
use iv_cloud_gateway.Stream.Delivery.{sent-ask}
use iv_cloud_gateway.Stream.Races.{hung_up, let_go, hangs_up, lets_go}

module _ {C : Type 0} where
  pub feed-sent_other :
      (id j : ℕ) (cs : List C) (h : Handler C) (g : Grpc C)
      → j ≢ id
      → sent j (feed id cs h g).1.calls ≡ sent j g.calls
  unfolding feed
  feed-sent_other id j [] h g ne = refl
  feed-sent_other id j (c ∷ cs) h g ne =
      let (h', g') = push_back id c h g in
      feed-sent_other id j cs h' g' ne ∙ push_back-sent_other id j c h g ne

module _ {C T : Type 0} where
  -- A handler that was deleted: its number is no new one's.
  abbrev pub Gone : ℕ → World C T → Type 0
  Gone id w = (w.heap id ≡ none) × (id < w.next)

  -- A call leaves a deleted handler deleted, and writes nothing to its stream.
  abbrev StaysGone : ℕ → World C T → Result (World C T) → Type 0
  StaysGone id w (ok v) = Gone id v × (sent id v.grpc.calls ≡ sent id w.grpc.calls)
  StaysGone id w (err e) = Unit

  apart : (id j : ℕ) (w : World C T) (h : Handler C) → Gone id w → w.heap j ≡ some h → id ≢ j
  apart id j w h (gone, old) live p = cc

  put-StaysGone :
      (id j : ℕ) (r : Handler C × Grpc C) (w : World C T)
      → Gone id w
      → id ≢ j
      → sent id r.1.calls ≡ sent id w.grpc.calls
      → StaysGone id w (ok (put j r w))
  put-StaysGone id j r w (gone, old) ne e = ((ground arith, old), e)

  gone_on-StaysGone :
      (id j : ℕ) (s : State) (c : Call C) (h : Handler C) (w : World C T)
      → Gone id w
      → id ≢ j
      → sent id (c ∷ []) ≡ []
      → StaysGone id w (ok (gone_on j s c h w))
  gone_on-StaysGone id j s c h w (gone, old) ne e = ((ground arith, old), sent-ask id j c w.grpc e)

  accepted-StaysGone :
      (id j : ℕ) (h : Handler C) (w : World C T)
      → Gone id w
      → id ≢ j
      → StaysGone id w (ok (accepted j h w))
  accepted-StaysGone id j h w (gone, old) ne = (
    (ground arith, omega arith),
    sent-ask id j (read j) (flushed j h w).1 refl
        ∙ (feed-sent_other j id w.pending h (ask (request_stream w.next) w.next w.grpc) ne
            ∙ sent-ask id w.next (request_stream w.next) w.grpc refl),
  )

  push_to-StaysGone :
      (a : Option ℕ) (id : ℕ) (c : C) (w : World C T)
      → IsReading w.heap a
      → Gone id w
      → StaysGone id w (push_to a c w)
  unfolding push_to
  push_to-StaysGone none id c w r gone = (gone, refl)
  push_to-StaysGone (some j) id c w (h, live, r) gone =
      let ne = apart id j w h gone live in
      rw (enqueue_live j c w h live) (
        put-StaysGone id j (push_back j c h w.grpc) w gone ne
          (push_back-sent_other j id c h w.grpc ne))

  on_write_done-StaysGone :
      (id j : ℕ) (success : Bool) (w : World C T)
      → Gone id w
      → StaysGone id w (on_write_done j success (settle_write j w))
  on_write_done-StaysGone id j success w gone = elim (Option-cases (w.heap j)) [
    | inl absent ↦ rw (on_write_done_gone j success (settle_write j w) absent) tt
    | inr (h, live) ↦
        let ne = apart id j w h gone live in
        let g = (settle_write j w).grpc in
        rw (on_write_done_live j success (settle_write j w) h live) (
          put-StaysGone id j (write_done j success h g) w gone ne
            (write_done-sent_other j id success h g ne))
  ]

module _ (J : Json) where
  proceed_in-StaysGone :
      (s : State) (id j : ℕ) (success : Bool) (ev : VehicleEvent J.Double) (w : Gateway J)
      (h : Handler (GatewayCommand J.Double))
      → Inv w
      → Gone id w
      → w.heap j ≡ some h
      → StaysGone id w (proceed_in J s j success ev (settle j w))
  unfolding proceed_in proceed_create
  proceed_in-StaysGone create id j success ev w h i gone live =
      rw (live, proceed_in)
        (gone_on-StaysGone id j accepting (request_stream j) h (settle j w) gone
          (apart id j w h gone live) refl)
  proceed_in-StaysGone accepting id j false ev w h i gone live = ((ground arith, gone.1), refl)
  proceed_in-StaysGone accepting id j true ev w h i gone live =
      rw (accept_live j (settle j w) h live (λ p. ground (arith, i.unused j)))
        (accepted-StaysGone id j h (settle j w) gone (apart id j w h gone live))
  proceed_in-StaysGone reading id j false ev w h i gone live =
      let w' = clear_active j (settle j w) in
      subst (λ u. StaysGone id w (ok u)) (sym (go_on_live j finish (finish_stream j) w' h live))
        (gone_on-StaysGone id j finish (finish_stream j) h w' gone (apart id j w h gone live) refl)
  proceed_in-StaysGone reading id j true ev w h i gone live =
      elim (handle_incoming-cases J ev (settle j w)) [
        | inl failed ↦ rw failed tt
        | inr (p, done) ↦
            let w' = record (settle j w) { published = p } in
            rw done (
              subst (λ u. StaysGone id w (ok u)) (sym (go_on_live j reading (read j) w' h live))
                (gone_on-StaysGone id j reading (read j) h w' gone (apart id j w h gone live) refl))
      ]
  proceed_in-StaysGone finish id j success ev w h i gone live = ((ground arith, gone.1), refl)

  proceed-StaysGone :
      (id j : ℕ) (success : Bool) (ev : VehicleEvent J.Double) (w : Gateway J)
      → Inv w
      → Gone id w
      → StaysGone id w (proceed J j success ev (settle j w))
  unfolding proceed
  proceed-StaysGone id j success ev w i gone = elim (Option-cases (w.heap j)) [
    | inl absent ↦ rw (absent, proceed) tt
    | inr (h, live) ↦
        rw (live, proceed) (proceed_in-StaysGone h.state id j success ev w h i gone live)
  ]

  Step-StaysGone :
      (id : ℕ) {u v : Gateway J} → Step J u v → Inv u → Gone id u → StaysGone id u (ok v)
  unfolding push_command
  Step-StaysGone id {u} (completed j success ev due e) i gone =
      subst (StaysGone id u) e (proceed-StaysGone id j success ev u i gone)
  Step-StaysGone id {u} (wrote j success due e) i gone =
      subst (StaysGone id u) e (on_write_done-StaysGone id j success u gone)
  Step-StaysGone id {u} (pushed c e) i gone =
      subst (StaysGone id u) e (push_to-StaysGone u.active id c u i.active gone)

  Reach-StaysGone :
      (id : ℕ) {u v : Gateway J} → Reach J u v → Inv u → Gone id u → Inv v × StaysGone id u (ok v)
  Reach-StaysGone id here i gone = (i, (gone, refl))
  Reach-StaysGone id (next r st) i gone =
      let (i', (gone', same)) = Reach-StaysGone id r i gone in
      let (gone'', same') = Step-StaysGone id st i' gone' in
      (Step-Inv J st i', (gone'', same' ∙ same))

  let_go-Gone :
      (id : ℕ) (w : Gateway J) (h : Handler (GatewayCommand J.Double))
      → Inv w
      → w.heap id ≡ some h
      → Gone id (let_go J id h w)
  unfolding clear_active
  let_go-Gone id w h i live = (rw (==_refl id) refl, ground (arith, i.unused id))

  -- A handler reads, and the accounts are in order. Then two steps are possible: its read fails,
  -- and the `Finish` that follows completes. After them the handler is deleted, whatever is in its
  -- queue, what is pending is the same, and in every world that is reached from there the commands
  -- written to its stream are those that were written before the two steps.
  pub queue_is_lost :
      (id : ℕ) (w x : Gateway J) (h : Handler (GatewayCommand J.Double))
      → Inv w
      → w.heap id ≡ some h
      → h.state ≡ reading
      → Reach J (let_go J id h w) x
      → Step J w (hung_up J id h w)
        × Step J (hung_up J id h w) (let_go J id h w)
        × ((let_go J id h w).heap id ≡ none)
        × ((let_go J id h w).pending ≡ w.pending)
        × (sent id x.grpc.calls ≡ sent id w.grpc.calls)
  unfolding clear_active
  queue_is_lost id w x h i live r later =
      let st = hangs_up J id event_not_set w h i live r in
      let st' = lets_go J id event_not_set w h i live in
      let gone = let_go-Gone id w h i live in
      let (kept, same) = Reach-StaysGone id later (Step-Inv J st' (Step-Inv J st i)) gone in
      (st, st', gone.0, refl, same.1 ∙ sent-ask id id (finish_stream id) w.grpc refl)
