-- ===== src/Stream/Flow.antt =====
-- src/services/vehicle_stream_handler.h: no command waits in a queue without a write in flight.
use iv_cloud_gateway.Base.{
  ℕ, ◌<◌, ◌≡◌, refl, sym, subst, ◌⊎◌, inl, inr, Bool, true, false, List, [], ◌∷◌, ◌++◌, Option,
  none, some, Result, ok, err, arith, Option-cases, update, ℕ_discrete as dec_ℕ, ==_refl,
}
use iv_cloud_gateway.Json.{Json}
use iv_cloud_gateway.Proto.{GatewayCommand, VehicleEvent}
use iv_cloud_gateway.Stream.{
  State, create, accepting, reading, finish, Handler, Grpc, finish_stream, read, clear_active,
  on_write_done, push_back, write_done, flush_write_queue_locked, push_to, push_command,
  proceed_create, request_stream, ask, new_handler,
}
use iv_cloud_gateway.Stream.Incoming.{Gateway, proceed_in, proceed}
use iv_cloud_gateway.Stream.Steps.{
  settle, settle_write, start, Step, completed, wrote, pushed, Reach, here, next,
}
use iv_cloud_gateway.Stream.Heap.{
  feed, accept_live, go_on_live, on_write_done_gone, on_write_done_live, enqueue_live,
}
use iv_cloud_gateway.Stream.Tags.{Inv, IsReading, Fits}
use iv_cloud_gateway.Stream.Live.{handle_incoming-cases, Reach-Inv}

module _ {C : Type 0} where
  -- A write is in flight, or nothing waits for one.
  abbrev Flows : Handler C → Type 0
  Flows h = (h.writing ≡ true) ⊎ (h.write_queue ≡ [])

  flush-Flows :
      (id : ℕ) (s : State) (q : List C) (busy : Bool) (g : Grpc C)
      → let h : Handler C = record { state = s; write_queue = q; writing = busy } in
        Flows (flush_write_queue_locked id h g).0
  unfolding flush_write_queue_locked
  flush-Flows id s [] busy g = inr refl
  flush-Flows id s (c ∷ q) true g = inl refl
  flush-Flows id s (c ∷ q) false g = inl refl

  pushed-Flows :
      (id : ℕ) (c : C) (s : State) (q : List C) (busy : Bool) (g : Grpc C)
      → let h : Handler C = record { state = s; write_queue = q; writing = busy } in
        Flows (push_back id c h g).0
  unfolding push_back
  pushed-Flows id c s q true g = inl refl
  pushed-Flows id c s q false g = flush-Flows id s (q ++ c ∷ []) false g

  push_back-Flows : (id : ℕ) (c : C) (h : Handler C) (g : Grpc C) → Flows (push_back id c h g).0
  push_back-Flows id c h g = pushed-Flows id c h.state h.write_queue h.writing g

  write_done-Flows : (id : ℕ) (h : Handler C) (g : Grpc C) → Flows (write_done id true h g).0
  unfolding write_done
  write_done-Flows id h g = flush-Flows id h.state h.write_queue false g

  feed-Flows :
      (id : ℕ) (cs : List C) (h : Handler C) (g : Grpc C) → Flows h → Flows (feed id cs h g).0
  unfolding feed
  feed-Flows id [] h g f = f
  feed-Flows id (c ∷ cs) h g f =
      let (h', g') = push_back id c h g in feed-Flows id cs h' g' (push_back-Flows id c h g)

  abbrev FlowsAt : Option (Handler C) → Type 0
  FlowsAt none = Unit
  FlowsAt (some h) = Flows h

  abbrev AllFlow : (ℕ → Option (Handler C)) → Type 0
  AllFlow heap = (id : ℕ) → FlowsAt (heap id)

  update-AllFlow :
      (heap : ℕ → Option (Handler C)) (id : ℕ) (x : Option (Handler C))
      → FlowsAt x
      → AllFlow heap
      → AllFlow (update heap id x)
  update-AllFlow heap id x f all j = elim (dec_ℕ j id) [
    | yes same ↦ rw (same, ==_refl id) f
    | no other ↦ let kept : update heap id x j ≡ heap j = ground arith in rw kept (all j)
  ]

  live-Flows :
      (heap : ℕ → Option (Handler C)) (id : ℕ) (h : Handler C)
      → heap id ≡ some h
      → AllFlow heap
      → Flows h
  live-Flows heap id h live all = subst FlowsAt live (all id)

module _ (J : Json) where
  -- A call that returns leaves no handler with commands that wait for nothing.
  abbrev Leaves : Result (Gateway J) → Type 0
  Leaves (ok v) = AllFlow v.heap
  Leaves (err e) = Unit

  proceed_in-Leaves :
      (s : State) (id : ℕ) (success : Bool) (ev : VehicleEvent J.Double) (w : Gateway J)
      (h : Handler (GatewayCommand J.Double))
      → Inv w
      → w.heap id ≡ some h
      → AllFlow w.heap
      → Leaves (proceed_in J s id success ev (settle id w))
  unfolding proceed_in proceed_create clear_active
  proceed_in-Leaves create id success ev w h i live all =
      rw (live, proceed_in) (update-AllFlow w.heap id _ (live-Flows w.heap id h live all) all)
  proceed_in-Leaves accepting id false ev w h i live all = update-AllFlow w.heap id none tt all
  proceed_in-Leaves accepting id true ev w h i live all =
      let w' = settle id w in
      let g = ask (request_stream w.next) w.next w'.grpc in
      rw (accept_live id w' h live (λ p. ground (arith, i.unused id))) (
        update-AllFlow (update w.heap w.next _) id _
          (feed-Flows id w.pending h g (live-Flows w.heap id h live all))
          (update-AllFlow w.heap w.next _ (inr refl) all))
  proceed_in-Leaves reading id false ev w h i live all =
      let w' = clear_active id (settle id w) in
      subst (λ u. Leaves (ok u)) (sym (go_on_live id finish (finish_stream id) w' h live))
        (update-AllFlow w.heap id _ (live-Flows w.heap id h live all) all)
  proceed_in-Leaves reading id true ev w h i live all =
      elim (handle_incoming-cases J ev (settle id w)) [
        | inl failed ↦ rw failed tt
        | inr (p, done) ↦
            let w' = record (settle id w) { published = p } in
            rw done (
              subst (λ u. Leaves (ok u)) (sym (go_on_live id reading (read id) w' h live))
                (update-AllFlow w.heap id _ (live-Flows w.heap id h live all) all))
      ]
  proceed_in-Leaves finish id success ev w h i live all = update-AllFlow w.heap id none tt all

  proceed-Leaves :
      (id : ℕ) (success : Bool) (ev : VehicleEvent J.Double) (w : Gateway J)
      → Inv w
      → AllFlow w.heap
      → Leaves (proceed J id success ev (settle id w))
  unfolding proceed
  proceed-Leaves id success ev w i all = elim (Option-cases (w.heap id)) [
    | inl absent ↦ rw (absent, proceed) tt
    | inr (h, live) ↦ rw (live, proceed) (proceed_in-Leaves h.state id success ev w h i live all)
  ]

  push_to-Leaves :
      (a : Option ℕ) (c : GatewayCommand J.Double) (w : Gateway J)
      → IsReading w.heap a
      → AllFlow w.heap
      → Leaves (push_to a c w)
  unfolding push_to
  push_to-Leaves none c w r all = all
  push_to-Leaves (some id) c w (h, live, r) all =
      rw (enqueue_live id c w h live)
        (update-AllFlow w.heap id _ (push_back-Flows id c h w.grpc) all)

  on_write_done-Leaves :
      (id : ℕ) (success : Bool) (w : Gateway J)
      → success ≡ true
      → AllFlow w.heap
      → Leaves (on_write_done id success (settle_write id w))
  on_write_done-Leaves id false w s all = cc
  on_write_done-Leaves id true w s all = elim (Option-cases (w.heap id)) [
    | inl absent ↦ rw (on_write_done_gone id true (settle_write id w) absent) tt
    | inr (h, live) ↦
        rw (on_write_done_live id true (settle_write id w) h live)
          (update-AllFlow w.heap id _ (write_done-Flows id h (settle_write id w).grpc) all)
  ]

  -- No write failed in a step, and in a run.
  abbrev pub Succeeds : {u v : Gateway J} → Step J u v → Type 0
  Succeeds (completed id success ev due e) = Unit
  Succeeds (wrote id success due e) = success ≡ true
  Succeeds (pushed c e) = Unit

  abbrev pub AllSucceed : {u v : Gateway J} → Reach J u v → Type 0
  AllSucceed here = Unit
  AllSucceed (next r st) = AllSucceed r × Succeeds st

  Step-AllFlow :
      {u v : Gateway J} (st : Step J u v) → Succeeds st → Inv u → AllFlow u.heap → AllFlow v.heap
  unfolding push_command
  Step-AllFlow {u} (completed id success ev due e) s i all =
      subst Leaves e (proceed-Leaves id success ev u i all)
  Step-AllFlow {u} (wrote id success due e) s i all =
      subst Leaves e (on_write_done-Leaves id success u s all)
  Step-AllFlow {u} (pushed c e) s i all = subst Leaves e (push_to-Leaves u.active c u i.active all)

  Reach-AllFlow : {w : Gateway J} (r : Reach J start w) → AllSucceed r → AllFlow w.heap
  unfolding start new_handler proceed_create
  Reach-AllFlow here s = update-AllFlow (λ id. none) 0 _ (inr refl) (λ id. tt)
  Reach-AllFlow (next r st) (s, now) = Step-AllFlow st now (Reach-Inv J r) (Reach-AllFlow r s)

  -- In every world that the gateway reaches without a write that failed, a handler that is alive
  -- has a write in flight, or no command waits in its queue.
  pub never_stalls :
      {w : Gateway J} (id : ℕ) (h : Handler (GatewayCommand J.Double)) (r : Reach J start w)
      → AllSucceed r
      → w.heap id ≡ some h
      → (0 < w.grpc.owed_writes id) ⊎ (h.write_queue ≡ [])
  never_stalls {w} id h r s live =
      let fits =
        subst (λ x. Fits x (w.grpc.owed id) (w.grpc.owed_writes id)) live
          ((Reach-Inv J r).fits id) in
      elim (live-Flows w.heap id h live (Reach-AllFlow r s)) [
        | inl busy ↦ inl (ground (arith, fits.1))
        | inr nothing ↦ inr nothing
      ]
