-- ===== src/Stream/Drain.antt =====
-- src/services/vehicle_stream_handler.h: a queue while gRPC completes the writes to its stream.
use mathlib.Core.List.{append-nil}
use iv_cloud_gateway.Base.{
  ℕ, ◌≡◌, refl, sym, ◌∙◌, ap, subst, ◌≢◌, true, List, [], ◌∷◌, ◌++◌, some, ok, arith, ==_refl,
}
use iv_cloud_gateway.Json.{Json}
use iv_cloud_gateway.Proto.{GatewayCommand, VehicleEvent, event_not_set}
use iv_cloud_gateway.Stream.{
  accepting, reading, Handler, Grpc, World, push_back, push_command, write_done, ask,
  request_stream, flush_write_queue_locked,
}
use iv_cloud_gateway.Stream.Incoming.{Gateway, proceed_in, proceed}
use iv_cloud_gateway.Stream.Steps.{
  settle, settle_write, Step, completed, wrote, pushed, Reach, here, next,
}
use iv_cloud_gateway.Stream.Order.{sent, push_back-line}
use iv_cloud_gateway.Stream.Heap.{feed, put, flushed, accepted, accept_live, on_write_done_live}
use iv_cloud_gateway.Stream.Tags.{Inv, IsReading}
use iv_cloud_gateway.Stream.Live.{Step-Inv}
use iv_cloud_gateway.Stream.Delivery.{queue_of, line_of, put-line, push_active, accepted-line}
use iv_cloud_gateway.Stream.Session.{pushes, wrote-line}

module _ {C : Type 0} where
  -- The handler after a write that succeeded, with commands left.
  write_done-next :
      (id : ℕ) (c : C) (cs : List C) (h : Handler C) (g : Grpc C)
      → h.write_queue ≡ c ∷ cs
      → (write_done id true h g).0 ≡ record h { writing = true; write_queue = cs }
  unfolding write_done flush_write_queue_locked
  write_done-next id c cs h g e = rw e refl

  flush-writing :
      (id : ℕ) (h : Handler C) (g : Grpc C)
      → h.write_queue ≢ []
      → (flush_write_queue_locked id h g).0.writing ≡ true
  unfolding flush_write_queue_locked
  flush-writing id h g ne = ground arith

  append-ne : (xs : List C) (c : C) → xs ++ c ∷ [] ≢ []
  append-ne [] c e = cc
  append-ne (x ∷ xs) c e = cc

  -- After a push a write is in flight.
  push_back-writing :
      (id : ℕ) (c : C) (h : Handler C) (g : Grpc C) → (push_back id c h g).0.writing ≡ true
  unfolding push_back
  push_back-writing id c h g =
      let h' = record h { write_queue = h.write_queue ++ c ∷ [] } in
      ground (arith, flush-writing id h' g (append-ne h.write_queue c))

  feed-writing :
      (id : ℕ) (cs : List C) (h : Handler C) (g : Grpc C)
      → h.writing ≡ true
      → (feed id cs h g).0.writing ≡ true
  unfolding feed
  feed-writing id [] h g e = e
  feed-writing id (c ∷ cs) h g e =
      let (h', g') = push_back id c h g in feed-writing id cs h' g' (push_back-writing id c h g)

module _ {C T : Type 0} where
  -- Commands that were pending are being written.
  pending-writing :
      (id : ℕ) (c : C) (cs : List C) (h : Handler C) (w : World C T)
      → w.pending ≡ c ∷ cs
      → (flushed id h w).0.writing ≡ true
  unfolding feed
  pending-writing id c cs h w e =
      let g = ask (request_stream w.next) w.next w.grpc in
      let (h', g') = push_back id c h g in
      rw e (feed-writing id cs h' g' (push_back-writing id c h g))

module _ (J : Json) where
  pub Reach-step : {u v w : Gateway J} → Step J u v → Reach J v w → Reach J u w
  Reach-step st here = next here st
  Reach-step st (next r last) = next (Reach-step st r) last

  -- Steps of gRPC alone, in which no command is pushed.
  pub data Driven : Gateway J → Gateway J → Type 0 where
    idle : {u : Gateway J} → Driven u u
    driven : {u v w : Gateway J} (st : Step J u v) → pushes J st ≡ [] → Driven v w → Driven u w

  -- A world that is reached without a push, in which all of the line of `id` is written and nothing
  -- else about the active handler and the pending commands has changed.
  pub record Drained (id : ℕ) (u w : Gateway J) : Type 0 where
    pub reached : Driven u w
    pub queue : queue_of (w.heap id) ≡ []
    pub sent : sent id w.grpc.calls ≡ line_of id u
    pub pending : w.pending ≡ u.pending
    pub active : w.active ≡ u.active

  drain_from :
      (q : List (GatewayCommand J.Double)) (id : ℕ) (w : Gateway J)
      (h : Handler (GatewayCommand J.Double))
      → Inv w
      → w.heap id ≡ some h
      → h.writing ≡ true
      → h.write_queue ≡ q
      → (v : Gateway J) × Drained id w v
  drain_from [] id w h i live busy e = (
    w,
    record {
      reached = idle;
      queue = rw (live) e;
      sent = sym (rw (live, e) (append-nil (sent id w.grpc.calls)));
      pending = refl;
      active = refl;
    },
  )
  drain_from (c ∷ cs) id w h i live busy e =
      let w' = put id (write_done id true h (settle_write id w).grpc) (settle_write id w) in
      let st : Step J w w' =
        wrote id true (ground (arith, i.fits id))
          (on_write_done_live id true (settle_write id w) h live) in
      let h' = (write_done id true h (settle_write id w).grpc).0 in
      let done = write_done-next id c cs h (settle_write id w).grpc e in
      let (v, d) =
        drain_from cs id w' h' (Step-Inv J st i) (rw (==_refl id)) (ap (λ x. x.writing) done)
          (ap (λ x. x.write_queue) done) in
      (
        v,
        record {
          reached = driven st refl d.reached;
          queue = d.queue;
          sent = d.sent ∙ wrote-line J id id true w h live;
          pending = d.pending;
          active = d.active;
        },
      )

  -- Once a write is in flight, and all later writes succeed, the queue of a handler is written.
  drain :
      (id : ℕ) (w : Gateway J) (h : Handler (GatewayCommand J.Double))
      → Inv w
      → w.heap id ≡ some h
      → h.writing ≡ true
      → (v : Gateway J) × Drained id w v
  drain id w h i live busy = drain_from h.write_queue id w h i live busy refl

  -- A handler is active and the accounts are in order. Then a push returns, and from there the
  -- gateway can reach, without another push, a world in which all that had been written to that
  -- handler's stream or waited in its queue, and then the pushed command, has been written in this
  -- order, with an empty queue; the handler is still active and what is pending is as before.
  pub pushed_is_sent :
      (id : ℕ) (c : GatewayCommand J.Double) (w : Gateway J)
      → Inv w
      → w.active ≡ some id
      → (u : Gateway J) × (v : Gateway J) × (push_command c w ≡ ok u)
        × Driven u v
        × (sent id v.grpc.calls ≡ line_of id w ++ c ∷ [])
        × (queue_of (v.heap id) ≡ [])
        × (v.active ≡ some id)
        × (v.pending ≡ w.pending)
  pushed_is_sent id c w i now =
      let (h, live, r) = subst (IsReading w.heap) now i.active in
      let (h', g') = push_back id c h w.grpc in
      let u = put id (h', g') w in
      let done = push_active id c w h now live in
      let (v, d) =
        drain id u h' (Step-Inv J (pushed c done) i) (rw (==_refl id))
          (push_back-writing id c h w.grpc) in
      (
        u,
        v,
        done,
        d.reached,
        d.sent ∙ (put-line id h' g' w ∙ rw live (push_back-line id c h w.grpc)),
        d.queue,
        d.active ∙ now,
        d.pending,
      )

  -- A connection on a handler that waits for one.
  pub accept-Step :
      (id : ℕ) (ev : VehicleEvent J.Double) (w : Gateway J) (h : Handler (GatewayCommand J.Double))
      → Inv w
      → w.heap id ≡ some h
      → h.state ≡ accepting
      → Step J w (accepted id h (settle id w))
  unfolding proceed proceed_in
  accept-Step id ev w h i live waits =
      let ne : id ≢ w.next = λ p. ground (arith, i.unused id) in
      let turn = ap (λ s. proceed_in J s id true ev (settle id w)) waits in
      completed id true ev (ground (arith, i.fits id))
        (rw (live, proceed) (turn ∙ accept_live id (settle id w) h live ne))

  -- A handler waits for a connection, with the accounts in order and some commands pending. Then
  -- the gateway can reach, without a push, a world in which that handler is active, everything that
  -- was in its line and all that was pending has been written to its stream in this order, its
  -- queue is empty and nothing is pending.
  pub pending_is_sent :
      (id : ℕ) (c : GatewayCommand J.Double) (cs : List (GatewayCommand J.Double)) (w : Gateway J)
      (h : Handler (GatewayCommand J.Double))
      → Inv w
      → w.heap id ≡ some h
      → h.state ≡ accepting
      → w.pending ≡ c ∷ cs
      → (v : Gateway J) × Driven w v
        × (sent id v.grpc.calls ≡ line_of id w ++ c ∷ cs)
        × (queue_of (v.heap id) ≡ [])
        × (v.active ≡ some id)
        × (v.pending ≡ [])
  unfolding accept-Step
  pending_is_sent id c cs w h i live waits e =
      let u = accepted id h (settle id w) in
      let st = accept-Step id event_not_set w h i live waits in
      let h' = record ((flushed id h (settle id w)).0) { state = reading } in
      let busy = pending-writing id c cs h (settle id w) e in
      let (v, d) = drain id u h' (Step-Inv J st i) (rw (==_refl id)) busy in
      let all = accepted-line id (settle id w) h live ∙ ap (λ l. line_of id w ++ l) e in
      (v, driven st refl d.reached, d.sent ∙ all, d.queue, d.active, d.pending)
