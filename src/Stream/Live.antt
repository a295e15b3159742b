-- ===== src/Stream/Live.antt =====
-- src/services/vehicle_stream_handler.h: accesses to handlers, and the accounts of `Inv`, over any
-- steps.
use iv_cloud_gateway.Base.{
  ok-injective, sym, ◌∙◌, ℕ, ◌<◌, ◌≡◌, refl, ◌⊎◌, inl, inr, Bool, true, false, String, List, Option,
  none, some, Result, ok, err, json_exception, std_exception, dangling, arith, Option-cases, subst,
  [], ◌∷◌, ◌++◌,
}
use iv_cloud_gateway.Json.{Json}
use iv_cloud_gateway.Proto.{GatewayCommand, VehicleEvent}
use iv_cloud_gateway.Stream.{
  State, create, accepting, reading, finish, Handler, read, finish_stream, World, clear_active,
  write_done, push_back, push_command, on_write_done, push_to,
}
use iv_cloud_gateway.Stream.Incoming.{
  Gateway, report, publish, handle_incoming, proceed_in, proceed,
}
use iv_cloud_gateway.Stream.Steps.{
  settle, settle_write, start, Step, completed, wrote, pushed, Reach, here, next,
}
use iv_cloud_gateway.Stream.Heap.{
  put, on_handler_live, enqueue_live, accept_live, go_on_live, on_write_done_gone,
}
use iv_cloud_gateway.Stream.Tags.{
  IsReading, Inv, start-Inv, push_back-Keeps, write_done-Inv, put-Inv, not-active, gone_on-Inv,
  delete-Inv, clear_active-Inv, clear_active-ne, accepted-Inv, create-Inv, IsReading-keep,
  IsReading-update,
}

module _ {C T : Type 0} where
  -- A call that returns leaves the accounts in order, and one that throws is no stray access.
  abbrev pub Safe : Result (World C T) → Type 0
  Safe (ok w) = Inv w
  Safe (err json_exception) = Unit
  Safe (err std_exception) = Unit
  Safe (err dangling) = ⊥

  -- A push comes back and keeps the accounts, if they were in order.
  pub push_command-ok :
      (c : C) (w : World C T) → Inv w → (w' : World C T) × (push_command c w ≡ ok w') × Inv w'
  unfolding push_command
  push_command-ok c w v = pushed_to w.active v.active
    where
      pushed_to :
          (a : Option ℕ) → IsReading w.heap a → (w' : World C T) × (push_to a c w ≡ ok w') × Inv w'
      pushed_to none r = (
        record w { pending = w.pending ++ c ∷ [] },
        refl,
        record { fits = v.fits; unused = v.unused; active = v.active },
      )
      pushed_to (some id) (h, live, r) = (
        put id (push_back id c h w.grpc) w,
        enqueue_live id c w h live,
        put-Inv id h _ _ w live (push_back-Keeps id c h w.grpc) v,
      )

  -- The completion of a write, to a handler that is still alive.
  pub on_write_done-Safe :
      (id : ℕ) (success : Bool) (w : World C T) (h : Handler C)
      → Inv w
      → w.heap id ≡ some h
      → 0 < w.grpc.owed_writes id
      → Safe (on_write_done id success (settle_write id w))
  unfolding on_write_done
  on_write_done-Safe id success w h v live due =
      rw (on_handler_live id (write_done id success) (settle_write id w) h live)
        (write_done-Inv id success h w v live due)

module _ (J : Json) where
  pub handle_incoming-cases :
      (ev : VehicleEvent J.Double) (w : Gateway J)
      → (handle_incoming J ev w ≡ err json_exception)
        ⊎ ((p : List (String × J.Text)) × (handle_incoming J ev w
              ≡ ok (record w { published = p })))
  unfolding handle_incoming
  handle_incoming-cases ev w = reported (report J ev)
    where
      reported :
          (r : Option (String × J.Value))
          → (publish J r w ≡ err json_exception)
            ⊎ ((p : List (String × J.Text)) × (publish J r w ≡ ok (record w { published = p })))
      reported none = inr (w.published, refl)
      reported (some (topic, j)) = elim (Option-cases (J.dump j)) [
        | inl failed ↦ inl (rw failed)
        | inr (payload, done) ↦ inr (w.published ++ (topic, payload) ∷ [], rw done)
      ]

  proceed_in-Safe :
      (s : State) (id : ℕ) (success : Bool) (ev : VehicleEvent J.Double) (w : Gateway J)
      (h : Handler (GatewayCommand J.Double))
      → Inv w
      → w.heap id ≡ some h
      → h.state ≡ s
      → Safe (proceed_in J s id success ev (settle id w))
  unfolding proceed_in
  proceed_in-Safe create id success ev w h v live e =
      rw (live, proceed_in) (create-Inv id h w v live (ground arith))
  proceed_in-Safe accepting id false ev w h v live e =
      delete-Inv id h w v live (not-active w id h v live (ground arith))
  proceed_in-Safe accepting id true ev w h v live e =
      rw (accept_live id (settle id w) h live (λ p. ground (arith, v.unused id)))
        (accepted-Inv id h w v live)
  proceed_in-Safe reading id false ev w h v live e =
      let cleared = clear_active-Inv id w v in
      let ne = clear_active-ne id w in
      rw (go_on_live id finish (finish_stream id) (clear_active id (settle id w)) h live) (
        gone_on-Inv id finish (finish_stream id) h (clear_active id w) cleared live
          (IsReading-update w.heap _ id _ ne cleared.active))
  proceed_in-Safe reading id true ev w h v live e = elim (handle_incoming-cases ev (settle id w)) [
    | inl failed ↦ rw failed tt
    | inr (p, done) ↦
        rw (done, go_on_live id reading (read id) (record (settle id w) { published = p }) h live)
          (gone_on-Inv id reading (read id) h (record w { published = p })
            (record { fits = v.fits; unused = v.unused; active = v.active }) live
            (IsReading-keep w.heap w.active id h _ live (ground arith) v.active))
  ]
  proceed_in-Safe finish id success ev w h v live e =
      delete-Inv id h (clear_active id w) (clear_active-Inv id w v) live (clear_active-ne id w)

  -- With the accounts in order, the completion of an operation that is owed to a handler is
  -- handled: the handler is alive, the accounts hold after it, and it throws at most the
  -- exception of a payload that cannot be serialised.
  pub proceed-Safe :
      (id : ℕ) (success : Bool) (ev : VehicleEvent J.Double) (w : Gateway J)
      → Inv w
      → 0 < w.grpc.owed id
      → Safe (proceed J id success ev (settle id w))
  unfolding proceed
  proceed-Safe id success ev w v due = elim (Option-cases (w.heap id)) [
    | inl gone ↦ absurd (ground (arith, v.fits id))
    | inr (h, live) ↦ rw (live, proceed) (proceed_in-Safe h.state id success ev w h v live refl)
  ]

  Safe-ok : (r : Result (Gateway J)) (w : Gateway J) → Safe r → r ≡ ok w → Inv w
  Safe-ok r w s e = subst Safe e s

  wrote-alive :
      (id : ℕ) (success : Bool) (w w' : Gateway J)
      → Inv w
      → 0 < w.grpc.owed_writes id
      → on_write_done id success (settle_write id w) ≡ ok w'
      → Inv w'
  wrote-alive id success w w' v due e = elim (Option-cases (w.heap id)) [
    | inl gone ↦ cc (on_write_done_gone id success (settle_write id w) gone)
    | inr (h, live) ↦ Safe-ok _ w' (on_write_done-Safe id success w h v live due) e
  ]

  pub Step-Inv : {w w' : Gateway J} → Step J w w' → Inv w → Inv w'
  Step-Inv {w} {w'} (completed id success ev due e) v =
      Safe-ok _ w' (proceed-Safe id success ev w v due) e
  Step-Inv {w} {w'} (wrote id success due e) v = wrote-alive id success w w' v due e
  Step-Inv {w} {w'} (pushed c e) v =
      let (u, done, v') = push_command-ok c w v in subst Inv (ok-injective (sym done ∙ e)) v'

  -- In every world that the gateway reaches each handler that is alive has exactly one operation of
  -- its own in flight, and a write in flight just while `writing_` is set; a deleted one has none
  -- of its own; and `active_` points to a handler that is alive and reads.
  pub Reach-Inv : {w : Gateway J} → Reach J start w → Inv w
  Reach-Inv here = start-Inv
  Reach-Inv (next r st) = Step-Inv st (Reach-Inv r)
