-- ===== src/Stream/Races.antt =====
-- src/services/vehicle_stream_handler.h: two orders of events that the locks do not exclude.
use iv_cloud_gateway.Base.{
  ℕ, ◌<◌, ◌≡◌, refl, Bool, true, false, List, [], ◌∷◌, ◌++◌, none, some, ok, err, dangling, arith,
  ==_refl, ap,
}
use iv_cloud_gateway.Json.{Json}
use iv_cloud_gateway.Proto.{GatewayCommand, VehicleEvent}
use iv_cloud_gateway.Stream.{
  finish, reading, Handler, finish_stream, clear_active, push_to, push_command, push_back, release,
  disconnect, delete, on_write_done,
}
use iv_cloud_gateway.Stream.Incoming.{Gateway, proceed, proceed_in}
use iv_cloud_gateway.Stream.Steps.{settle, settle_write, Step, completed}
use iv_cloud_gateway.Stream.Heap.{on_handler_gone, on_write_done_gone, gone_on, go_on_live}
use iv_cloud_gateway.Stream.Tags.{Inv}
use iv_cloud_gateway.Stream.Delivery.{line_of}
use iv_cloud_gateway.Stream.Session.{Session, Session-line}

module _ (J : Json) where
  abbrev pub late : GatewayCommand J.Double → Gateway J → Gateway J
  late c u = record u { pending = u.pending ++ c ∷ [] }

  -- A command whose `push_command` read `active_` before the connection `id` was accepted, and
  -- which goes on after it: it joins the pending commands, and there it stays over any steps after
  -- each of which the connection is active, while the commands pushed later join the handler's
  -- line.
  pub late_push_waits :
      (id : ℕ) (c : GatewayCommand J.Double) (u v : Gateway J) (cs : List (GatewayCommand J.Double))
      → Inv u
      → u.active ≡ some id
      → Session J id (late c u) cs v
      → (push_to none c u ≡ ok (late c u))
        × (line_of id v ≡ line_of id u ++ cs)
        × (v.pending ≡ u.pending ++ c ∷ [])
  unfolding push_to
  late_push_waits id c u v cs i now s =
      let i' : Inv (late c u) = record { fits = i.fits; unused = i.unused; active = i.active } in
      let (same, kept) = Session-line J s i' now in (refl, same, kept)

  disconnected :
      (id : ℕ) (ev : VehicleEvent J.Double) (w : Gateway J) (h : Handler (GatewayCommand J.Double))
      → w.heap id ≡ some h
      → h.state ≡ reading
      → proceed J id false ev w ≡ ok (gone_on id finish (finish_stream id) h (clear_active id w))
  unfolding proceed proceed_in disconnect
  disconnected id ev w h live r =
      rw (live, proceed, r, proceed_in)
        (ap ok (go_on_live id finish (finish_stream id) (clear_active id w) h live))

  pub released :
      (id : ℕ) (success : Bool) (ev : VehicleEvent J.Double) (w : Gateway J)
      (h : Handler (GatewayCommand J.Double))
      → w.heap id ≡ some h
      → h.state ≡ finish
      → proceed J id success ev w ≡ ok (delete id (clear_active id w))
  unfolding proceed proceed_in release
  released id success ev w h live f = rw (live, proceed, f, proceed_in)

  -- The worlds after the read of a handler has failed, and after the `Finish` that follows.
  abbrev pub hung_up : ℕ → Handler (GatewayCommand J.Double) → Gateway J → Gateway J
  hung_up id h w = gone_on id finish (finish_stream id) h (clear_active id (settle id w))

  abbrev pub let_go : ℕ → Handler (GatewayCommand J.Double) → Gateway J → Gateway J
  let_go id h w = delete id (clear_active id (settle id (hung_up id h w)))

  module _ (id : ℕ) (ev : VehicleEvent J.Double) (w : Gateway J)
      (h : Handler (GatewayCommand J.Double)) (i : Inv w) (live : w.heap id ≡ some h) where
    pub hangs_up : h.state ≡ reading → Step J w (hung_up id h w)
    unfolding clear_active
    hangs_up r =
        completed id false ev (ground (arith, i.fits id))
          (disconnected id ev (settle id w) h live r)

    pub lets_go : Step J (hung_up id h w) (let_go id h w)
    unfolding clear_active
    lets_go =
        let h' = record h { state = finish } in
        completed id true ev (ground (arith, i.fits id))
          (released id true ev (settle id (hung_up id h w)) h' (rw (==_refl id) refl) refl)

  -- A handler is active, and the accounts are in order. A push that has read `active_` goes on
  -- after two steps that are possible: the read of the handler fails, and the `Finish` that follows
  -- completes. Then it reaches the deleted object.
  pub push_after_delete :
      (id : ℕ) (c : GatewayCommand J.Double) (ev : VehicleEvent J.Double) (w : Gateway J)
      (h : Handler (GatewayCommand J.Double))
      → Inv w
      → w.heap id ≡ some h
      → h.state ≡ reading
      → w.active ≡ some id
      → (u : Gateway J) × (v : Gateway J) × Step J w u
        × Step J u v
        × (push_command c w ≡ push_to (some id) c w)
        × (push_to (some id) c v ≡ err dangling)
  unfolding clear_active push_command push_to
  push_after_delete id c ev w h i live r now =
      let v = let_go id h w in
      (
        hung_up id h w,
        v,
        hangs_up id ev w h i live r,
        lets_go id ev w h i live,
        ap (λ a. push_to a c w) now,
        on_handler_gone id (push_back id c) v (rw (==_refl id)),
      )

  -- A handler reads, a write is in flight, and the accounts are in order. Then two steps are
  -- possible: its read fails, so that `Finish` is called, and this completes, so that the handler
  -- is deleted. gRPC still owes it the completion of the write, and whichever this is, it then
  -- reaches the deleted object.
  pub write_after_delete :
      (id : ℕ) (ev : VehicleEvent J.Double) (w : Gateway J) (h : Handler (GatewayCommand J.Double))
      → Inv w
      → w.heap id ≡ some h
      → h.state ≡ reading
      → h.writing ≡ true
      → (u : Gateway J) × (v : Gateway J) × Step J w u
        × Step J u v
        × (0 < v.grpc.owed_writes id)
        × ((success : Bool) → on_write_done id success (settle_write id v) ≡ err dangling)
  unfolding clear_active
  write_after_delete id ev w h i live r busy =
      let v = let_go id h w in
      (
        hung_up id h w,
        v,
        hangs_up id ev w h i live r,
        lets_go id ev w h i live,
        ground (arith, i.fits id),
        λ success. on_write_done_gone id success (settle_write id v) (rw (==_refl id)),
      )
