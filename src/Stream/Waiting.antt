-- ===== src/Stream/Waiting.antt =====
-- src/services/vehicle_stream_handler.h: the handler that waits for the next connection.
use iv_cloud_gateway.Base.{
  ℕ, ◌≡◌, refl, sym, subst, ◌≢◌, inl, inr, Bool, true, false, [], Option, none, some, Result, ok,
  err, arith, ==_refl, update, Option-cases, Bool-cases, ◌==◌,
}
use iv_cloud_gateway.Json.{Json}
use iv_cloud_gateway.Proto.{GatewayCommand, VehicleEvent}
use iv_cloud_gateway.Stream.{
  State, create, accepting, reading, finish, Handler, Grpc, read, finish_stream, World,
  clear_active, write_done, push_to, push_command, on_write_done, proceed_create,
}
use iv_cloud_gateway.Stream.Incoming.{Gateway, proceed_in, proceed}
use iv_cloud_gateway.Stream.Steps.{settle, settle_write, start, Step, completed, wrote, pushed}
use iv_cloud_gateway.Stream.Heap.{
  on_write_done_gone, on_write_done_live, enqueue_live, accept_live, go_on_live,
}
use iv_cloud_gateway.Stream.Tags.{Inv, start-Inv, IsReading, flush-Keeps, push_back-Keeps}
use iv_cloud_gateway.Stream.Live.{handle_incoming-cases, Step-Inv}

module _ {C : Type 0} where
  -- Some handler waits for a connection.
  abbrev pub Waits : (ℕ → Option (Handler C)) → Type 0
  Waits heap = (a : ℕ) × (h : Handler C) × (heap a ≡ some h) × (h.state ≡ accepting)

  Waits-update :
      (heap : ℕ → Option (Handler C)) (id : ℕ) (h : Handler C) (new : Option (Handler C))
      → heap id ≡ some h
      → h.state ≢ accepting
      → Waits heap
      → Waits (update heap id new)
  Waits-update heap id h new live ne (a, x, e, s) =
      let other : id ≢ a = λ p. ground arith in (a, x, ground arith, s)

  Waits-keep :
      (heap : ℕ → Option (Handler C)) (id : ℕ) (h h' : Handler C)
      → heap id ≡ some h
      → h'.state ≡ h.state
      → Waits heap
      → Waits (update heap id (some h'))
  Waits-keep heap id h h' live same (a, x, e, s) = elim (Bool-cases (id == a)) [
    | inl same_id ↦ (a, h', rw same_id refl, ground arith)
    | inr other ↦ (a, x, rw other e, s)
  ]

  write_done-state :
      (id : ℕ) (success : Bool) (h : Handler C) (g : Grpc C)
      → (write_done id success h g).0.state ≡ h.state
  unfolding write_done
  write_done-state id false h g = refl
  write_done-state id true h g = (flush-Keeps id (record h { writing = false }) g).state

module _ {C T : Type 0} where
  abbrev WaitsAfter : Result (World C T) → Type 0
  WaitsAfter (ok w) = Waits w.heap
  WaitsAfter (err e) = Unit

  push_to-Waits :
      (a : Option ℕ) (c : C) (w : World C T)
      → IsReading w.heap a
      → Waits w.heap
      → WaitsAfter (push_to a c w)
  unfolding push_to
  push_to-Waits none c w r k = k
  push_to-Waits (some id) c w (h, live, r) k =
      rw (enqueue_live id c w h live)
        (Waits-keep w.heap id h _ live ((push_back-Keeps id c h w.grpc).state) k)

  on_write_done-Waits :
      (id : ℕ) (success : Bool) (w : World C T)
      → Waits w.heap
      → WaitsAfter (on_write_done id success (settle_write id w))
  on_write_done-Waits id success w k = elim (Option-cases (w.heap id)) [
    | inl gone ↦ rw (on_write_done_gone id success (settle_write id w) gone) tt
    | inr (h, live) ↦
        rw (on_write_done_live id success (settle_write id w) h live)
          (Waits-keep w.heap id h _ live (write_done-state id success h (settle_write id w).grpc) k)
  ]

module _ (J : Json) where
  proceed_in-Waits :
      (s : State) (id : ℕ) (success : Bool) (ev : VehicleEvent J.Double) (w : Gateway J)
      (h : Handler (GatewayCommand J.Double))
      → Inv w
      → w.heap id ≡ some h
      → h.state ≡ s
      → (h.state ≡ accepting → success ≡ true)
      → Waits w.heap
      → WaitsAfter (proceed_in J s id success ev (settle id w))
  unfolding proceed_in proceed_create
  proceed_in-Waits create id success ev w h v live e granted k =
      rw (live, proceed_in) (id, record h { state = accepting }, rw (==_refl id) refl, refl)
  proceed_in-Waits accepting id false ev w h v live e granted k = cc (granted e)
  proceed_in-Waits accepting id true ev w h v live e granted k =
      let ne : id ≢ w.next = λ p. ground (arith, v.unused id) in
      rw (accept_live id (settle id w) h live ne) (
        w.next,
        record { state = accepting; write_queue = []; writing = false },
        ground arith,
        refl,
      )
  proceed_in-Waits reading id false ev w h v live e granted k =
      let w' = clear_active id (settle id w) in
      subst (λ u. WaitsAfter (ok u)) (sym (go_on_live id finish (finish_stream id) w' h live))
        (Waits-update w.heap id h _ live (ground arith) k)
  proceed_in-Waits reading id true ev w h v live e granted k =
      elim (handle_incoming-cases J ev (settle id w)) [
        | inl failed ↦ rw failed tt
        | inr (p, done) ↦
            let w' = record (settle id w) { published = p } in
            rw done (
              subst (λ u. WaitsAfter (ok u)) (sym (go_on_live id reading (read id) w' h live))
                (Waits-update w.heap id h _ live (ground arith) k))
      ]
  proceed_in-Waits finish id success ev w h v live e granted k =
      Waits-update w.heap id h none live (ground arith) k

  -- A step in which no request for a connection fails: those fail once the server shuts down.
  abbrev pub Grants : {u v : Gateway J} → Step J u v → Type 0
  Grants {u = u} (completed id success ev due e) =
      (h : Handler (GatewayCommand J.Double))
      → u.heap id ≡ some h
      → h.state ≡ accepting
      → success ≡ true
  Grants (wrote id success due e) = Unit
  Grants (pushed c e) = Unit

  -- A run of such steps.
  pub data Serving (w : Gateway J) : Gateway J → Type 0 where
    begins : Serving w w
    serves : {u v : Gateway J} → Serving w u → (st : Step J u v) → Grants st → Serving w v

  proceed-Waits :
      (id : ℕ) (success : Bool) (ev : VehicleEvent J.Double) (w : Gateway J)
      → Inv w
      → ((h : Handler (GatewayCommand J.Double))
          → w.heap id ≡ some h
          → h.state ≡ accepting
          → success ≡ true)
      → Waits w.heap
      → WaitsAfter (proceed J id success ev (settle id w))
  unfolding proceed
  proceed-Waits id success ev w v granted k = elim (Option-cases (w.heap id)) [
    | inl gone ↦ rw (gone, proceed) tt
    | inr (h, live) ↦
        rw (live, proceed)
          (proceed_in-Waits h.state id success ev w h v live refl (granted h live) k)
  ]

  Step-Waits : {u v : Gateway J} (st : Step J u v) → Grants st → Inv u → Waits u.heap → Waits v.heap
  unfolding push_command
  Step-Waits {u} (completed id success ev due e) g i k =
      subst WaitsAfter e (proceed-Waits id success ev u i g k)
  Step-Waits {u} (wrote id success due e) g i k =
      subst WaitsAfter e (on_write_done-Waits id success u k)
  Step-Waits {u} (pushed c e) g i k = subst WaitsAfter e (push_to-Waits u.active c u i.active k)

  start-Waits : Waits {C = GatewayCommand J.Double} (start {T = J.Text}).heap
  unfolding start
  start-Waits = (0, record { state = accepting; write_queue = []; writing = false }, refl, refl)

  -- After any steps of the gateway in which no request for a connection failed, the accounts are in
  -- order and some handler waits for the next connection.
  pub Serving-Waits : {w : Gateway J} → Serving start w → Inv w × Waits w.heap
  Serving-Waits begins = (start-Inv, start-Waits)
  Serving-Waits (serves s st g) =
      let (i, k) = Serving-Waits s in (Step-Inv J st i, Step-Waits st g i k)
