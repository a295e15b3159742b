-- ===== src/Stream/Shutdown.antt =====
-- src/services/vehicle_stream_handler.h: the handlers when the server shuts down, which completes
-- what is in flight with `ok = false`.
use iv_cloud_gateway.Base.{
  ℕ, zero, suc, ◌≤◌, ◌<◌, ◌≡◌, refl, ◌∙◌, ap, subst, ◌≢◌, inl, inr, false, none, some, arith,
  ==_refl, Option-cases, Bool-cases,
}
use iv_cloud_gateway.Json.{Json}
use iv_cloud_gateway.Proto.{GatewayCommand, event_not_set}
use iv_cloud_gateway.Stream.{
  State, create, accepting, reading, finish, Handler, delete, clear_active, write_done,
  proceed_create,
}
use iv_cloud_gateway.Stream.Incoming.{Gateway, proceed_in, proceed}
use iv_cloud_gateway.Stream.Steps.{settle, settle_write, Step, completed, wrote, Reach, here, next}
use iv_cloud_gateway.Stream.Heap.{put, on_write_done_live}
use iv_cloud_gateway.Stream.Tags.{Inv, IsReading}
use iv_cloud_gateway.Stream.Live.{Step-Inv}
use iv_cloud_gateway.Stream.Drain.{Reach-step}
use iv_cloud_gateway.Stream.Races.{let_go, hangs_up, lets_go, released}

module _ (J : Json) where
  -- A world that is reached, in which handler `id` is deleted and has no write in flight, and the
  -- others are as they were.
  record Ended (id : ℕ) (w v : Gateway J) : Type 0 where
    pub reached : Reach J w v
    pub sound : Inv v
    pub gone : v.heap id ≡ none
    pub others : (j : ℕ) → j ≢ id → v.heap j ≡ w.heap j
    pub no_write : v.grpc.owed_writes id ≡ 0
    pub other_writes : (j : ℕ) → j ≢ id → v.grpc.owed_writes j ≡ w.grpc.owed_writes j

  -- One more step before.
  Ended-step :
      (id : ℕ) (u v w : Gateway J)
      → Step J u v
      → ((j : ℕ) → j ≢ id → v.heap j ≡ u.heap j)
      → ((j : ℕ) → j ≢ id → v.grpc.owed_writes j ≡ u.grpc.owed_writes j)
      → Ended id v w
      → Ended id u w
  Ended-step id u v w st same same_writes e = record {
    reached = Reach-step J st e.reached;
    sound = e.sound;
    gone = e.gone;
    others = λ j ne. e.others j ne ∙ same j ne;
    no_write = e.no_write;
    other_writes = λ j ne. e.other_writes j ne ∙ same_writes j ne;
  }

  module _ (id : ℕ) (w : Gateway J) (h : Handler (GatewayCommand J.Double)) (i : Inv w)
      (live : w.heap id ≡ some h) (idle : h.writing ≡ false) where
    due : 0 < w.grpc.owed id
    due = ground (arith, i.fits id)

    no_write : w.grpc.owed_writes id ≡ 0
    no_write = ground (arith, i.fits id)

    at_the_end :
        (v : Gateway J)
        → Reach J w v
        → Inv v
        → v.heap id ≡ none
        → ((j : ℕ) → j ≢ id → v.heap j ≡ w.heap j)
        → ((j : ℕ) → v.grpc.owed_writes j ≡ w.grpc.owed_writes j)
        → (v : Gateway J) × Ended id w v
    at_the_end v r sound gone others writes = (
      v,
      record {
        reached = r;
        sound = sound;
        gone = gone;
        others = others;
        no_write = writes id ∙ no_write;
        other_writes = λ j ne. writes j;
      },
    )

    end_finish : h.state ≡ finish → (v : Gateway J) × Ended id w v
    unfolding clear_active
    end_finish f =
        let v = delete id (clear_active id (settle id w)) in
        let st : Step J w v =
          completed id false event_not_set due
            (released J id false event_not_set (settle id w) h live f) in
        at_the_end v (next here st) (Step-Inv J st i) (rw (==_refl id) refl) (λ j ne. ground arith)
          (λ j. refl)

    end_accepting : h.state ≡ accepting → (v : Gateway J) × Ended id w v
    unfolding proceed proceed_in
    end_accepting f =
        let v = delete id (settle id w) in
        let turn = ap (λ s. proceed_in J s id false event_not_set (settle id w)) f in
        let st : Step J w v = completed id false event_not_set due (rw (live, proceed) turn) in
        at_the_end v (next here st) (Step-Inv J st i) (rw (==_refl id) refl) (λ j ne. ground arith)
          (λ j. refl)

    end_reading : h.state ≡ reading → (v : Gateway J) × Ended id w v
    unfolding clear_active
    end_reading r =
        let st = hangs_up J id event_not_set w h i live r in
        let st' = lets_go J id event_not_set w h i live in
        at_the_end (let_go J id h w) (next (next here st) st') (Step-Inv J st' (Step-Inv J st i))
          (rw (==_refl id) refl) (λ j ne. ground arith) (λ j. refl)

    create-Step : h.state ≡ create → Step J w (proceed_create id h (settle id w))
    unfolding proceed proceed_in
    create-Step f =
        let turn = ap (λ s. proceed_in J s id false event_not_set (settle id w)) f in
        completed id false event_not_set due
          (rw (live, proceed) (turn ∙ rw (live, proceed_in) refl))

  end_create :
      (id : ℕ) (w : Gateway J) (h : Handler (GatewayCommand J.Double))
      → Inv w
      → w.heap id ≡ some h
      → h.writing ≡ false
      → h.state ≡ create
      → (v : Gateway J) × Ended id w v
  unfolding proceed_create
  end_create id w h i live idle f =
      let u = proceed_create id h (settle id w) in
      let st = create-Step id w h i live idle f in
      let h' = record h { state = accepting } in
      let (v, e) = end_accepting id u h' (Step-Inv J st i) (rw (==_refl id) refl) idle refl in
      (v, Ended-step id w u v st (λ j ne. ground arith) (λ j ne. refl) e)

  end_idle :
      (s : State) (id : ℕ) (w : Gateway J) (h : Handler (GatewayCommand J.Double))
      → Inv w
      → w.heap id ≡ some h
      → h.writing ≡ false
      → h.state ≡ s
      → (v : Gateway J) × Ended id w v
  end_idle create = end_create
  end_idle accepting = end_accepting
  end_idle reading = end_reading
  end_idle finish = end_finish

  -- A handler in whatever state; a write in flight fails first.
  end_one :
      (id : ℕ) (w : Gateway J) (h : Handler (GatewayCommand J.Double))
      → Inv w
      → w.heap id ≡ some h
      → (v : Gateway J) × Ended id w v
  unfolding write_done
  end_one id w h i live = elim (Bool-cases h.writing) [
    | inl busy ↦
        let u = put id (write_done id false h (settle_write id w).grpc) (settle_write id w) in
        let st : Step J w u =
          wrote id false (ground (arith, i.fits id))
            (on_write_done_live id false (settle_write id w) h live) in
        let h' = record h { writing = false } in
        let (v, e) = end_idle h.state id u h' (Step-Inv J st i) (rw (==_refl id) refl) refl refl in
        (v, Ended-step id w u v st (λ j ne. ground arith) (λ j ne. ground arith) e)
    | inr idle ↦ end_idle h.state id w h i live idle refl
  ]

  -- No handler is alive, and no write is in flight.
  abbrev AllEnded : Gateway J → Gateway J → Type 0
  AllEnded w v =
      Reach J w v × Inv v × ((j : ℕ) → v.heap j ≡ none) × ((j : ℕ) → v.grpc.owed_writes j ≡ 0)

  Reach-trans : {u v w : Gateway J} → Reach J u v → Reach J v w → Reach J u w
  Reach-trans r here = r
  Reach-trans r (next s st) = next (Reach-trans r s) st

  end_all :
      (k : ℕ) (w : Gateway J)
      → Inv w
      → ((j : ℕ) → k ≤ j → w.heap j ≡ none)
      → ((j : ℕ) → w.heap j ≡ none → w.grpc.owed_writes j ≡ 0)
      → (v : Gateway J) × AllEnded w v
  end_all zero w i none_left quiet =
      (w, (here, i, λ j. none_left j (omega arith), λ j. quiet j (none_left j (omega arith))))
  end_all (suc k) w i none_left quiet = elim (Option-cases (w.heap k)) [
    | inl gone ↦ end_all k w i (λ j le. ground (arith, none_left j)) quiet
    | inr (h, live) ↦
        let (u, e) = end_one k w h i live in
        let (v, (r, sound, gone, writes)) =
          end_all k u e.sound (λ j le. ground (arith, none_left j, e.gone, e.others j))
            (λ j gone. ground (arith, quiet j, e.no_write, e.others j, e.other_writes j)) in
        (v, (Reach-trans e.reached r, sound, gone, writes))
  ]

  no_active : (w : Gateway J) → Inv w → ((j : ℕ) → w.heap j ≡ none) → w.active ≡ none
  no_active w i gone = elim (Option-cases w.active) [
    | inl e ↦ e
    | inr (a, e) ↦ let (h, live, r) = subst (IsReading w.heap) e i.active in cc (gone a)
  ]

  -- The accounts are in order, and no write to a deleted handler is in flight. Then the gateway can
  -- reach a world in which every handler is deleted, gRPC owes nothing under any tag, and no
  -- handler is active.
  pub shutdown_ends :
      (w : Gateway J)
      → Inv w
      → ((j : ℕ) → w.heap j ≡ none → w.grpc.owed_writes j ≡ 0)
      → (v : Gateway J) × Reach J w v
        × ((j : ℕ) → v.heap j ≡ none)
        × ((j : ℕ) → v.grpc.owed j ≡ 0)
        × ((j : ℕ) → v.grpc.owed_writes j ≡ 0)
        × (v.active ≡ none)
  shutdown_ends w i quiet =
      let (v, (r, i', gone, writes)) =
        end_all w.next w i (λ j le. ground (arith, i.unused j)) quiet in
      (v, r, gone, (λ j. ground (arith, i'.fits j, gone j)), writes, no_active v i' gone)
