-- ===== src/Stream/Runs.antt =====
-- `GrpcServer::runCQ` of src/services/grpc_server.cc: how it runs over what the queue returns.
use mathlib.Core.List.{append-nil, append_assoc}
use iv_cloud_gateway.Base.{
  ℕ, ◌<◌, ◌≡◌, refl, sym, ◌∙◌, ap, subst, inl, inr, Option, none, some, Option-cases, Bool, true,
  false, String, List, [], ◌∷◌, ◌++◌, map, Error, Result, ok, err, arith, json_exception,
  std_exception, dangling, ◌>>=◌,
}
use iv_cloud_gateway.Json.{Json, or_throw}
use iv_cloud_gateway.Proto.{VehicleEvent, GatewayCommand}
use iv_cloud_gateway.Stream.{on_write_done, State, create, accepting, reading, finish, Handler}
use iv_cloud_gateway.Stream.Incoming.{
  Gateway, report, publish, handle_incoming, proceed_in, proceed,
}
use iv_cloud_gateway.Stream.Steps.{
  settle, settle_write, Step, completed, wrote, Reach, here, next, pushed,
}
use iv_cloud_gateway.Stream.Tags.{Inv}
use iv_cloud_gateway.Stream.Live.{Safe, handle_incoming-cases, proceed-Safe, on_write_done-Safe}
use iv_cloud_gateway.Stream.Heap.{accept_live, on_write_done_gone, on_write_done_live}
use iv_cloud_gateway.Stream.Queue.{
  Tag, handler, writer, Completion, proceed_tag, returned, handle, run_cq,
}

module _ (J : Json) where
  -- An operation is in flight under the tag.
  abbrev pub Due : Tag → Gateway J → Type 0
  Due (handler id) w = 0 < w.grpc.owed id
  Due (writer id) w = 0 < w.grpc.owed_writes id

  abbrev pub After : (Gateway J → Type 0) → Result (Gateway J) → Type 0
  After P (ok w) = P w
  After P (err e) = Unit

  -- Each tag is due when it comes.
  abbrev pub AllDue : List (Completion J.Double) → Gateway J → Type 0
  AllDue [] w = Unit
  AllDue (c ∷ cs) w = Due c.tag w × After (AllDue cs) (handle J c w)

  -- The tags that a way was driven by, oldest first, and how their operations ended.
  abbrev pub tags_of : {u v : Gateway J} → Step J u v → List (Tag × Bool)
  tags_of (completed id success ev due e) = (handler id, success) ∷ []
  tags_of (wrote id success due e) = (writer id, success) ∷ []
  tags_of (pushed c e) = []

  abbrev pub all_tags : {u v : Gateway J} → Reach J u v → List (Tag × Bool)
  all_tags here = []
  all_tags (next r st) = all_tags r ++ tags_of st

  abbrev pub ended : Completion J.Double → Tag × Bool
  ended c = (c.tag, c.success)

  -- An event whose document cannot be serialised.
  abbrev pub IsUnsendable : Option (String × J.Value) → Type 0
  IsUnsendable none = ⊥
  IsUnsendable (some (topic, j)) = J.dump j ≡ none

  -- Why the loop stops at a completion: a read has brought an event whose document cannot be
  -- serialised, or a write has ended whose handler is deleted.
  abbrev pub Stops : Completion J.Double → Gateway J → Error → Type 0
  Stops c w json_exception =
      (id : ℕ) × (c.tag ≡ handler id) × (c.success ≡ true) × IsUnsendable (report J c.incoming)
  Stops c w std_exception = ⊥
  Stops c w dangling =
      (id : ℕ) × (c.tag ≡ writer id) × (w.heap id ≡ none) × (0 < w.grpc.owed_writes id)

  -- Steps of the gateway, those of the completions and no others, lead from the one world to the
  -- other, in which the accounts are in order.
  abbrev pub Handled : List (Completion J.Double) → Gateway J → Gateway J → Type 0
  Handled cs w v = Inv v × (r : Reach J w v) × (all_tags r ≡ map ended cs)

  -- All completions have been handled; or those before one at which the loop stops.
  abbrev pub IsRun : List (Completion J.Double) → Gateway J → Result (Gateway J) → Type 0
  IsRun cs w (ok v) = Handled cs w v
  IsRun cs w (err e) =
      (before : List (Completion J.Double)) × (c : Completion J.Double) × (later : List
        (Completion J.Double))
      × (v : Gateway J) × (cs ≡ before ++ c ∷ later)
      × Handled before w v
      × Stops c v e

  -- What one completion comes to.
  abbrev IsDone : Completion J.Double → Gateway J → Result (Gateway J) → Type 0
  IsDone c w (ok v) = Inv v
  IsDone c w (err e) = Stops c w e

  publish-IsUnsendable :
      (r : Option (String × J.Value)) (w : Gateway J)
      → publish J r w ≡ err json_exception
      → IsUnsendable r
  unfolding publish
  publish-IsUnsendable none w e = cc
  publish-IsUnsendable (some (topic, j)) w e = elim (Option-cases (J.dump j)) [
    | inl failed ↦ failed
    | inr (payload, done) ↦ cc (
        subst
          (λ d.
            (do p ← or_throw d; ok (record w { published = w.published ++ (topic, p) ∷ [] }))
            ≡ err json_exception)
          done e)
  ]

  -- What a handler throws, if it throws.
  abbrev Throws : Bool → VehicleEvent J.Double → Result (Gateway J) → Type 0
  Throws success ev (ok v) = Unit
  Throws success ev (err json_exception) = (success ≡ true) × IsUnsendable (report J ev)
  Throws success ev (err std_exception) = ⊥
  Throws success ev (err dangling) = Unit

  proceed_in-Throws :
      (s : State) (id : ℕ) (success : Bool) (ev : VehicleEvent J.Double) (w : Gateway J)
      (h : Handler (GatewayCommand J.Double))
      → Inv w
      → w.heap id ≡ some h
      → Throws success ev (proceed_in J s id success ev (settle id w))
  unfolding proceed_in handle_incoming
  proceed_in-Throws create id success ev w h i live = rw (live, proceed_in) tt
  proceed_in-Throws accepting id false ev w h i live = tt
  proceed_in-Throws accepting id true ev w h i live =
      rw (accept_live id (settle id w) h live (λ p. ground (arith, i.unused id))) tt
  proceed_in-Throws reading id false ev w h i live = tt
  proceed_in-Throws reading id true ev w h i live =
      elim (handle_incoming-cases J ev (settle id w)) [
        | inl failed ↦ rw failed (refl, publish-IsUnsendable (report J ev) (settle id w) failed)
        | inr (p, done) ↦ rw done tt
      ]
  proceed_in-Throws finish id success ev w h i live = tt

  proceed-Throws :
      (id : ℕ) (success : Bool) (ev : VehicleEvent J.Double) (w : Gateway J)
      → Inv w
      → Throws success ev (proceed J id success ev (settle id w))
  unfolding proceed
  proceed-Throws id success ev w i = elim (Option-cases (w.heap id)) [
    | inl gone ↦ rw (gone, proceed) tt
    | inr (h, live) ↦ rw (live, proceed) (proceed_in-Throws h.state id success ev w h i live)
  ]

  both-IsDone :
      (id : ℕ) (success : Bool) (ev : VehicleEvent J.Double) (w : Gateway J)
      (r : Result (Gateway J))
      → Safe r
      → Throws success ev r
      → IsDone (record { tag = handler id; success = success; incoming = ev }) w r
  both-IsDone id success ev w (ok v) i t = i
  both-IsDone id success ev w (err json_exception) i (s, u) = (id, refl, s, u)
  both-IsDone id success ev w (err std_exception) i t = absurd t
  both-IsDone id success ev w (err dangling) i t = absurd i

  wrote-IsDone :
      (id : ℕ) (success : Bool) (ev : VehicleEvent J.Double) (w : Gateway J)
      → Inv w
      → 0 < w.grpc.owed_writes id
      → IsDone
          (record { tag = writer id; success = success; incoming = ev })
          w
          (on_write_done id success (settle_write id w))
  wrote-IsDone id success ev w i due =
      let c : Completion J.Double = record { tag = writer id; success = success; incoming = ev } in
      elim (Option-cases (w.heap id)) [
        | inl gone ↦
            subst (IsDone c w) (sym (on_write_done_gone id success (settle_write id w) gone))
              (id, refl, gone, due)
        | inr (h, live) ↦
            let e = on_write_done_live id success (settle_write id w) h live in
            subst (IsDone c w) (sym e) (subst Safe e (on_write_done-Safe id success w h i live due))
      ]

  tag-IsDone :
      (t : Tag) (success : Bool) (ev : VehicleEvent J.Double) (w : Gateway J)
      → Inv w
      → Due t w
      → IsDone
          (record { tag = t; success = success; incoming = ev })
          w
          (proceed_tag J t success ev (returned J t w))
  unfolding proceed_tag
  tag-IsDone (handler id) success ev w i due =
      both-IsDone id success ev w _ (proceed-Safe J id success ev w i due)
        (proceed-Throws id success ev w i)
  tag-IsDone (writer id) success ev w i due = wrote-IsDone id success ev w i due

  tag-Step :
      (t : Tag) (success : Bool) (ev : VehicleEvent J.Double) (w v : Gateway J)
      → Due t w
      → proceed_tag J t success ev (returned J t w) ≡ ok v
      → (st : Step J w v) × (tags_of st ≡ (t, success) ∷ [])
  unfolding proceed_tag
  tag-Step (handler id) success ev w v due e = (completed id success ev due e, refl)
  tag-Step (writer id) success ev w v due e = (wrote id success due e, refl)

  Step-first :
      {u v w : Gateway J} (st : Step J u v) (r : Reach J v w)
      → (q : Reach J u w) × (all_tags q ≡ tags_of st ++ all_tags r)
  Step-first st here = (next here st, sym (append-nil (tags_of st)))
  Step-first st (next r last) =
      let (q, e) = Step-first st r in
      (
        next q last,
        ap (λ l. l ++ tags_of last) e ∙ append_assoc (tags_of st) (all_tags r) (tags_of last),
      )

  first-Handled :
      (c : Completion J.Double) (cs : List (Completion J.Double)) (u v w : Gateway J)
      → (st : Step J u v) × (tags_of st ≡ ended c ∷ [])
      → Handled cs v w
      → Handled (c ∷ cs) u w
  first-Handled c cs u v w (st, e) (i, r, e') =
      let (q, e'') = Step-first st r in
      (i, q, e'' ∙ (ap (λ l. l ++ all_tags r) e ∙ ap (λ l. ended c ∷ l) e'))

  longer :
      (c : Completion J.Double) (cs : List (Completion J.Double)) (u v : Gateway J)
      (r : Result (Gateway J))
      → (st : Step J u v) × (tags_of st ≡ ended c ∷ [])
      → IsRun cs v r
      → IsRun (c ∷ cs) u r
  longer c cs u v (ok w) st h = first-Handled c cs u v w st h
  longer c cs u v (err x) st (before, d, later, w, e, h, stop) =
      (c ∷ before, d, later, w, ap (λ l. c ∷ l) e, first-Handled c before u v w st h, stop)

  -- The rest of the loop, after one completion.
  run_cq_next :
      (c : Completion J.Double) (cs : List (Completion J.Double)) (w : Gateway J)
      → Inv w
      → Due c.tag w
      → ((v : Gateway J) → Inv v → AllDue cs v → IsRun cs v (run_cq J cs v))
      → (r : Result (Gateway J)) → handle J c w ≡ r
      → IsDone c w r
      → After (AllDue cs) r
      → IsRun (c ∷ cs) w (r >>= run_cq J cs)
  run_cq_next c cs w iw due rest (ok v) e i more =
      longer c cs w v (run_cq J cs v) (tag-Step c.tag c.success c.incoming w v due e)
        (rest v i more)
  run_cq_next c cs w iw due rest (err x) e stop more = ([], c, cs, w, refl, (iw, here, refl), stop)

  -- With the accounts in order, and as long as for each tag that the queue returns an operation is
  -- in flight: the loop handles all completions, or it handles those before one at which it stops.
  -- What it handles are steps of the gateway, one for each completion, in their order and no
  -- others, and lead to a world with the accounts in order. It stops only at a read that brings an
  -- event whose document cannot be serialised, with the exception of the JSON library, or at the
  -- completion of a write whose handler is deleted, with an access to the deleted object.
  pub run_cq-IsRun :
      (cs : List (Completion J.Double)) (w : Gateway J)
      → Inv w
      → AllDue cs w
      → IsRun cs w (run_cq J cs w)
  unfolding run_cq
  run_cq-IsRun [] w i all = (i, here, refl)
  run_cq-IsRun (c ∷ cs) w i (due, more) =
      run_cq_next c cs w i due (run_cq-IsRun cs) (handle J c w) refl
        (tag-IsDone c.tag c.success c.incoming w i due) more
