-- ===== src/Stream/Heap.antt =====
-- What the operations do to a handler that is alive, written out.
use iv_cloud_gateway.Base.{
  Bool, none, err, dangling, ℕ, suc, ◌≡◌, refl, ◌≢◌, false, List, [], ◌∷◌, ◌++◌, some, ok, arith,
  ==_refl, update, fun_ext, sym, ◌∙◌, ap,
}
use mathlib.Core.List.{append_assoc, append-nil}
use iv_cloud_gateway.Stream.{
  write_done, on_write_done, accepting, reading, Handler, request_stream, read, Grpc, State, Call,
  set_state, World, ask, store, push_back, on_handler, enqueue, flush_loop, flush_pending,
  new_handler, go_on, accept,
}
use iv_cloud_gateway.Stream.Order.{line, push_back-line}

update_twice : {A : Type 0} (f : ℕ → A) (i : ℕ) (a b : A) → update (update f i a) i b ≡ update f i b
update_twice f i a b = fun_ext λ j. ground arith

update_self : {A : Type 0} (f : ℕ → A) (i : ℕ) (a : A) → f i ≡ a → update f i a ≡ f
update_self f i a e = fun_ext λ j. ground arith

module _ {C : Type 0} where
  -- The commands of a list, pushed one after the other.
  unfoldable pub feed : ℕ → List C → Handler C → Grpc C → Handler C × Grpc C
  feed id [] h g = (h, g)
  feed id (c ∷ cs) h g = let (h', g') = push_back id c h g in feed id cs h' g'

  pub feed-line :
      (id : ℕ) (cs : List C) (h : Handler C) (g : Grpc C)
      → line id (feed id cs h g) ≡ line id (h, g) ++ cs
  unfolding feed
  feed-line id [] h g = sym (append-nil (line id (h, g)))
  feed-line id (c ∷ cs) h g =
      feed-line id cs (push_back id c h g).0 (push_back id c h g).1
      ∙ (ap (λ l. l ++ cs) (push_back-line id c h g) ∙ append_assoc (line id (h, g)) (c ∷ []) cs)

  -- The stream handler that waits for the next connection.
  abbrev pub fresh : Handler C
  fresh = record { state = accepting; write_queue = []; writing = false }

module _ {C T : Type 0} where
  abbrev pub put : ℕ → Handler C × Grpc C → World C T → World C T
  put id (h, g) w = store id h (record w { grpc = g })

  pub on_handler_live :
      (id : ℕ) (f : Handler C → Grpc C → Handler C × Grpc C) (w : World C T) (h : Handler C)
      → w.heap id ≡ some h
      → on_handler id f w ≡ ok (put id (f h w.grpc) w)
  unfolding on_handler
  on_handler_live id f w h live = rw (live, on_handler)

  pub on_handler_gone :
      (id : ℕ) (f : Handler C → Grpc C → Handler C × Grpc C) (w : World C T)
      → w.heap id ≡ none
      → on_handler id f w ≡ err dangling
  unfolding on_handler
  on_handler_gone id f w gone = rw (gone, on_handler)

  pub on_write_done_live :
      (id : ℕ) (success : Bool) (w : World C T) (h : Handler C)
      → w.heap id ≡ some h
      → on_write_done id success w ≡ ok (put id (write_done id success h w.grpc) w)
  unfolding on_write_done
  on_write_done_live id success = on_handler_live id (write_done id success)

  -- A write that completes after its handler was deleted.
  pub on_write_done_gone :
      (id : ℕ) (success : Bool) (w : World C T)
      → w.heap id ≡ none
      → on_write_done id success w ≡ err dangling
  unfolding on_write_done
  on_write_done_gone id success = on_handler_gone id (write_done id success)

  pub enqueue_live :
      (id : ℕ) (c : C) (w : World C T) (h : Handler C)
      → w.heap id ≡ some h
      → enqueue id c w ≡ ok (put id (push_back id c h w.grpc) w)
  unfolding enqueue
  enqueue_live id c = on_handler_live id (push_back id c)

  flush_loop_live :
      (cs : List C) (id : ℕ) (w : World C T) (h : Handler C)
      → w.heap id ≡ some h
      → w.pending ≡ cs
      → flush_loop cs id w ≡ ok (record (put id (feed id cs h w.grpc) w) { pending = [] })
  unfolding flush_loop feed
  flush_loop_live [] id w h live e =
      let same = sym (update_self w.heap id (some h) live) in
      λ i. ok (record w { heap = same i; pending = e i })
  flush_loop_live (c ∷ cs) id w h live e =
      let (h', g') = push_back id c h w.grpc in
      let w' = record (put id (h', g') w) { pending = cs } in
      let (hn, gn) = feed id cs h' g' in
      let twice = update_twice w.heap id (some h') (some hn) in
      rw (enqueue_live id c w h live) (
        flush_loop_live cs id w' h' (rw (==_refl id)) refl ∙ λ i.
        ok (record w { heap = twice i; pending = []; grpc = gn }))

  flush_pending_live :
      (id : ℕ) (w : World C T) (h : Handler C)
      → w.heap id ≡ some h
      → flush_pending id w ≡ ok (record (put id (feed id w.pending h w.grpc) w) { pending = [] })
  unfolding flush_pending
  flush_pending_live id w h live = flush_loop_live w.pending id w h live refl

  -- `this` and what gRPC was asked, once the pending commands are flushed.
  abbrev pub flushed : ℕ → Handler C → World C T → Handler C × Grpc C
  flushed id h w = feed id w.pending h (ask (request_stream w.next) w.next w.grpc)

  abbrev pub accepted : ℕ → Handler C → World C T → World C T
  accepted id h w = record w {
    heap =
        update (update w.heap w.next (some fresh)) id
          (some (record ((flushed id h w).0) { state = reading }));
    next = suc w.next;
    active = some id;
    pending = [];
    grpc = ask (read id) id (flushed id h w).1;
  }

  -- A handler that is alive changes its state and starts an operation.
  abbrev pub gone_on : ℕ → State → Call C → Handler C → World C T → World C T
  gone_on id s c h w = record w {
    heap = update w.heap id (some (record h { state = s }));
    grpc = ask c id w.grpc;
  }

  pub go_on_live :
      (id : ℕ) (s : State) (c : Call C) (w : World C T) (h : Handler C)
      → w.heap id ≡ some h
      → go_on id s c w ≡ gone_on id s c h w
  unfolding go_on
  go_on_live id s c w h live = rw (live, set_state)

  pub accept_live :
      (id : ℕ) (w : World C T) (h : Handler C)
      → w.heap id ≡ some h
      → id ≢ w.next
      → accept id w ≡ ok (accepted id h w)
  unfolding accept new_handler
  accept_live id w h live ne =
      let w' = record (new_handler w) { active = some id } in
      let live' : w'.heap id ≡ some h = ground arith in
      let (hn, gn) = flushed id h w in
      let w'' = record (put id (hn, gn) w') { pending = [] } in
      let twice = update_twice w'.heap id (some hn) (some (record hn { state = reading })) in
      rw
        (flush_pending_live id w' h live', go_on_live id reading (read id) w'' hn (rw (==_refl id)))
        (λ i. ok (record (accepted id h w) { heap = twice i }))
