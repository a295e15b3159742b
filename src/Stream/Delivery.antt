-- ===== src/Stream/Delivery.antt =====
-- src/services/vehicle_stream_handler.h: where a command goes that is pushed or was pending.
use mathlib.Core.List.{append-nil}
use iv_cloud_gateway.Base.{
  ℕ, ◌≡◌, refl, ◌∙◌, ap, ◌≢◌, List, [], ◌∷◌, ◌++◌, Option, none, some, ok, arith, ==_refl,
}
use iv_cloud_gateway.Stream.{
  State, Handler, Call, request_stream, read, Grpc, World, ask, push_back, push_command, push_to,
  accept,
}
use iv_cloud_gateway.Stream.Order.{sent, sent-append, line, push_back-line}
use iv_cloud_gateway.Stream.Heap.{
  feed-line, put, flushed, enqueue_live, accepted, accept_live, gone_on,
}

abbrev pub queue_of : {C : Type 0} → Option (Handler C) → List C
queue_of none = []
queue_of (some h) = h.write_queue

module _ {C : Type 0} where
  -- An operation that is no write changes no line.
  pub sent-ask :
      (id j : ℕ) (c : Call C) (g : Grpc C)
      → sent id (c ∷ []) ≡ []
      → sent id (ask c j g).calls ≡ sent id g.calls
  sent-ask id j c g e = rw (sent-append id g.calls (c ∷ []), e) (append-nil (sent id g.calls))

module _ {C T : Type 0} where
  -- The commands written to the stream of a handler, then those that wait in its queue.
  abbrev pub line_of : ℕ → World C T → List C
  line_of id w = sent id w.grpc.calls ++ queue_of (w.heap id)

  pub gone_on-line :
      (id j : ℕ) (s : State) (c : Call C) (h : Handler C) (w : World C T)
      → w.heap j ≡ some h
      → sent id (c ∷ []) ≡ []
      → line_of id (gone_on j s c h w) ≡ line_of id w
  gone_on-line id j s c h w live e = ground (arith, sent-ask id j c w.grpc e)

  pub put-line :
      (id : ℕ) (h : Handler C) (g : Grpc C) (w : World C T)
      → line_of id (put id (h, g) w) ≡ line id (h, g)
  put-line id h g w = rw (==_refl id)

  pub put-line_other :
      (id j : ℕ) (h : Handler C) (g : Grpc C) (w : World C T)
      → j ≢ id
      → sent j g.calls ≡ sent j w.grpc.calls
      → line_of j (put id (h, g) w) ≡ line_of j w
  put-line_other id j h g w ne e = ground arith

  pub push_active :
      (id : ℕ) (c : C) (w : World C T) (h : Handler C)
      → w.active ≡ some id
      → w.heap id ≡ some h
      → push_command c w ≡ ok (put id (push_back id c h w.grpc) w)
  unfolding push_command
  push_active id c w h now live = ap (λ a. push_to a c w) now ∙ enqueue_live id c w h live

  -- A push to the active handler, if it is alive, returns, and the command joins the end of the
  -- handler's line; what is pending and which handler is active stay as they are.
  pub push_command-line :
      (id : ℕ) (c : C) (w : World C T) (h : Handler C)
      → w.active ≡ some id
      → w.heap id ≡ some h
      → (w' : World C T) × (push_command c w ≡ ok w')
        × (line_of id w' ≡ line_of id w ++ c ∷ [])
        × (w'.pending ≡ w.pending)
        × (w'.active ≡ w.active)
  push_command-line id c w h now live =
      let (h', g') = push_back id c h w.grpc in
      (
        put id (h', g') w,
        push_active id c w h now live,
        put-line id h' g' w ∙ rw live (push_back-line id c h w.grpc),
        refl,
        refl,
      )

  -- Without an active handler a command becomes the last of the pending ones.
  abbrev pub parked : C → World C T → World C T
  parked c w = record w { pending = w.pending ++ c ∷ [] }

  pub push_parked : (c : C) (w : World C T) → w.active ≡ none → push_command c w ≡ ok (parked c w)
  unfolding push_command
  push_parked c w idle = ap (λ a. push_to a c w) idle

  pub accepted-line :
      (id : ℕ) (w : World C T) (h : Handler C)
      → w.heap id ≡ some h
      → line_of id (accepted id h w) ≡ line_of id w ++ w.pending
  accepted-line id w h live =
      let g = ask (request_stream w.next) w.next w.grpc in
      let fed = feed-line id w.pending h g in
      rw (==_refl id, sent-ask id id (read id) (flushed id h w).1 refl)
        (fed ∙ rw (live, sent-ask id w.next (request_stream w.next) w.grpc refl))

  -- When a connection is accepted on a handler that is alive, whose number is an old one, its
  -- handler becomes the active one, all that was pending joins its line in order, and nothing is
  -- pending any more.
  pub accept-line :
      (id : ℕ) (w : World C T) (h : Handler C)
      → w.heap id ≡ some h
      → id ≢ w.next
      → (w' : World C T) × (accept id w ≡ ok w')
        × (line_of id w' ≡ line_of id w ++ w.pending)
        × (w'.pending ≡ [])
        × (w'.active ≡ some id)
  accept-line id w h live ne =
      (accepted id h w, accept_live id w h live ne, accepted-line id w h live, refl, refl)
