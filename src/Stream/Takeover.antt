-- ===== src/Stream/Takeover.antt =====
-- src/services/vehicle_stream_handler.h: a connection that is accepted while another one is open.
use iv_cloud_gateway.Base.{ℕ, ◌≡◌, refl, sym, ◌∙◌, ap, ◌≢◌, [], ◌++◌, some, arith}
use iv_cloud_gateway.Json.{Json}
use iv_cloud_gateway.Proto.{GatewayCommand, event_not_set}
use iv_cloud_gateway.Stream.{
  accepting, reading, Handler, World, clear_active, clear_at, ask, request_stream, read,
}
use iv_cloud_gateway.Stream.Incoming.{Gateway}
use iv_cloud_gateway.Stream.Steps.{settle, Step}
use iv_cloud_gateway.Stream.Heap.{accepted, flushed}
use iv_cloud_gateway.Stream.Tags.{Inv}
use iv_cloud_gateway.Stream.Live.{Step-Inv}
use iv_cloud_gateway.Stream.Delivery.{line_of, sent-ask, accepted-line}
use iv_cloud_gateway.Stream.Drain.{accept-Step}
use iv_cloud_gateway.Stream.Races.{hung_up, hangs_up}
use iv_cloud_gateway.Stream.Loss.{feed-sent_other}

module _ {C T : Type 0} where
  accepted-heap :
      (a b : ℕ) (k : Handler C) (w : World C T)
      → a ≢ b
      → a ≢ w.next
      → (accepted b k w).heap a ≡ w.heap a
  accepted-heap a b k w ne old = ground arith

  accepted-line_other :
      (a b : ℕ) (k : Handler C) (w : World C T)
      → a ≢ b
      → a ≢ w.next
      → line_of a (accepted b k w) ≡ line_of a w
  accepted-line_other a b k w ne old =
      let g = ask (request_stream w.next) w.next w.grpc in
      let wrote =
        sent-ask a b (read b) (flushed b k w).1 refl
        ∙ (feed-sent_other b a w.pending k g ne
            ∙ sent-ask a w.next (request_stream w.next) w.grpc refl) in
      rw (wrote, accepted-heap a b k w ne old) refl

  clear_active-kept :
      (a b : ℕ) (w : World C T) → b ≢ a → w.active ≡ some b → (clear_active a w).active ≡ some b
  unfolding clear_active
  clear_active-kept a b w ne now =
      let kept : clear_at (some b) a ≡ some b = ground arith in ap (λ o. clear_at o a) now ∙ kept

module _ (J : Json) where
  -- One handler reads and another waits for a connection, with the accounts in order. Then a step
  -- is possible that accepts the connection: the handler that waited is the active one, everything
  -- that was pending has joined its line, nothing is pending, and the line of the other handler is
  -- as it was. The read of the other one can fail next, and this leaves the new handler active.
  pub takeover :
      (a b : ℕ) (h k : Handler (GatewayCommand J.Double)) (w : Gateway J)
      → Inv w
      → w.heap a ≡ some h
      → h.state ≡ reading
      → w.heap b ≡ some k
      → k.state ≡ accepting
      → (v : Gateway J) × Step J w v
        × (v.active ≡ some b)
        × (line_of b v ≡ line_of b w ++ w.pending)
        × (v.pending ≡ [])
        × (line_of a v ≡ line_of a w)
        × Step J v (hung_up J a h v)
        × ((hung_up J a h v).active ≡ some b)
  takeover a b h k w i live reads there waits =
      let v = accepted b k (settle b w) in
      let st = accept-Step J b event_not_set w k i there waits in
      let ne : a ≢ b = λ p. ground arith in
      let old : a ≢ w.next = λ p. ground (arith, i.unused a) in
      let same : v.heap a ≡ some h = accepted-heap a b k (settle b w) ne old ∙ live in
      (
        v,
        st,
        refl,
        accepted-line b (settle b w) k there,
        refl,
        accepted-line_other a b k (settle b w) ne old,
        hangs_up J a event_not_set v h (Step-Inv J st i) same reads,
        clear_active-kept a b (settle a v) (λ p. ne (sym p)) refl,
      )
