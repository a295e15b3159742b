-- ===== src/Stream/Views.antt =====
-- src/services/vehicle_stream_handler.h: what each operation of a handler is to the mailbox.
use mathlib.Core.List.{append-nil}
use iv_cloud_gateway.Base.{
  fun_ext, ℕ, ◌≡◌, refl, sym, ◌∙◌, ap, ◌≢◌, Bool, true, false, List, [], ◌∷◌, ◌++◌, Option, none,
  some, Result, ok, err, arith, length, update, ==_refl, ℕ_discrete as dec_ℕ,
}
use iv_cloud_gateway.Stream.{
  State, create, accepting, reading, finish, Handler, Call, request_stream, read, World, ask,
  clear_at, clear_active, delete, push_back, push_to,
}
use iv_cloud_gateway.Stream.Order.{sent, push_back-sent_other, push_back-line}
use iv_cloud_gateway.Stream.Heap.{put, accepted, gone_on, enqueue_live, flushed}
use iv_cloud_gateway.Stream.Tags.{IsReading}
use iv_cloud_gateway.Stream.Delivery.{
  line_of, queue_of, gone_on-line, put-line, put-line_other, accepted-line, sent-ask,
}
use iv_cloud_gateway.Stream.Loss.{feed-sent_other}
use iv_cloud_gateway.Stream.Mailbox.{
  without, Mailbox, Act, rest, push, push_at, connect, hang_up, drop, apply, take, take_all,
}

-- What `active_` is before the delete does not matter, if it is not the handler.
clear_at-without : (a : Option ℕ) (id : ℕ) → clear_at a id ≡ without id a
unfolding clear_at
clear_at-without none id = refl
clear_at-without (some a) id = refl

cleared_apart : (a : Option ℕ) (id : ℕ) → a ≢ some id → clear_at a id ≡ a
unfolding clear_at
cleared_apart none id ne = refl
cleared_apart (some a) id ne = ground arith

module _ {C : Type 0} where
  -- One line changes.
  one_line :
      (f g : ℕ → List C) (id : ℕ) (l : List C)
      → g id ≡ l
      → ((j : ℕ) → j ≢ id → g j ≡ f j)
      → (j : ℕ) → g j ≡ update f id l j
  one_line f g id l e o j = elim (dec_ℕ j id) [
    | yes same ↦ rw (same, ==_refl id) e
    | no other ↦ let kept : update f id l j ≡ f j = ground arith in o j other ∙ sym kept
  ]

module _ {C T : Type 0} where
  -- The stream handlers as their users see them.
  unfoldable pub view : World C T → Mailbox C
  view w = record { active = w.active; pending = w.pending; line = λ id. line_of id w }

  -- What the completion of an operation of a handler is to the mailbox, by the handler's state: a
  -- stream connects, hangs up or is dropped, with what was written to it; or nothing happens.
  abbrev pub act_in : State → ℕ → Bool → World C T → Act C
  act_in accepting id true w = connect id
  act_in accepting id false w = drop id (length (sent id w.grpc.calls))
  act_in reading id false w = hang_up id
  act_in finish id success w = drop id (length (sent id w.grpc.calls))
  act_in reading id true w = rest
  act_in create id success w = rest

  abbrev pub act_at : Option (Handler C) → ℕ → Bool → World C T → Act C
  act_at none id success w = rest
  act_at (some h) id success w = act_in h.state id success w

  -- A call that returns does to the mailbox what an act does.
  abbrev pub Does : Act C → World C T → Result (World C T) → Type 0
  Does a w (ok v) = view v ≡ apply a (view w)
  Does a w (err e) = Unit

  pub same_view :
      (a : Act C) (v w : World C T)
      → v.active ≡ (apply a (view w)).active
      → v.pending ≡ (apply a (view w)).pending
      → ((id : ℕ) → line_of id v ≡ (apply a (view w)).line id)
      → view v ≡ apply a (view w)
  unfolding view
  same_view a v w e p l = λ i. record { active = e i; pending = p i; line = fun_ext l i }

  pub gone_on-Does :
      (id : ℕ) (s : State) (c : Call C) (h : Handler C) (w : World C T)
      → w.heap id ≡ some h
      → ((j : ℕ) → sent j (c ∷ []) ≡ [])
      → view (gone_on id s c h w) ≡ view w
  unfolding view
  gone_on-Does id s c h w live e = λ i. record {
    active = w.active;
    pending = w.pending;
    line = fun_ext (λ j. gone_on-line j id s c h w live (e j)) i;
  }

  accepted-line_apart :
      (a b : ℕ) (k : Handler C) (w : World C T)
      → a ≢ b
      → w.heap w.next ≡ none
      → line_of a (accepted b k w) ≡ line_of a w
  accepted-line_apart a b k w ne unused =
      let wrote =
        sent-ask a b (read b) (flushed b k w).1 refl
        ∙ (feed-sent_other b a w.pending k (ask (request_stream w.next) w.next w.grpc) ne
            ∙ sent-ask a w.next (request_stream w.next) w.grpc refl) in
      let queue : queue_of ((accepted b k w).heap a) ≡ queue_of (w.heap a) = elim (dec_ℕ a w.next) [
        | yes same ↦ ground arith
        | no old ↦ ground arith
      ] in
      λ i. wrote i ++ queue i

  pub accepted-Does :
      (id : ℕ) (h : Handler C) (w : World C T)
      → w.heap id ≡ some h
      → w.heap w.next ≡ none
      → view (accepted id h w) ≡ apply (connect id) (view w)
  unfolding apply view
  accepted-Does id h w live unused = same_view (connect id) (accepted id h w) w refl refl (
      one_line (λ j. line_of j w) (λ j. line_of j (accepted id h w)) id (line_of id w ++ w.pending)
        (accepted-line id w h live) (λ j ne. accepted-line_apart j id h w ne unused))

  pub clear_active-Does :
      (id : ℕ) (w : World C T) → view (clear_active id w) ≡ apply (hang_up id) (view w)
  unfolding apply view clear_active
  clear_active-Does id w =
      same_view (hang_up id) (clear_active id w) w (clear_at-without w.active id) refl (λ j. refl)

  pub delete-Does :
      (id : ℕ) (w : World C T)
      → view (delete id (clear_active id w))
        ≡ apply (drop id (length (sent id w.grpc.calls))) (view w)
  unfolding apply view clear_active
  delete-Does id w =
      let v = delete id (clear_active id w) in
      let wrote = sent id w.grpc.calls in
      let cut : line_of id v ≡ take (length wrote) (line_of id w) =
        rw (==_refl id) (append-nil wrote) ∙ sym (take_all wrote (queue_of (w.heap id))) in
      same_view (drop id (length wrote)) v w (clear_at-without w.active id) refl (
        one_line (λ j. line_of j w) (λ j. line_of j v) id (take (length wrote) (line_of id w)) cut
          (λ j ne. ground arith))

  pub delete_inactive-Does :
      (id : ℕ) (w : World C T)
      → w.active ≢ some id
      → view (delete id w) ≡ apply (drop id (length (sent id w.grpc.calls))) (view w)
  unfolding clear_active
  delete_inactive-Does id w ne =
      let same = cleared_apart w.active id ne in
      ap (λ a. view (delete id (record w { active = a }))) (sym same) ∙ delete-Does id w

  pub push_to-Does :
      (a : Option ℕ) (c : C) (w : World C T)
      → IsReading w.heap a
      → w.active ≡ a
      → Does (push c) w (push_to a c w)
  unfolding view apply push_to
  push_to-Does none c w r now = sym (ap (λ a. push_at a c (view w)) now)
  push_to-Does (some id) c w (h, live, r) now =
      let (h', g') = push_back id c h w.grpc in
      let joins : view (put id (h', g') w) ≡ push_at (some id) c (view w) = λ i. record {
        active = w.active;
        pending = w.pending;
        line =
            fun_ext
              (one_line (λ j. line_of j w) (λ j. line_of j (put id (h', g') w)) id
                (line_of id w ++ c ∷ [])
                (put-line id h' g' w ∙ rw live (push_back-line id c h w.grpc))
                (λ j ne. put-line_other id j h' g' w ne (push_back-sent_other id j c h w.grpc ne)))
              i;
      } in
      rw (enqueue_live id c w h live) (joins ∙ sym (ap (λ a. push_at a c (view w)) now))
