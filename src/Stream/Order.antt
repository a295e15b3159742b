-- ===== src/Stream/Order.antt =====
-- src/services/vehicle_stream_handler.h: the order of commands in a handler's queue and stream.
use mathlib.Core.List.{append_assoc, append-nil}
use iv_cloud_gateway.Base.{
  ℕ, ◌≡◌, refl, ◌≢◌, Bool, true, false, List, [], ◌∷◌, ◌++◌, arith, ◌==◌, ==_refl, if◌then◌else◌,
}
use iv_cloud_gateway.Stream.{
  Handler, Call, request_stream, read, write, finish_stream, Grpc, flush_write_queue_locked,
  push_back, write_done,
}

module _ {C : Type 0} where
  -- The commands written to the stream of handler `id`, oldest first.
  abbrev pub sent : ℕ → List (Call C) → List C
  sent id [] = []
  sent id (write j c ∷ cs) = if j == id then c ∷ sent id cs else sent id cs
  sent id (request_stream j ∷ cs) = sent id cs
  sent id (read j ∷ cs) = sent id cs
  sent id (finish_stream j ∷ cs) = sent id cs

  pub sent-append : (id : ℕ) (xs ys : List (Call C)) → sent id (xs ++ ys) ≡ sent id xs ++ sent id ys
  sent-append id [] ys = refl
  sent-append id (write j c ∷ xs) ys = ground (arith, sent-append id xs ys)
  sent-append id (request_stream j ∷ xs) ys = sent-append id xs ys
  sent-append id (read j ∷ xs) ys = sent-append id xs ys
  sent-append id (finish_stream j ∷ xs) ys = sent-append id xs ys

  -- What has been written to the stream, then what waits for it.
  abbrev pub line : ℕ → Handler C × Grpc C → List C
  line id (h, g) = sent id g.calls ++ h.write_queue

  sent-write :
      (id : ℕ) (c : C) (g : Grpc C) (rest : List C)
      → sent id (g.calls ++ write id c ∷ []) ++ rest ≡ sent id g.calls ++ c ∷ rest
  sent-write id c g rest =
      rw (sent-append id g.calls (write id c ∷ []), ==_refl id)
        (append_assoc (sent id g.calls) (c ∷ []) rest)

  sent-write_other :
      (id j : ℕ) (c : C) (g : Grpc C)
      → j ≢ id
      → sent j (g.calls ++ write id c ∷ []) ≡ sent j g.calls
  sent-write_other id j c g ne =
      ground (arith, sent-append j g.calls (write id c ∷ []), append-nil (sent j g.calls))

  pub flush-line :
      (id : ℕ) (h : Handler C) (g : Grpc C)
      → line id (flush_write_queue_locked id h g) ≡ line id (h, g)
  unfolding flush_write_queue_locked
  flush-line id h g = grind (arith, sent-write)

  -- A new command joins the end of the line, whether it is written at once or has to wait.
  pub push_back-line :
      (id : ℕ) (c : C) (h : Handler C) (g : Grpc C)
      → line id (push_back id c h g) ≡ line id (h, g) ++ c ∷ []
  unfolding push_back
  push_back-line id c h g = ground (
    arith,
    flush-line id (record h { write_queue = h.write_queue ++ c ∷ [] }) g,
    append_assoc (sent id g.calls) h.write_queue (c ∷ []),
  )

  pub write_done-line :
      (id : ℕ) (success : Bool) (h : Handler C) (g : Grpc C)
      → line id (write_done id success h g) ≡ line id (h, g)
  unfolding write_done
  write_done-line id false h g = refl
  write_done-line id true h g = flush-line id (record h { writing = false }) g

  -- Nothing is written to another stream.
  pub flush-sent_other :
      (id j : ℕ) (h : Handler C) (g : Grpc C)
      → j ≢ id
      → sent j (flush_write_queue_locked id h g).1.calls ≡ sent j g.calls
  unfolding flush_write_queue_locked
  flush-sent_other id j h g ne = grind (arith, sent-write_other)

  pub push_back-sent_other :
      (id j : ℕ) (c : C) (h : Handler C) (g : Grpc C)
      → j ≢ id
      → sent j (push_back id c h g).1.calls ≡ sent j g.calls
  unfolding push_back
  push_back-sent_other id j c h g ne =
      ground
        (arith, flush-sent_other id j (record h { write_queue = h.write_queue ++ c ∷ [] }) g ne)

  pub write_done-sent_other :
      (id j : ℕ) (success : Bool) (h : Handler C) (g : Grpc C)
      → j ≢ id
      → sent j (write_done id success h g).1.calls ≡ sent j g.calls
  unfolding write_done
  write_done-sent_other id j false h g ne = refl
  write_done-sent_other id j true h g ne = flush-sent_other id j (record h { writing = false }) g ne
