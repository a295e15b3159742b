-- ===== src/Stream/Tags.antt =====
-- Which operations gRPC owes to which handler, after any run.
use iv_cloud_gateway.Base.{
  ℕ, ◌≤◌, ◌<◌, ◌≡◌, refl, ◌≢◌, Bool, true, false, List, [], ◌∷◌, Option, none, some, arith, ◌==◌,
  ==_refl, update, inl, inr, Bool-cases, sym, ◌∙◌, ap, subst,
}
use iv_cloud_gateway.Stream.{
  State, reading, Handler, Grpc, World, ask, delete, clear_active, flush_write_queue_locked,
  push_back, write_done, proceed_create, Call, clear_at, request_stream,
}
use iv_cloud_gateway.Stream.Steps.{settle, settle_write, start}
use iv_cloud_gateway.Stream.Heap.{feed, put, accepted, gone_on, flushed}

abbrev pub bit : Bool → ℕ
bit true = 1
bit false = 0

module _ {C : Type 0} where
  -- Exactly one operation of its own for a handler that is alive, and a write just while `writing_`
  -- is set; nothing of its own for one that is deleted.
  abbrev pub Fits : Option (Handler C) → ℕ → ℕ → Type 0
  Fits none o ow = o ≡ 0
  Fits (some h) o ow = (o ≡ 1) × (ow ≡ bit h.writing)

  -- The active handler is alive and reads.
  abbrev pub IsReading : (ℕ → Option (Handler C)) → Option ℕ → Type 0
  IsReading heap none = Unit
  IsReading heap (some a) = (h : Handler C) × (heap a ≡ some h) × (h.state ≡ reading)

  pub IsReading-update :
      (heap : ℕ → Option (Handler C)) (a : Option ℕ) (id : ℕ) (new : Option (Handler C))
      → a ≢ some id
      → IsReading heap a
      → IsReading (update heap id new) a
  IsReading-update heap none id new ne v = tt
  IsReading-update heap (some a) id new ne (h, e, r) =
      let other : id ≢ a = λ p. ne (ap some (sym p)) in (h, ground arith, r)

  pub IsReading-keep :
      (heap : ℕ → Option (Handler C)) (a : Option ℕ) (id : ℕ) (h h' : Handler C)
      → heap id ≡ some h
      → h'.state ≡ h.state
      → IsReading heap a
      → IsReading (update heap id (some h')) a
  IsReading-keep heap none id h h' live same v = tt
  IsReading-keep heap (some a) id h h' live same (x, e, r) = elim (Bool-cases (id == a)) [
    | inl same_id ↦ (h', rw same_id, ground arith)
    | inr other ↦ (x, rw other e, r)
  ]

  -- What an operation on the queue of handler `id` leaves alone, and that it accounts for a write.
  pub record Keeps (id : ℕ) (h : Handler C) (g : Grpc C) (h' : Handler C) (g' : Grpc C)
      : Type 0 where
    pub state : h'.state ≡ h.state
    pub owed : (j : ℕ) → g'.owed j ≡ g.owed j
    pub others : (j : ℕ) → j ≢ id → g'.owed_writes j ≡ g.owed_writes j
    pub writes : g.owed_writes id ≡ bit h.writing → g'.owed_writes id ≡ bit h'.writing

  pub flush-Keeps :
      (id : ℕ) (h : Handler C) (g : Grpc C)
      → Keeps id h g (flush_write_queue_locked id h g).0 (flush_write_queue_locked id h g).1
  unfolding flush_write_queue_locked
  flush-Keeps id h g = record {
    state = ground arith;
    owed = λ j. ground arith;
    others = λ j ne. ground arith;
    writes = λ e. ground arith;
  }

  pub push_back-Keeps :
      (id : ℕ) (c : C) (h : Handler C) (g : Grpc C)
      → Keeps id h g (push_back id c h g).0 (push_back id c h g).1
  unfolding push_back
  push_back-Keeps id c h g = record {
    state = ground arith;
    owed = λ j. ground arith;
    others = λ j ne. ground arith;
    writes = λ e. ground arith;
  }

  feed-Keeps :
      (id : ℕ) (cs : List C) (h : Handler C) (g : Grpc C)
      → Keeps id h g (feed id cs h g).0 (feed id cs h g).1
  unfolding feed
  feed-Keeps id [] h g = record {
    state = refl;
    owed = λ j. refl;
    others = λ j ne. refl;
    writes = λ e. e;
  }
  feed-Keeps id (c ∷ cs) h g =
      let (h', g') = push_back id c h g in
      let one = push_back-Keeps id c h g in
      let rest = feed-Keeps id cs h' g' in
      record {
        state = rest.state ∙ one.state;
        owed = λ j. rest.owed j ∙ one.owed j;
        others = λ j ne. rest.others j ne ∙ one.others j ne;
        writes = λ e. rest.writes (one.writes e);
      }

module _ {C T : Type 0} where
  pub record Inv (w : World C T) : Type 0 where
    pub fits : (id : ℕ) → Fits (w.heap id) (w.grpc.owed id) (w.grpc.owed_writes id)
    pub unused : (id : ℕ) → w.next ≤ id → (w.heap id ≡ none) × (w.grpc.owed_writes id ≡ 0)
    pub active : IsReading w.heap w.active

  pub start-Inv : Inv start
  unfolding start
  start-Inv = record { fits = λ id. ground arith; unused = λ id h. ground arith; active = tt }

  pub settled-Inv :
      (id : ℕ) (h h' : Handler C) (g' : Grpc C) (w : World C T)
      → w.heap id ≡ some h
      → h'.state ≡ h.state
      → ((j : ℕ) → g'.owed j ≡ w.grpc.owed j)
      → ((j : ℕ) → j ≢ id → g'.owed_writes j ≡ w.grpc.owed_writes j)
      → g'.owed_writes id ≡ bit h'.writing
      → Inv w
      → Inv (put id (h', g') w)
  settled-Inv id h h' g' w live same owed others writes v = record {
    fits = λ j. ground (arith, v.fits j, v.fits id, owed j, others j);
    unused = λ j le. ground (arith, v.unused j, v.fits j, others j);
    active = IsReading-keep w.heap w.active id h h' live same v.active;
  }

  -- A queue operation on a handler that is alive.
  pub put-Inv :
      (id : ℕ) (h h' : Handler C) (g' : Grpc C) (w : World C T)
      → w.heap id ≡ some h
      → Keeps id h w.grpc h' g'
      → Inv w
      → Inv (put id (h', g') w)
  put-Inv id h h' g' w live k v =
      settled-Inv id h h' g' w live k.state k.owed k.others (ground (arith, v.fits id, k.writes)) v

  -- The active handler is no handler in another state, and no deleted one.
  pub not-active :
      (w : World C T) (id : ℕ) (h : Handler C)
      → Inv w
      → w.heap id ≡ some h
      → h.state ≢ reading
      → w.active ≢ some id
  not-active w id h v live ne e =
      let (x, found, r) = subst (IsReading w.heap) e v.active in ground arith

  -- With its one operation settled, a handler may start the next.
  pub gone_on-Inv :
      (id : ℕ) (s : State) (c : Call C) (h : Handler C) (w : World C T)
      → Inv w
      → w.heap id ≡ some h
      → IsReading (update w.heap id (some (record h { state = s }))) w.active
      → Inv (gone_on id s c h (settle id w))
  gone_on-Inv id s c h w v live r = record {
    fits = λ j. ground (arith, v.fits j, v.fits id);
    unused = λ j le. ground (arith, v.unused j le, v.unused id);
    active = r;
  }

  pub delete-Inv :
      (id : ℕ) (h : Handler C) (w : World C T)
      → Inv w
      → w.heap id ≡ some h
      → w.active ≢ some id
      → Inv (delete id (settle id w))
  delete-Inv id h w v live ne = record {
    fits = λ j. ground (arith, v.fits j, v.fits id);
    unused = λ j le. ground (arith, v.unused j le);
    active = IsReading-update w.heap w.active id none ne v.active;
  }

  pub clear_active-Inv : (id : ℕ) (w : World C T) → Inv w → Inv (clear_active id w)
  unfolding clear_active
  clear_active-Inv id w v = record {
    fits = v.fits;
    unused = v.unused;
    active = cleared w.active v.active;
  }
    where
      cleared : (a : Option ℕ) → IsReading w.heap a → IsReading w.heap (clear_at a id)
      cleared none r = tt
      cleared (some a) r = ground arith

  pub clear_active-ne : (id : ℕ) (w : World C T) → (clear_active id w).active ≢ some id
  unfolding clear_active
  clear_active-ne id w = cleared w.active
    where
      cleared : (a : Option ℕ) → clear_at a id ≢ some id
      cleared none e = cc
      cleared (some a) e = ground arith

  -- Settled, a handler that waited for a connection accepts it.
  pub accepted-Inv :
      (id : ℕ) (h : Handler C) (w : World C T)
      → Inv w
      → w.heap id ≡ some h
      → Inv (accepted id h (settle id w))
  accepted-Inv id h w v live =
      let k = feed-Keeps id w.pending h (ask (request_stream w.next) w.next (settle id w).grpc) in
      let other : id ≢ w.next = λ e. ground (arith, v.unused id) in
      record {
        fits = λ j.
            ground
              (arith, v.fits j, v.fits id, v.unused j, k.owed j, k.owed id, k.others j, k.writes);
        unused = λ j le. ground (arith, v.unused j, k.others j, v.unused id);
        active =
            (record ((flushed id h (settle id w)).0) { state = reading }, rw (==_refl id), refl);
      }

  -- Settled, a write that is done lets the next one start.
  pub write_done-Inv :
      (id : ℕ) (success : Bool) (h : Handler C) (w : World C T)
      → Inv w
      → w.heap id ≡ some h
      → 0 < w.grpc.owed_writes id
      → Inv (put id (write_done id success h (settle_write id w).grpc) (settle_write id w))
  unfolding write_done
  write_done-Inv id false h w v live due =
      settled-Inv id h _ _ w live refl (λ j. refl) (λ j ne. ground arith)
        (ground (arith, v.fits id)) v
  write_done-Inv id true h w v live due =
      let k = flush-Keeps id (record h { writing = false }) (settle_write id w).grpc in
      settled-Inv id h _ _ w live k.state k.owed (λ j ne. ground (arith, k.others j))
        (ground (arith, v.fits id, k.writes)) v

  pub create-Inv :
      (id : ℕ) (h : Handler C) (w : World C T)
      → Inv w
      → w.heap id ≡ some h
      → h.state ≢ reading
      → Inv (proceed_create id h (settle id w))
  unfolding proceed_create
  create-Inv id h w v live ne = record {
    fits = λ j. ground (arith, v.fits j, v.fits id);
    unused = λ j le. ground (arith, v.unused j le, v.unused id);
    active = IsReading-update w.heap w.active id _ (not-active w id h v live ne) v.active;
  }
