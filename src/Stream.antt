-- ===== src/Stream.antt =====
-- src/services/vehicle_stream_handler.h and .cc, with the tag of src/services/stream_tag.h.
--
-- A `VehicleStreamHandler*` is a number, and the heap maps it to the object until `delete this`.
-- The static members are fields of `World`. gRPC is what it was asked for (`calls`, oldest first)
-- and how many operations it still owes to each of a handler's two tags. Locks are not modelled:
-- a step is one call of `Proceed`, `on_write_done` or `push_command`, run to its end.
pub mod Incoming
pub mod Steps
pub mod Order
pub mod Heap
pub mod Tags
pub mod Live
pub mod Delivery
pub mod Session
pub mod Drain
pub mod Waiting
pub mod Races
pub mod Loss
pub mod Takeover
pub mod Shutdown
pub mod Queue
pub mod Runs
pub mod Arrivals
pub mod Reported
pub mod Flow
pub mod Mailbox
pub mod Views
pub mod Refines
mod Tests
use iv_cloud_gateway.Base.{
  ℕ, suc, ◌+◌, Bool, true, false, String, List, [], ◌∷◌, ◌++◌, Option, none, some, Result, ok, err,
  dangling, ◌==◌, if◌then◌else◌, update, ◌>>=◌,
}

pub data State : Type 0 where
  create accepting reading finish : State

pub record Handler (C : Type 0) : Type 0 where
  pub state : State
  pub write_queue : List C
  pub writing : Bool

pub data Call (C : Type 0) : Type 0 where
  request_stream : ℕ → Call C
  read : ℕ → Call C
  write : ℕ → C → Call C
  finish_stream : ℕ → Call C

pub record Grpc (C : Type 0) : Type 0 where
  pub calls : List (Call C)
  -- The operations in flight under the tag `this`, and under the tag `&writer_`.
  pub owed : ℕ → ℕ
  pub owed_writes : ℕ → ℕ

pub record World (C T : Type 0) : Type 0 where
  pub heap : ℕ → Option (Handler C)
  pub next : ℕ
  pub active : Option ℕ
  pub pending : List C
  pub grpc : Grpc C
  -- The topics and payloads that were passed to `publish_`.
  pub published : List (String × T)

abbrev pub ask : {C : Type 0} → Call C → ℕ → Grpc C → Grpc C
ask c id g = record g { calls = g.calls ++ c ∷ []; owed = update g.owed id (suc (g.owed id)) }

abbrev pub ask_write : {C : Type 0} → ℕ → C → Grpc C → Grpc C
ask_write id c g = record g {
  calls = g.calls ++ write id c ∷ [];
  owed_writes = update g.owed_writes id (suc (g.owed_writes id));
}

-- `active_.compare_exchange_strong(exp, nullptr)` with `exp = this`.
pub clear_at : Option ℕ → ℕ → Option ℕ
clear_at none id = none
clear_at (some a) id = if a == id then none else some a

module _ {C : Type 0} where
  pub flush_write_queue_locked : ℕ → Handler C → Grpc C → Handler C × Grpc C
  flush_write_queue_locked id h g = elim h.write_queue [
    | [] ↦ (h, g)
    | c ∷ rest ↦
        if h.writing
        then (h, g)
        else (record h { writing = true; write_queue = rest }, ask_write id c g)
  ]

  -- The handler's side of `enqueue`.
  pub push_back : ℕ → C → Handler C → Grpc C → Handler C × Grpc C
  unfolding flush_write_queue_locked
  push_back id c h g =
      let h' = record h { write_queue = h.write_queue ++ c ∷ [] } in
      if h.writing then (h', g) else flush_write_queue_locked id h' g

  pub write_done : ℕ → Bool → Handler C → Grpc C → Handler C × Grpc C
  unfolding flush_write_queue_locked
  write_done id false h g = (record h { writing = false }, g)
  write_done id true h g = flush_write_queue_locked id (record h { writing = false }) g

module _ {C T : Type 0} where
  abbrev pub store : ℕ → Handler C → World C T → World C T
  store id h w = record w { heap = update w.heap id (some h) }

  abbrev pub delete : ℕ → World C T → World C T
  delete id w = record w { heap = update w.heap id none }

  pub clear_active : ℕ → World C T → World C T
  unfolding clear_at
  clear_active id w = record w { active = clear_at w.active id }

  -- A member function runs on the object, and stores it back.
  pub on_handler : ℕ → (Handler C → Grpc C → Handler C × Grpc C) → World C T → Result (World C T)
  on_handler id f w = elim (w.heap id) [
    | none ↦ err dangling
    | some h ↦ let (h', g') = f h w.grpc in ok (store id h' (record w { grpc = g' }))
  ]

  pub enqueue : ℕ → C → World C T → Result (World C T)
  unfolding on_handler push_back
  enqueue id c w = on_handler id (push_back id c) w

  pub on_write_done : ℕ → Bool → World C T → Result (World C T)
  unfolding on_handler write_done
  on_write_done id success w = on_handler id (write_done id success) w

  -- `push_command` after `auto* h = active_.load()`.
  unfoldable pub push_to : Option ℕ → C → World C T → Result (World C T)
  unfolding enqueue
  push_to none c w = ok (record w { pending = w.pending ++ c ∷ [] })
  push_to (some id) c w = enqueue id c w

  pub push_command : C → World C T → Result (World C T)
  unfolding push_to
  push_command c w = push_to w.active c w

  -- The loop of `flush_pending`, over the commands that are still there.
  pub flush_loop : List C → ℕ → World C T → Result (World C T)
  unfolding enqueue
  flush_loop [] id w = ok w
  flush_loop (c ∷ cs) id w = do w' ← enqueue id c w; flush_loop cs id (record w' { pending = cs })

  pub flush_pending : ℕ → World C T → Result (World C T)
  unfolding flush_loop
  flush_pending id w = flush_loop w.pending id w

  -- `Proceed` in the state CREATE.
  unfoldable pub proceed_create : ℕ → Handler C → World C T → World C T
  proceed_create id h w = record (store id (record h { state = accepting }) w) {
    grpc = ask (request_stream id) id w.grpc;
  }

  -- The constructor: a new object, on which it calls `Proceed(true)`.
  unfoldable pub new_handler : World C T → World C T
  unfolding proceed_create
  new_handler w =
      proceed_create w.next (record { state = create; write_queue = []; writing = false })
        (record w { next = suc w.next })

  pub set_state : ℕ → State → World C T → World C T
  set_state id s w = elim (w.heap id) [ none ↦ w | some h ↦ store id (record h { state = s }) w ]

  -- A state change and the operation that the handler then starts.
  pub go_on : ℕ → State → Call C → World C T → World C T
  unfolding set_state
  go_on id s c w = let w' = set_state id s w in record w' { grpc = ask c id w'.grpc }

  -- `Proceed(true)` in the state ACCEPTING.
  pub accept : ℕ → World C T → Result (World C T)
  unfolding new_handler flush_pending go_on
  accept id w = do
    w' ← flush_pending id (record (new_handler w) { active = some id })
    ok (go_on id reading (read id) w')

  -- `Proceed(false)` in the state READING.
  pub disconnect : ℕ → World C T → World C T
  unfolding clear_active go_on
  disconnect id w = go_on id finish (finish_stream id) (clear_active id w)

  -- `Proceed` in the state FINISH.
  pub release : ℕ → World C T → World C T
  unfolding clear_active
  release id w = delete id (clear_active id w)
