-- ===== src/Stream/Mailbox.antt =====
-- src/services/vehicle_stream_handler.h: what its users may know of it, without handlers and
-- queues.
use iv_cloud_gateway.Base.{
  ℕ, zero, suc, ◌≡◌, refl, ap, List, [], ◌∷◌, ◌==◌, if◌then◌else◌, ◌++◌, Option, none, some, length,
  update,
}

-- The abstract view: the stream that takes the commands, if any, those that wait for one, and the
-- line of each stream, which a vehicle reads from its front.
pub record Mailbox (C : Type 0) : Type 0 where
  pub active : Option ℕ
  pub pending : List C
  pub line : ℕ → List C

-- What can happen to it. A stream that is dropped keeps the first `n` commands of its line.
pub data Act (C : Type 0) : Type 0 where
  rest : Act C
  push : C → Act C
  connect : ℕ → Act C
  hang_up : ℕ → Act C
  drop : ℕ → ℕ → Act C

-- The active stream, once `id` is none any more.
abbrev pub without : ℕ → Option ℕ → Option ℕ
without id none = none
without id (some a) = if a == id then none else some a

module _ {C : Type 0} where
  abbrev pub take : ℕ → List C → List C
  take zero cs = []
  take (suc n) [] = []
  take (suc n) (c ∷ cs) = c ∷ take n cs

  abbrev pub push_at : Option ℕ → C → Mailbox C → Mailbox C
  push_at none c m = record m { pending = m.pending ++ c ∷ [] }
  push_at (some id) c m = record m { line = update m.line id (m.line id ++ c ∷ []) }

  unfoldable pub apply : Act C → Mailbox C → Mailbox C
  apply rest m = m
  apply (push c) m = push_at m.active c m
  apply (connect id) m = record {
    active = some id;
    pending = [];
    line = update m.line id (m.line id ++ m.pending);
  }
  apply (hang_up id) m = record m { active = without id m.active }
  apply (drop id n) m = record m {
    active = without id m.active;
    line = update m.line id (take n (m.line id));
  }

  -- Acts one after the other.
  abbrev pub perform : List (Act C) → Mailbox C → Mailbox C
  perform [] m = m
  perform (a ∷ acts) m = perform acts (apply a m)

  pub perform-append :
      (xs ys : List (Act C)) (m : Mailbox C) → perform (xs ++ ys) m ≡ perform ys (perform xs m)
  perform-append [] ys m = refl
  perform-append (a ∷ xs) ys m = perform-append xs ys (apply a m)

  pub take_all : (xs ys : List C) → take (length xs) (xs ++ ys) ≡ xs
  take_all [] ys = refl
  take_all (x ∷ xs) ys = ap (λ l. x ∷ l) (take_all xs ys)
