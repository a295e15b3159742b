-- ===== src/Mqtt/Asking.antt =====
-- src/transport/mqtt_client/mqtt_client.cpp: the topics that a session has asked for, and those
-- that its tasks will ask for.
use mathlib.Core.List.{append-nil, append_assoc}
use iv_cloud_gateway.Base.{
  ◌≡◌, refl, sym, ◌∙◌, subst, ◌⊎◌, inl, inr, Bool, true, false, String, List, [], ◌∷◌, ◌++◌, Option,
  none, some,
}
use iv_cloud_gateway.Mqtt.{Task, flush, subscribe_to, Session, do_subscribe, subscribe_all}

module _ {T : Type 0} where
  abbrev pub asked_of : Option (Session T) → List String
  asked_of none = []
  asked_of (some s) = s.asked

  abbrev pub tasks_of : Option (Session T) → List Task
  tasks_of none = []
  tasks_of (some s) = s.tasks

  pub subscribe_all-asked :
      (ts : List String) (s : Session T) → (subscribe_all ts s).asked ≡ s.asked ++ ts
  subscribe_all-asked [] s = sym (append-nil s.asked)
  subscribe_all-asked (t ∷ ts) s =
      subscribe_all-asked ts (do_subscribe t s) ∙ append_assoc s.asked (t ∷ []) ts

  pub subscribe_all-tasks :
      (ts : List String) (s : Session T) → (subscribe_all ts s).tasks ≡ s.tasks
  subscribe_all-tasks [] s = refl
  subscribe_all-tasks (t ∷ ts) s = subscribe_all-tasks ts (do_subscribe t s)

abbrev pub Among : String → List String → Type 0
Among t [] = ⊥
Among t (x ∷ xs) = (x ≡ t) ⊎ Among t xs

pub Among-left : (t : String) (xs ys : List String) → Among t xs → Among t (xs ++ ys)
Among-left t [] ys m = absurd m
Among-left t (x ∷ xs) ys (inl e) = inl e
Among-left t (x ∷ xs) ys (inr m) = inr (Among-left t xs ys m)

pub Among-right : (t : String) (xs ys : List String) → Among t ys → Among t (xs ++ ys)
Among-right t [] ys m = m
Among-right t (x ∷ xs) ys m = inr (Among-right t xs ys m)

-- A task that will ask for the topic: its own, or one that flushes the pending topics, among which
-- it is.
abbrev pub Posted : String → List String → List Task → Type 0
Posted t pending [] = ⊥
Posted t pending (flush ∷ ts) = Among t pending ⊎ Posted t pending ts
Posted t pending (subscribe_to x ∷ ts) = (x ≡ t) ⊎ Posted t pending ts

pub Posted-longer :
    (t : String) (ps qs : List String) (ts us : List Task)
    → Posted t ps ts
    → Posted t (ps ++ qs) (ts ++ us)
Posted-longer t ps qs [] us p = absurd p
Posted-longer t ps qs (flush ∷ ts) us (inl m) = inl (Among-left t ps qs m)
Posted-longer t ps qs (flush ∷ ts) us (inr p) = inr (Posted-longer t ps qs ts us p)
Posted-longer t ps qs (subscribe_to x ∷ ts) us (inl e) = inl e
Posted-longer t ps qs (subscribe_to x ∷ ts) us (inr p) = inr (Posted-longer t ps qs ts us p)

pub Posted-last :
    (t : String) (ps : List String) (ts : List Task) → Posted t ps (ts ++ subscribe_to t ∷ [])
Posted-last t ps [] = inl refl
Posted-last t ps (flush ∷ ts) = inr (Posted-last t ps ts)
Posted-last t ps (subscribe_to x ∷ ts) = inr (Posted-last t ps ts)

-- A task waits for the topic because it is pending, or whatever is pending.
Posted-split :
    (t : String) (ps : List String) (ts : List Task) → Posted t ps ts → Among t ps ⊎ Posted t [] ts
Posted-split t ps [] p = absurd p
Posted-split t ps (flush ∷ ts) (inl m) = inl m
Posted-split t ps (flush ∷ ts) (inr p) = elim (Posted-split t ps ts p) [
  | inl m ↦ inl m
  | inr q ↦ inr (inr q)
]
Posted-split t ps (subscribe_to x ∷ ts) (inl e) = inr (inl e)
Posted-split t ps (subscribe_to x ∷ ts) (inr p) = elim (Posted-split t ps ts p) [
  | inl m ↦ inl m
  | inr q ↦ inr (inr q)
]

-- A topic that has been asked for, or will be by a task.
abbrev pub Asked : String → List String → List Task → List String → Type 0
Asked t pending tasks asked = Posted t pending tasks ⊎ Among t asked

module _ {T : Type 0} where
  -- What has been asked for once the pending topics are flushed.
  pub flush-Asked :
      (t : String) (ps : List String) (s : Session T)
      → Asked t ps s.tasks s.asked
      → Asked t [] (subscribe_all ps s).tasks (subscribe_all ps s).asked
  flush-Asked t ps s (inl p) = elim (Posted-split t ps s.tasks p) [
    | inl m ↦ inr (rw (subscribe_all-asked ps s) (Among-right t s.asked ps m))
    | inr q ↦ inl (rw (subscribe_all-tasks ps s) q)
  ]
  flush-Asked t ps s (inr m) = inr (rw (subscribe_all-asked ps s) (Among-left t s.asked ps m))

  -- The task that `subscribe` posts while the client runs.
  abbrev pub posted : String → Bool → Option (Session T) → List Task
  posted x true (some s) = subscribe_to x ∷ []
  posted x false (some s) = []
  posted x b none = []

pub Asked-same :
    (t : String) {ps qs : List String} {ts us : List Task} {ks bs : List String}
    → ps ≡ qs
    → ts ≡ us
    → ks ≡ bs
    → Asked t ps ts ks
    → Asked t qs us bs
Asked-same t {ps} {qs} {ts} {us} {ks} {bs} e e' e'' k =
    subst (λ l. Asked t l us bs) e
      (subst (λ l. Asked t ps l bs) e' (subst (λ l. Asked t ps ts l) e'' k))
