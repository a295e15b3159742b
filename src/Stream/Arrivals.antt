-- ===== src/Stream/Arrivals.antt =====
-- src/services/vehicle_stream_handler.h: where pushed commands come, whatever is active.
use mathlib.Core.List.{append-nil, append_assoc}
use iv_cloud_gateway.Base.{
  ℕ, ◌≡◌, refl, sym, ◌∙◌, ap, subst, List, [], ◌∷◌, ◌++◌, Option, none, some, ok,
}
use iv_cloud_gateway.Stream.{World, push_command}
use iv_cloud_gateway.Stream.Tags.{Inv, IsReading}
use iv_cloud_gateway.Stream.Delivery.{line_of, push_command-line, push_parked}

appended :
    {C : Type 0} (x : List C) {y z : List C} (cs ds : List C)
    → y ≡ x ++ cs
    → z ≡ y ++ ds
    → z ≡ x ++ (cs ++ ds)
appended x cs ds e e' = e' ∙ (ap (λ l. l ++ ds) e ∙ append_assoc x cs ds)

module _ {C T : Type 0} where
  -- The commands `cs` have come to the stream, in order: to the line of the active handler, or else
  -- to what is pending.
  abbrev pub Arrives : Option ℕ → List C → World C T → World C T → Type 0
  Arrives none cs w v = (v.active ≡ none) × (v.pending ≡ w.pending ++ cs)
  Arrives (some id) cs w v =
      (v.active ≡ some id) × (line_of id v ≡ line_of id w ++ cs) × (v.pending ≡ w.pending)

  pub Arrives-none : (a : Option ℕ) (w : World C T) → w.active ≡ a → Arrives a [] w w
  Arrives-none none w e = (e, sym (append-nil w.pending))
  Arrives-none (some id) w e = (e, sym (append-nil (line_of id w)), refl)

  pub Arrives-trans :
      (a : Option ℕ) (cs ds : List C) (u v w : World C T)
      → Arrives a cs u v
      → Arrives a ds v w
      → Arrives a (cs ++ ds) u w
  Arrives-trans none cs ds u v w (e, p) (e', p') = (e', appended u.pending cs ds p p')
  Arrives-trans (some id) cs ds u v w (e, l, p) (e', l', p') =
      (e', appended (line_of id u) cs ds l l', p' ∙ p)

  -- A push, to whatever is active.
  pub push-Arrives :
      (a : Option ℕ) (c : C) (w : World C T)
      → Inv w
      → w.active ≡ a
      → (v : World C T) × (push_command c w ≡ ok v) × Arrives a (c ∷ []) w v
  push-Arrives none c w i e = (_, push_parked c w e, (e, refl))
  push-Arrives (some id) c w i e =
      let (h, live, r) = subst (IsReading w.heap) e i.active in
      let (v, done, longer, same, on) = push_command-line id c w h e live in
      (v, done, (on ∙ e, longer, same))

  pub Arrives-active :
      (a : Option ℕ) (cs : List C) (w v : World C T) → Arrives a cs w v → v.active ≡ a
  Arrives-active none cs w v (e, p) = e
  Arrives-active (some id) cs w v (e, l, p) = e
