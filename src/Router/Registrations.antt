-- ===== src/Router/Registrations.antt =====
-- src/services/mqtt_router.cc: what a table of several registrations dispatches.
use mathlib.Core.List.{Nodup, Nodup-cons, Permᴰ}
use mathlib.Core.List.Perm
use mathlib.Core.List.Memᴰ
use iv_cloud_gateway.Base.{
  String, ◌≡◌, ◌≢◌, refl, sym, ◌∙◌, ap, List, [], ◌∷◌, Option, some, str_eq, eq_iff, arith,
  if◌then◌else◌, map,
}
use iv_cloud_gateway.Base.Effects.{Act}
use iv_cloud_gateway.Json.{find}
use iv_cloud_gateway.Router.{MqttRouter, on, dispatch_to, dispatch}
use iv_cloud_gateway.Router.Table.{find-assign}

module _ {V : Type 0} where
  -- The specification: the handler of the last registration of a topic, or else what was there.
  abbrev pub latest : String → List (String × V) → Option V → Option V
  latest t [] before = before
  latest t ((topic, handler) ∷ rest) before =
      latest t rest (if str_eq topic t then some handler else before)

  -- No topic is registered twice.
  abbrev pub Distinct : List (String × V) → Type 0
  Distinct regs = Nodup (map (λ reg. reg.0) regs)

  swapped :
      (t : String) (k : String) (h : V) (j : String) (g : V) (before : Option V)
      → k ≢ j
      → (if str_eq j t then some g else (if str_eq k t then some h else before))
        ≡ (if str_eq k t then some h else (if str_eq j t then some g else before))
  swapped t k h j g before ne = ground (arith, eq_iff k t, eq_iff j t)

  latest-Permᴰ :
      {regs others : List (String × V)} (t : String) (before : Option V)
      → Permᴰ regs others
      → Distinct regs
      → latest t regs before ≡ latest t others before
  latest-Permᴰ t before Permᴰ.nil d = refl
  latest-Permᴰ t before (Permᴰ.cons {a = (k, h)} {b = b} {l₁ = l} {l₂ = m} e p) d =
      latest-Permᴰ t (if str_eq k t then some h else before) p (Nodup-cons.0 d).1
      ∙ ap (λ x. latest t (x ∷ m) before) e
  latest-Permᴰ t before (Permᴰ.swap {a = (k, h)} {b = (j, g)} {a' = a'} {b' = b'} {l = l} e f) d =
      let ne : k ≢ j = λ p. (Nodup-cons.0 d).0 ∣ Memᴰ.head p ∣₁ in
      ap (latest t l) (swapped t k h j g before ne) ∙ λ i. latest t (f i ∷ e i ∷ l) before
  latest-Permᴰ t before (Permᴰ.trans p q) d =
      latest-Permᴰ t before p d
      ∙ latest-Permᴰ t before q (Perm.nodup (Perm.map (λ reg. reg.0) ∣ p ∣₁) d)

module _ {T S : Type 0} where
  -- Calls of `on`, one after the other.
  unfoldable pub register_all :
      List (String × (T → Act S (Unit {0}))) → MqttRouter T S → MqttRouter T S
  register_all [] r = r
  register_all ((topic, handler) ∷ rest) r = register_all rest (on topic handler r)

  find-register_all :
      (t : String) (regs : List (String × (T → Act S (Unit {0})))) (r : MqttRouter T S)
      → find t (register_all regs r).handlers ≡ latest t regs (find t r.handlers)
  unfolding register_all on
  find-register_all t [] r = refl
  find-register_all t ((topic, handler) ∷ rest) r =
      find-register_all t rest (on topic handler r)
      ∙ ap (latest t rest) (find-assign t topic handler r.handlers)

  dispatch-latest :
      (regs : List (String × (T → Act S (Unit {0})))) (t : String) (payload : T)
      (r : MqttRouter T S)
      → dispatch t payload (register_all regs r)
        ≡ dispatch_to (latest t regs (find t r.handlers)) payload
  unfolding dispatch
  dispatch-latest regs t payload r =
      ap (λ o. dispatch_to {S = S} o payload) (find-register_all t regs r)

  -- After calls of `on` that register no topic twice, whatever was registered before, a message is
  -- handled by the handler registered for its topic, or else as before; and the same calls in any
  -- other order lead to the same.
  pub any_order :
      (regs others : List (String × (T → Act S (Unit {0})))) (t : String) (payload : T)
      (r : MqttRouter T S)
      → Permᴰ regs others
      → Distinct regs
      → (dispatch t payload (register_all regs r)
          ≡ dispatch_to (latest t regs (find t r.handlers)) payload)
        × (dispatch t payload (register_all others r) ≡ dispatch t payload (register_all regs r))
  any_order regs others t payload r p d =
      let one = dispatch-latest regs t payload r in
      let same = ap (λ o. dispatch_to {S = S} o payload) (latest-Permᴰ t (find t r.handlers) p d) in
      (one, dispatch-latest others t payload r ∙ (sym same ∙ sym one))
