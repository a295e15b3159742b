-- ===== src/Router/Tests.antt =====
-- Dispatch at concrete inputs.
use iv_cloud_gateway.Base.{
  arith, eq_iff, String, List, refl, ℕ, suc, ◌≡◌, [], ◌∷◌, ok, err, json_exception,
}
use iv_cloud_gateway.Base.Effects.{Act}
use iv_cloud_gateway.Router.{MqttRouter, dispatch_to, dispatch}
use mathlib.Core.List.{Nodup-cons, Nodup-nil, not-mem-nil, Memᴰ, Permᴰ}
use iv_cloud_gateway.Json.{find}
use mathlib.Core.HLevel.{⊥_prop}
use mathlib.Core.Logic.{∥∥₁_elim}
use iv_cloud_gateway.Router.Registrations.{register_all, latest, Distinct, any_order}

-- A handler that counts.
abbrev count : ℕ → Act ℕ (Unit {0})
count payload n = (suc n, ok tt)

-- A handler that counts and then throws.
abbrev broken : ℕ → Act ℕ (Unit {0})
broken payload n = (suc n, err json_exception)

abbrev routes : MqttRouter ℕ ℕ
routes = record { handlers = ("a", count) ∷ ("b", broken) ∷ [] }

-- Two topics, registered in one order and in the other.
abbrev one_order : List (String × (ℕ → Act ℕ (Unit {0})))
one_order = ("c", broken) ∷ ("a", broken) ∷ []

abbrev other_order : List (String × (ℕ → Act ℕ (Unit {0})))
other_order = ("a", broken) ∷ ("c", broken) ∷ []

other_topic : Memᴰ {A = String} "c" ("a" ∷ []) → ⊥
other_topic (Memᴰ.head e) = ground (arith, eq_iff "c" "a")
other_topic (Memᴰ.tail m) = elim m [ ]

one_order-Distinct : Distinct one_order
one_order-Distinct =
    Nodup-cons.1 (λ m. ∥∥₁_elim m ⊥_prop other_topic, Nodup-cons.1 (not-mem-nil, Nodup-nil))

any_order_example :
    (dispatch "a" 5 (register_all one_order routes)
      ≡ dispatch_to (latest "a" one_order (find "a" routes.handlers)) 5)
    × (dispatch "a" 5 (register_all other_order routes)
        ≡ dispatch "a" 5 (register_all one_order routes))
any_order_example =
    any_order one_order other_order "a" 5 routes (Permᴰ.swap refl refl) one_order-Distinct
