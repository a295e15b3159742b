-- ===== src/Router.antt =====
-- src/services/mqtt_router.h and .cc. A handler works on the state `S` and may throw.
pub mod Table
pub mod Registrations
mod Tests
use iv_cloud_gateway.Base.{String, List, [], ◌∷◌, Option, none, some, ok, str_eq, if◌then◌else◌}
use iv_cloud_gateway.Base.Effects.{Act, pure, catching}
use iv_cloud_gateway.Json.{find}

pub record MqttRouter (T S : Type 0) : Type 0 where
  pub handlers : List (String × (T → Act S (Unit {0})))

-- `handlers_[topic] = handler`.
abbrev pub assign : {V : Type 0} → String → V → List (String × V) → List (String × V)
assign k v [] = (k, v) ∷ []
assign k v ((j, w) ∷ m) = if str_eq j k then (j, v) ∷ m else (j, w) ∷ assign k v m

module _ {T S : Type 0} where
  unfoldable pub on : String → (T → Act S (Unit {0})) → MqttRouter T S → MqttRouter T S
  on topic handler r = record r { handlers = assign topic handler r.handlers }

  -- The two `catch` clauses only log.
  unfoldable pub dispatch_to : Option (T → Act S (Unit {0})) → T → Act S (Unit {0})
  dispatch_to none payload = pure tt
  dispatch_to (some handler) payload = catching (handler payload) (pure tt)

  unfoldable pub dispatch : String → T → MqttRouter T S → Act S (Unit {0})
  unfolding dispatch_to
  dispatch topic payload r = dispatch_to (find topic r.handlers) payload
