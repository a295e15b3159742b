-- ===== src/Router/Table.antt =====
-- src/services/mqtt_router.cc: the route table and the exceptions of handlers.
use iv_cloud_gateway.Base.{
  String, ◌≡◌, refl, ◌⊎◌, inl, inr, List, [], ◌∷◌, Option, none, some, Result, ok, err,
  json_exception, std_exception, dangling, str_eq, eq_iff, arith, if◌then◌else◌, Bool-cases,
}
use iv_cloud_gateway.Base.Effects.{Act, pure, recover}
use iv_cloud_gateway.Json.{find}
use iv_cloud_gateway.Router.{MqttRouter, assign, on, dispatch_to, dispatch}

pub find-assign :
    {V : Type 0} (j k : String) (v : V) (m : List (String × V))
    → find j (assign k v m) ≡ (if str_eq k j then some v else find j m)
find-assign j k v [] = refl
find-assign j k v ((i, w) ∷ m) =
    ground (arith, eq_iff k j, eq_iff i k, eq_iff i j, find-assign j k v m)

module _ {T S : Type 0} where
  -- The state in which a handler stops, if there is one.
  abbrev pub stopped : Option (T → Act S (Unit {0})) → T → S → S
  stopped none payload s = s
  stopped (some handler) payload s = (handler payload s).0

  -- After `on` the topic runs the new handler, whatever was registered for it, with its exceptions
  -- caught; every other topic is dispatched as before.
  pub dispatch-on :
      (topic t : String) (handler : T → Act S (Unit {0})) (payload : T) (r : MqttRouter T S) (s : S)
      → dispatch t payload (on topic handler r) s
        ≡ (if str_eq topic t then recover (handler payload s) (pure tt) else dispatch t payload r s)
  unfolding dispatch on
  dispatch-on topic t handler payload r s =
      let found = find-assign t topic handler r.handlers in
      elim (Bool-cases (str_eq topic t)) [
        | inl same ↦ rw (found, same)
        | inr other ↦ rw (found, other)
      ]

  -- Whatever the handler of a topic does or throws, `dispatch` returns, but for an access to a
  -- deleted object, and the state is the one in which the handler stopped; without a handler the
  -- state is unchanged.
  pub dispatch_returns :
      (topic : String) (payload : T) (r : MqttRouter T S) (s : S)
      → (((dispatch topic payload r s).1 ≡ ok tt) ⊎ ((dispatch topic payload r s).1 ≡ err dangling))
        × ((dispatch topic payload r s).0 ≡ stopped (find topic r.handlers) payload s)
  unfolding dispatch
  dispatch_returns topic payload r s =
      (returns (find topic r.handlers), stops (find topic r.handlers))
    where
      caught :
          (x : S × Result (Unit {0}))
          → ((recover x (pure tt)).1 ≡ ok tt) ⊎ ((recover x (pure tt)).1 ≡ err dangling)
      caught (w, ok tt) = inl refl
      caught (w, err json_exception) = inl refl
      caught (w, err std_exception) = inl refl
      caught (w, err dangling) = inr refl

      returns :
          (o : Option (T → Act S (Unit {0})))
          → ((dispatch_to o payload s).1 ≡ ok tt) ⊎ ((dispatch_to o payload s).1 ≡ err dangling)
      returns none = inl refl
      returns (some handler) = caught (handler payload s)

      kept : (x : S × Result (Unit {0})) → (recover x (pure tt)).0 ≡ x.0
      kept (w, ok tt) = refl
      kept (w, err json_exception) = refl
      kept (w, err std_exception) = refl
      kept (w, err dangling) = refl

      stops :
          (o : Option (T → Act S (Unit {0}))) → (dispatch_to o payload s).0 ≡ stopped o payload s
      stops none = refl
      stops (some handler) = kept (handler payload s)
