-- ===== src/Rpc/Unregistered.antt =====
-- src/services/grpc_server.cc: what follows from the state in which `start` leaves a unary call.
use iv_cloud_gateway.Base.{ap, ◌≡◌, refl, sym, ◌∙◌, List, [], ◌∷◌, ◌++◌}
use iv_cloud_gateway.Json.{Json}
use iv_cloud_gateway.Rpc.{
  World, Method, Owed, start, Step, delivered, undelivered, published, answered, Reach, here, after,
}

module _ (J : Json) {R : Type 0} (method : Method J.Value R) where
  open J use {Text}

  not_owed : (before later : List Owed) (o : Owed) → [] ≡ before ++ o ∷ later → ⊥
  not_owed [] later o e = cc
  not_owed (p ∷ before) later o e = cc

  no_step : (u v : World R Text) → u.owed ≡ [] → Step J method u v → ⊥
  no_step u v none_owed (delivered before later id r v' e _) =
      not_owed before later _ (sym none_owed ∙ e)
  no_step u v none_owed (undelivered before later id v' e _) =
      not_owed before later _ (sym none_owed ∙ e)
  no_step u v none_owed (published before later id b s v' e _) =
      not_owed before later _ (sym none_owed ∙ e)
  no_step u v none_owed (answered before later id v' e _) =
      not_owed before later _ (sym none_owed ∙ e)

  -- From the state in which `start` leaves a call of the method no other state is reachable, even
  -- by the steps that the calls could take if the loop of the completion queue called their
  -- `Proceed`.
  pub start-Reach : (v : World R Text) → Reach J method (start J method) v → v ≡ start J method
  unfolding start
  start-Reach v here = refl
  start-Reach v (after u v' h s) = absurd (no_step u v' (ap (λ w. w.owed) (start-Reach u h)) s)
