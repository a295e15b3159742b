-- ===== src/Stream/Steps.antt =====
-- How gRPC, the vehicle and the MQTT side drive the stream handlers: `runCQ` of
-- src/services/grpc_server.cc hands each completed tag to its `Proceed`, in any order, and the
-- callbacks of src/main.cpp push commands in between.
use iv_cloud_gateway.Base.{ℕ, ◌-◌, ◌<◌, ◌≡◌, Bool, [], none, ok, update}
use iv_cloud_gateway.Json.{Json}
use iv_cloud_gateway.Proto.{GatewayCommand, VehicleEvent}
use iv_cloud_gateway.Stream.{World, new_handler, on_write_done, push_command}
use iv_cloud_gateway.Stream.Incoming.{Gateway, proceed}

-- The completion queue returns a tag: one operation less is owed to it.
module _ {C T : Type 0} where
  abbrev pub settle : ℕ → World C T → World C T
  settle id w = record w {
    grpc = record (w.grpc) { owed = update w.grpc.owed id (w.grpc.owed id - 1) };
  }

  abbrev pub settle_write : ℕ → World C T → World C T
  settle_write id w = record w {
    grpc = record (w.grpc) {
      owed_writes = update w.grpc.owed_writes id (w.grpc.owed_writes id - 1);
    };
  }

  -- No handler, no command.
  abbrev pub empty : World C T
  empty = record {
    heap = λ _. none;
    next = 0;
    active = none;
    pending = [];
    grpc = record { calls = []; owed = λ _. 0; owed_writes = λ _. 0 };
    published = [];
  }

  -- `GrpcServer::start` makes the first handler.
  unfoldable pub start : World C T
  unfolding new_handler
  start = new_handler empty

module _ (J : Json) where
  -- gRPC returns a tag only for an operation that is in flight under it.
  pub data Step (w w' : Gateway J) : Type 0 where
    completed :
        (id : ℕ) (success : Bool) (ev : VehicleEvent J.Double)
        → 0 < w.grpc.owed id
        → proceed J id success ev (settle id w) ≡ ok w'
        → Step w w'
    wrote :
        (id : ℕ) (success : Bool)
        → 0 < w.grpc.owed_writes id
        → on_write_done id success (settle_write id w) ≡ ok w'
        → Step w w'
    pushed : (c : GatewayCommand J.Double) → push_command c w ≡ ok w' → Step w w'

  pub data Reach (w : Gateway J) : Gateway J → Type 0 where
    here : Reach w w
    next : {u v : Gateway J} → Reach w u → Step u v → Reach w v
