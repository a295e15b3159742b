-- ===== src/Rpc/Tests.antt =====
-- Unary calls at concrete inputs.
use iv_cloud_gateway.Base.{◌≡◌, true, if◌then◌else◌, none, some}
use iv_cloud_gateway.Json.{tree_json}
use iv_cloud_gateway.Rpc.{start, here}
use iv_cloud_gateway.Rpc.Classes.{status_call_data}
use iv_cloud_gateway.Rpc.Lifetime.{lifetime, blocks, ended, lifetime_lem}
use iv_cloud_gateway.Rpc.Unregistered.{start-Reach}

start-Reach_example :
    start tree_json (status_call_data tree_json) ≡ start tree_json (status_call_data tree_json)
start-Reach_example =
    start-Reach tree_json (status_call_data tree_json)
      (start tree_json (status_call_data tree_json)) here

lifetime_lem_example :
    lifetime true 1 2 "0.0.0.0:50051"
    ≡ (if blocks true 2 then none else some (ended true 2 "0.0.0.0:50051"))
lifetime_lem_example = lifetime_lem true 1 2 "0.0.0.0:50051"
