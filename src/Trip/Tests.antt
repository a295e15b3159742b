-- ===== src/Trip/Tests.antt =====
-- Ids at concrete inputs.
use iv_cloud_gateway.Base.{ℕ, ◌+◌, ◌^◌, ◌≢◌, refl, some, arith, pos}
use iv_cloud_gateway.Trip.{State, new_orchestrator, store_request_id, active_request_id}
use iv_cloud_gateway.Trip.Ids.{active_request_id_lossy}

abbrev idle : State ℕ ℕ
idle = record { orchestrator = new_orchestrator "vin"; world = 0 }

large_id_is_rounded :
    active_request_id (store_request_id (pos (2 ^ 53 + 1)) idle).orchestrator
    ≢ some (pos (2 ^ 53 + 1))
large_id_is_rounded = active_request_id_lossy (2 ^ 53 + 1) idle (omega arith) (omega arith) refl
