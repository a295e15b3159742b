-- ===== src/Stream/Queue.antt =====
-- `GrpcServer::runCQ` of src/services/grpc_server.cc, with the tags of src/services/stream_tag.h
-- and the class `StreamWriter` of src/services/vehicle_stream_handler.h.
use iv_cloud_gateway.Base.{ℕ, Bool, List, [], ◌∷◌, Result, ok, ◌>>=◌}
use iv_cloud_gateway.Json.{Json}
use iv_cloud_gateway.Proto.{VehicleEvent}
use iv_cloud_gateway.Stream.{on_write_done}
use iv_cloud_gateway.Stream.Incoming.{Gateway, proceed}
use iv_cloud_gateway.Stream.Steps.{settle, settle_write}

-- An `IStreamTag*`: a handler, or the `writer_` of one.
pub data Tag : Type 0 where
  handler writer : ℕ → Tag

-- What `Next` returns, with the message that gRPC has put into `incoming_`.
pub record Completion (D : Type 0) : Type 0 where
  pub tag : Tag
  pub success : Bool
  pub incoming : VehicleEvent D

module _ (J : Json) where
  -- The virtual function `Proceed`; that of a `StreamWriter` calls `on_write_done` of its owner.
  unfoldable pub proceed_tag : Tag → Bool → VehicleEvent J.Double → Gateway J → Result (Gateway J)
  unfolding proceed on_write_done
  proceed_tag (handler id) success ev w = proceed J id success ev w
  proceed_tag (writer id) success ev w = on_write_done id success w

  -- One operation less is in flight under a tag that is returned.
  abbrev pub returned : Tag → Gateway J → Gateway J
  returned (handler id) w = settle id w
  returned (writer id) w = settle_write id w

  abbrev pub handle : Completion J.Double → Gateway J → Result (Gateway J)
  handle c w = proceed_tag c.tag c.success c.incoming (returned c.tag w)

  -- The loop, over what `Next` returns until it returns false.
  unfoldable pub run_cq : List (Completion J.Double) → Gateway J → Result (Gateway J)
  unfolding proceed_tag
  run_cq [] w = ok w
  run_cq (c ∷ cs) w = do w' ← handle c w; run_cq cs w'
