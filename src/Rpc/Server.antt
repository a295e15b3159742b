-- ===== src/Rpc/Server.antt =====
-- src/services/grpc_server.h and .cc: `GrpcServer`. Of gRPC and of std::thread there is what the
-- server asked them, and whether the server that was built has been shut down. A server is started
-- once, as in src/main.cpp.
use iv_cloud_gateway.Base.{
  Bool, true, false, String, List, [], ◌∷◌, ◌++◌, Option, none, some, if◌then◌else◌,
}

-- The classes of the calls.
pub data Handler : Type 0 where
  eta : Handler
  status : Handler
  arrive : Handler
  update_location : Handler
  trip_init : Handler
  trip_move : Handler
  vehicle_stream : Handler

pub data Ask : Type 0 where
  listening_port : String → Ask
  completion_queue : Ask
  build_and_start : Ask
  new_handler : Handler → Ask
  new_thread : Ask
  shutdown_server : Ask
  shutdown_queue : Ask
  join : Ask

pub data Running : Type 0 where
  serving : Running
  shut : Running

pub record GrpcServer : Type 0 where
  pub listen_addr : String
  pub server : Option Running
  pub has_cq : Bool
  pub joinable : Bool
  pub asked : List Ask

-- The constructor.
unfoldable pub new_server : String → GrpcServer
new_server addr = record {
  listen_addr = addr;
  server = none;
  has_cq = false;
  joinable = false;
  asked = [];
}

abbrev pub asks : List Ask → GrpcServer → GrpcServer
asks more g = record g { asked = g.asked ++ more }

-- The builder's part; `built` says whether `BuildAndStart` returns a server.
abbrev pub build : Bool → GrpcServer → GrpcServer
build built g =
    asks (listening_port g.listen_addr ∷ completion_queue ∷ build_and_start ∷ [])
      (record g { has_cq = true; server = if built then some serving else none })

abbrev pub handlers : List Ask
handlers =
    new_handler eta
    ∷ new_handler status
    ∷ new_handler arrive
    ∷ new_handler update_location
    ∷ new_handler trip_init
    ∷ new_handler trip_move
    ∷ new_handler vehicle_stream
    ∷ []

unfoldable pub start : Bool → GrpcServer → GrpcServer
start built g =
    let g' = build built g in
    if built then asks (handlers ++ new_thread ∷ []) (record g' { joinable = true }) else g'

abbrev stop_server : GrpcServer → Option Running → GrpcServer
stop_server g none = g
stop_server g (some r) = asks (shutdown_server ∷ []) (record g { server = some shut })

abbrev stop_queue : GrpcServer → GrpcServer
stop_queue g = if g.has_cq then asks (shutdown_queue ∷ []) g else g

abbrev join_thread : GrpcServer → GrpcServer
join_thread g = if g.joinable then asks (join ∷ []) (record g { joinable = false }) else g

-- Also the destructor, and the whole of main's signal handler but for a flag that nothing reads.
unfoldable pub stop : GrpcServer → GrpcServer
stop g = join_thread (stop_queue (stop_server g g.server))

-- Whether `wait` returns: `Wait` does once the server is shut down.
abbrev pub returns : Option Running → Bool
returns none = true
returns (some serving) = false
returns (some shut) = true

-- The server as `wait` leaves it, or none while it blocks.
unfoldable pub wait : GrpcServer → Option GrpcServer
wait g = if returns g.server then some g else none
