-- ===== src/Lib.antt =====
-- The vehicle gateway: a process between a fleet backend (MQTT, HTTP) and the software of one
-- vehicle (a gRPC stream). The development models its own logic, each part alone and the parts as
-- src/main.cpp joins them.
--
-- The parts, and how they interact:
--   * An order of the backend arrives over MQTT. `MqttRouter` (src/services/mqtt_router.h and .cc:
--     Router) runs the handler of its topic, a member of `TripOrchestrator`
--     (src/application/trip_orchestrator.h and .cc: Trip), which reads the JSON payload and runs the
--     callback of src/main.cpp (App). That builds a `GatewayCommand` (proto/vehicle_gateway.proto:
--     Proto) and calls `VehicleStreamHandler::push_command`.
--   * `VehicleStreamHandler` (src/services/vehicle_stream_handler.h and .cc: Stream) writes commands
--     to the connected vehicle, one at a time, keeps them while there is none, and publishes the
--     events of the vehicle over MQTT. `runCQ` of src/services/grpc_server.cc drives it: the steps of
--     Stream/Steps, the loop itself in Stream/Queue with the tags of src/services/stream_tag.h, and in
--     Stream/Runs. What its users may know of it is the mailbox of Stream/Mailbox, to which
--     Stream/Refines relates it.
--   * The unary calls (src/services/rpc_dispatcher.h and .cc, made by `GrpcServer::start`: Rpc)
--     would publish a request of the vehicle and answer it. gRPC puts the request into the object of
--     the call, or gives the call back without one. `start` makes the calls but does not ask gRPC for
--     a request (Rpc/Unregistered), so that none is ever served; the steps of the calls are what could
--     follow, and grant more than `runCQ` does.
--   * `AuthService` (src/services/auth_services.h and .cc: Auth) keeps the gateway's accounts at the
--     backend, over `HttpClient` (src/transport/http_client: Http), which sends requests over sockets
--     (Http/Socket) and follows redirects. Auth/Client joins the two.
--   * `MqttClient` (src/transport/mqtt_client: Mqtt) is started and stopped, and asks for topics, which
--     the broker may refuse.
--   * `GrpcServer` (src/services/grpc_server.h and .cc: Rpc/Server, Rpc/Lifetime) is started, waited
--     for, and stopped by a signal.
--   * The topics of src/infra/constants.h are in Infra/Topics. The settings of src/infra/config.h
--     come from a .env file (Infra/Dotenv) and the environment (Infra/Env).
--   * The whole way of an order is in App/EndToEnd, a message on any topic in App/AnyTopic, a run of
--     messages in App/Messages, messages and the events of the stream in any order in App/Traffic,
--     the way of a vehicle's report in App/Reports and of a zenoh sample in App/Tracking: the publish
--     function of src/main.cpp joins the gRPC side to the MQTT client. App/Documents has the documents
--     of the reports, and how a reader understands them.
--   * `main` (App/Startup, as a whole App/Main) starts the MQTT client, settles the accounts,
--     publishes the start of the vehicle, and serves until a signal comes.
--
-- How code becomes definitions. A member function is a function of the same name from the state to
-- the state. `Result` and `Act` (Base) hold what may be thrown: `json_exception`, `std_exception`,
-- and `dangling`, an access to a deleted object, which no `catch` sees. An object that is created
-- with `new` is a number, and a heap maps it to its fields until `delete this`. What the program
-- only calls is a parameter: nlohmann::json is the record `Json` with the laws `JsonLaws`, the
-- backend and `HttpClient::Post` are a function from the requests so far to an answer, which
-- Auth/Client takes from the client, and `peer` says how each operation of Boost and OpenSSL on one
-- connection ends. The opening of the credentials file is a `Result`, the file system of `from_env`
-- a function from paths to texts, and std::stod a function to an `Option`. gRPC is a log of the
-- operations it was asked for and a count of the completions it still owes; it may return these in
-- any order. Log output, `spdlog` and the text of errors that is only logged are left out.
--
-- Bounds and fuel. `create_vehicle` is recursive in the source: each call sets one of two flags, and
-- the definition is written out to the four settings that this allows (Auth/Vehicle). The rounding
-- of an int64_t to a double (Trip/Double) takes eleven rounds, since 63 bits have to become 53 and
-- one round may be one too many. The redirects of `do_request` are bounded in the source. Nothing
-- else has fuel.
--
-- Concurrency. Each call of `Proceed`, `on_write_done`, `push_command` and of a callback is one
-- step, run to its end, in any order. `push_to` is `push_command` from the point where it has read
-- `active_`, for the order of events in which a connection comes in between.
--
-- `mqtt_thread` is what the MQTT client's thread has done by the time that main publishes the
-- start; App/Main has another such function for the time until the server has ended. The signals
-- that come before main ends are a number.
--
-- Not modelled: timeouts, but as operations that fail; the order of header fields, which a std::map
-- sorts by name; the zenoh session, but for its subscriber (App/Location, App/Tracking); the
-- interruption of a function by a signal, whose handler calls what is not safe in a handler.
pub mod Base
pub mod Infra
pub mod Json
pub mod Proto
pub mod Stream
pub mod Trip
pub mod Router
pub mod App
pub mod Http
pub mod Mqtt
pub mod Auth
pub mod Rpc
