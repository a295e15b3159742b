-- ===== src/Rpc.antt =====
-- src/services/rpc_dispatcher.h and .cc, and `GrpcServer::start` of grpc_server.cc: the unary calls.
--
-- A call object has an identity, the address that gRPC hands back as a tag. `owed` lists what is
-- outstanding: a request that gRPC may deliver, a publication whose callback has yet to run, a
-- `Finish` whose event has yet to come.
pub mod Classes
pub mod Unregistered
pub mod Server
pub mod Lifetime
mod Tests
use Prim.Native.String.{◌++◌ as str_append}
use iv_cloud_gateway.Base.{
  pos, ℕ, suc, ◌≡◌, Bool, true, false, not, String, List, [], ◌∷◌, ◌++◌, Option, none, some, Result,
  ok, err, dangling, update, ◌>>=◌, if◌then◌else◌,
}
use iv_cloud_gateway.Infra.Topics
use iv_cloud_gateway.Json.{Json, or_throw}
use iv_cloud_gateway.Proto.{
  Ack, EtaRequest, StatusRequest, ArriveRequest, UpdateVehicleLocationRequest, TripInitRequest,
  TripMoveRequest,
}

pub data State : Type 0 where
  create : State
  process : State
  finish : State

pub data Owed : Type 0 where
  request : ℕ → Owed
  callback : ℕ → Owed
  finished : ℕ → Owed

pub data Status : Type 0 where
  status_ok : Status
  internal : String → Status

-- `received` is `request_`, into which gRPC puts the request.
pub record CallData (R : Type 0) : Type 0 where
  pub state : State
  pub received : R
  pub response : Ack

pub record World (R T : Type 0) : Type 0 where
  pub heap : ℕ → Option (CallData R)
  pub next : ℕ
  pub owed : List Owed
  pub published : List (String × T)
  pub answers : List (ℕ × Ack × Status)

-- The methods of the service that the classes name.
pub data RpcMethod : Type 0 where
  send_eta send_status send_arrive update_vehicle_location trip_init trip_move : RpcMethod

-- A class derived from `CallDataBase`: the gRPC method that `register_rpc` requests, and the other
-- virtual functions but `clone`, which is `new_call` below. `build_payload` is here without `dump`.
pub record Method (V : Type 0) (R : Type 0) : Type 0 where
  pub register_rpc : RpcMethod
  pub mqtt_topic : String
  pub build_payload : R → V
  pub set_response : Bool → String → Ack → Ack
  pub finish_rpc : Bool → Ack → Status
  -- What `request_` holds until a request comes.
  pub unset : R

abbrev pub fresh : {R : Type 0} → R → CallData R
fresh unset = record {
  state = create;
  received = unset;
  response = record { success = false; message = "" };
}

module _ {R T : Type 0} where
  abbrev pub owes : Owed → World R T → World R T
  owes o w = record w { owed = o ∷ w.owed }

  abbrev pub store : ℕ → CallData R → World R T → World R T
  store id c w = record w { heap = update w.heap id (some c) }

  -- `clone()`, and the constructors, with what `request_` holds at first.
  unfoldable pub new_call : R → World R T → ℕ × World R T
  new_call unset w =
      (w.next, record w { heap = update w.heap w.next (some (fresh unset)); next = suc w.next })

  -- `Proceed` in the state CREATE.
  unfoldable pub register : ℕ → CallData R → World R T → World R T
  register id c w = owes (request id) (store id (record c { state = process }) w)

  unfoldable pub clone_proceed : R → World R T → World R T
  unfolding new_call register
  clone_proceed unset w = let (id, w') = new_call unset w in register id (fresh unset) w'

  -- gRPC puts a request into the object of call `id`.
  unfoldable pub receive : ℕ → R → World R T → World R T
  receive id r w = elim (w.heap id) [ none ↦ w | some c ↦ store id (record c { received = r }) w ]

module _ (J : Json) {R : Type 0} (method : Method J.Value R) where
  open J use {Text}

  -- `Proceed` in the state PROCESS.
  unfoldable pub proceed_process : ℕ → CallData R → World R Text → Result (World R Text)
  unfolding clone_proceed
  proceed_process id c w =
      let w' = clone_proceed method.unset w in
      do
        payload ← or_throw (J.dump (method.build_payload c.received))
        ok (
            owes (callback id) (record (store id (record c { state = finish }) w') {
              published = w'.published ++ (method.mqtt_topic, payload) ∷ [];
            }))

  unfoldable pub proceed_in : State → ℕ → CallData R → World R Text → Result (World R Text)
  unfolding register proceed_process
  proceed_in create id c w = ok (register id c w)
  proceed_in process id c w = proceed_process id c w
  proceed_in finish id c w = ok (record w { heap = update w.heap id none })

  -- `Proceed`, which does not hear how the operation ended.
  unfoldable pub proceed : ℕ → World R Text → Result (World R Text)
  unfolding proceed_in
  proceed id w = elim (w.heap id) [ none ↦ err dangling | some c ↦ proceed_in c.state id c w ]

  -- What the callback of `publish_` hands to `set_response`.
  abbrev pub answer : Bool → String → Ack → Ack
  answer success e response =
      if success
      then method.set_response true "ok" response
      else method.set_response false (str_append "mqtt publish failed: " e) response

  -- The callback of `publish_`.
  unfoldable pub on_published : ℕ → Bool → String → World R Text → Result (World R Text)
  on_published id success e w = elim (w.heap id) [
    | none ↦ err dangling
    | some c ↦
        let response = answer success e c.response in
        let w' = store id (record c { response = response }) w in
        let status = method.finish_rpc success response in
        ok (owes (finished id) (record w' { answers = w'.answers ++ (id, response, status) ∷ [] }))
  ]

  -- `w` with one thing less to come.
  abbrev pub settle : List Owed → World R Text → World R Text
  settle rest w = record w { owed = rest }

  -- What gRPC and the MQTT client could do, each once for what it owes, if the loop of the
  -- completion queue called `Proceed` of the calls: `runCQ` calls only that of an `IStreamTag`,
  -- which a call is not, so the program does less than this. A request that was asked for comes
  -- back without a message when the server shuts down.
  pub data Step (w : World R Text) : World R Text → Type 0 where
    delivered :
        (before after : List Owed) (id : ℕ) (r : R) (v : World R Text)
        → w.owed ≡ before ++ request id ∷ after
        → proceed id (receive id r (settle (before ++ after) w)) ≡ ok v
        → Step w v
    undelivered :
        (before after : List Owed) (id : ℕ) (v : World R Text)
        → w.owed ≡ before ++ request id ∷ after
        → proceed id (settle (before ++ after) w) ≡ ok v
        → Step w v
    published :
        (before after : List Owed) (id : ℕ) (success : Bool) (e : String) (v : World R Text)
        → w.owed ≡ before ++ callback id ∷ after
        → on_published id success e (settle (before ++ after) w) ≡ ok v
        → Step w v
    answered :
        (before after : List Owed) (id : ℕ) (v : World R Text)
        → w.owed ≡ before ++ finished id ∷ after
        → proceed id (settle (before ++ after) w) ≡ ok v
        → Step w v

  pub data Reach (w : World R Text) : World R Text → Type 0 where
    here : Reach w w
    after : (u v : World R Text) → Reach w u → Step u v → Reach w v

  abbrev pub empty : World R Text
  empty = record { heap = λ _. none; next = 0; owed = []; published = []; answers = [] }

  -- `new EtaCallData(...)` and its like in `GrpcServer::start`.
  unfoldable pub start : World R Text
  unfolding new_call
  start = (new_call method.unset empty).1
