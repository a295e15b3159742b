-- ===== src/Stream/Tests.antt =====
-- The stream handler at concrete inputs.
use iv_cloud_gateway.Base.{
  List, ℕ, ◌<◌, ◌≡◌, ◌⊎◌, refl, Bool, true, false, [], ◌∷◌, ◌++◌, none, some, Result, ok, err,
  arith, pos, dangling,
}
use iv_cloud_gateway.Infra.Topics
use iv_cloud_gateway.Json.{tree_json, str, num, obj, field, end}
use iv_cloud_gateway.Proto.{
  GatewayCommand, order_update_status, trip_cancel, event_not_set, VehicleEvent, location,
}
use iv_cloud_gateway.Stream.{reading, Handler, push_to, push_command, on_write_done}
use iv_cloud_gateway.Stream.Incoming.{Gateway, proceed}
use iv_cloud_gateway.Stream.Steps.{
  settle, settle_write, start, Step, completed, pushed, Reach, here, next,
}
use iv_cloud_gateway.Stream.Tags.{Inv, start-Inv}
use iv_cloud_gateway.Stream.Live.{Step-Inv, Reach-Inv}
use iv_cloud_gateway.Stream.Delivery.{line_of}
use iv_cloud_gateway.Stream.Session.{Session, opened, goes_on, Session-line}
use iv_cloud_gateway.Stream.Races.{push_after_delete, write_after_delete}
use iv_cloud_gateway.Stream.Flow.{never_stalls}
use iv_cloud_gateway.Stream.Mailbox.{push, connect, perform}
use iv_cloud_gateway.Stream.Views.{view}
use iv_cloud_gateway.Stream.Refines.{acts_of, empty_mailbox, Reach-view}
use iv_cloud_gateway.Stream.Queue.{Completion, handler, writer, run_cq}
use iv_cloud_gateway.Stream.Runs.{AllDue, IsRun, run_cq-IsRun}
use iv_cloud_gateway.Stream.Shutdown.{shutdown_ends}
use iv_cloud_gateway.Stream.{accepting}
use iv_cloud_gateway.Stream.Order.{sent}
use iv_cloud_gateway.Stream.Races.{hung_up, let_go}
use iv_cloud_gateway.Stream.Loss.{queue_is_lost}
use iv_cloud_gateway.Stream.Takeover.{takeover}

abbrev Command : Type 0
Command = GatewayCommand ℕ

abbrev status_order : Command
status_order = order_update_status (record { vin_number = "vin" })

abbrev cancel_order : Command
cancel_order = trip_cancel (record { vin_number = "vin"; request_id = pos 7 })

abbrev begun : Gateway tree_json
begun = start

abbrev fallen_back : Result (Gateway tree_json) → Gateway tree_json
fallen_back (ok w) = w
fallen_back (err e) = begun

-- One command was pushed, then the vehicle connected, then another was pushed.
abbrev waiting : Gateway tree_json
waiting = fallen_back (push_command status_order begun)

abbrev connected : Gateway tree_json
connected = fallen_back (proceed tree_json 0 true event_not_set (settle 0 waiting))

abbrev busy : Gateway tree_json
busy = fallen_back (push_command cancel_order connected)

first : Step tree_json begun waiting
unfolding push_command start
first = pushed status_order refl

second : Step tree_json waiting connected
unfolding push_command proceed start
second = completed 0 true event_not_set (omega arith) refl

third : Step tree_json connected busy
unfolding push_command proceed start
third = pushed cancel_order refl

reached : Reach tree_json start busy
reached = next (next (next here first) second) third

first_handler :
    (h : Handler Command) × (connected.heap 0 ≡ some h) × (h.state ≡ reading) × (h.writing ≡ true)
unfolding push_command proceed start
first_handler = (record { state = reading; write_queue = []; writing = true }, refl, refl, refl)

opened_Inv : Inv connected
opened_Inv = Step-Inv tree_json second (Step-Inv tree_json first start-Inv)

active_now : connected.active ≡ some 0
unfolding push_command proceed start
active_now = refl

pushed_on : Session tree_json 0 connected (cancel_order ∷ []) busy
unfolding push_command proceed start
pushed_on = goes_on opened (pushed cancel_order refl) refl refl

Session-line_example :
    (line_of 0 busy ≡ line_of 0 connected ++ cancel_order ∷ []) × (busy.pending ≡ connected.pending)
Session-line_example = Session-line tree_json pushed_on opened_Inv active_now

-- What it says in full: the pending command was written, the other waits.
connected_line : line_of 0 connected ≡ status_order ∷ []
unfolding push_command proceed start
connected_line = refl

Reach-Inv_example : Inv busy
Reach-Inv_example = Reach-Inv tree_json reached

Reach-view_example : view busy ≡ perform (acts_of tree_json reached) (empty_mailbox tree_json)
Reach-view_example = Reach-view tree_json reached

-- What it says in full: two commands were pushed, and the vehicle connected in between.
reached_acts : acts_of tree_json reached ≡ push status_order ∷ connect 0 ∷ push cancel_order ∷ []
unfolding push_command proceed start reached first second third
reached_acts = refl

busy_handler : (h : Handler Command) × (busy.heap 0 ≡ some h) × (h.state ≡ reading)
unfolding push_command proceed start
busy_handler =
    (record { state = reading; write_queue = cancel_order ∷ []; writing = true }, refl, refl)

never_stalls_example : (0 < busy.grpc.owed_writes 0) ⊎ (busy_handler.0.write_queue ≡ [])
unfolding reached first second third
never_stalls_example =
    never_stalls tree_json 0 busy_handler.0 reached (((tt, tt), tt), tt) busy_handler.1

-- The vehicle reports where it is, and the report is passed on.
abbrev where_it_is : VehicleEvent ℕ
where_it_is = location (record { vin_number = "vin"; longitude = 1; latitude = 2 })

abbrev told : Gateway tree_json
told = fallen_back (proceed tree_json 0 true where_it_is (settle 0 busy))

fourth : Step tree_json busy told
unfolding push_command proceed start
fourth = completed 0 true where_it_is (omega arith) refl

-- One document, on its topic.
one_report :
    told.published
    ≡ (
      Topics.update_location,
      some (
          obj (
            field "vinNumber"
              (str "vin")
              (field "latitude" (num 2) (field "longitude" (num 1) end)))),
    )
      ∷ []
unfolding push_command proceed start
one_report = refl

push_after_delete_example :
    (u : Gateway tree_json) × (v : Gateway tree_json) × Step tree_json connected u
    × Step tree_json u v
    × (push_command cancel_order connected ≡ push_to (some 0) cancel_order connected)
    × (push_to (some 0) cancel_order v ≡ err dangling)
push_after_delete_example =
    push_after_delete tree_json 0 cancel_order event_not_set connected first_handler.0 opened_Inv
      first_handler.1 first_handler.2 active_now

write_after_delete_example :
    (u : Gateway tree_json) × (v : Gateway tree_json) × Step tree_json connected u
    × Step tree_json u v
    × (0 < v.grpc.owed_writes 0)
    × ((success : Bool) → on_write_done 0 success (settle_write 0 v) ≡ err dangling)
write_after_delete_example =
    write_after_delete tree_json 0 event_not_set connected first_handler.0 opened_Inv
      first_handler.1 first_handler.2 first_handler.3

busy-Inv : Inv busy
busy-Inv = Step-Inv tree_json third opened_Inv

abbrev gone : Gateway tree_json
gone = let_go tree_json 0 busy_handler.0 busy

queue_is_lost_example :
    Step tree_json busy (hung_up tree_json 0 busy_handler.0 busy)
    × Step tree_json (hung_up tree_json 0 busy_handler.0 busy) gone
    × (gone.heap 0 ≡ none)
    × (gone.pending ≡ busy.pending)
    × (sent 0 gone.grpc.calls ≡ sent 0 busy.grpc.calls)
queue_is_lost_example =
    queue_is_lost tree_json 0 busy gone busy_handler.0 busy-Inv busy_handler.1 busy_handler.2 here

waiting_handler : (k : Handler Command) × (busy.heap 1 ≡ some k) × (k.state ≡ accepting)
unfolding push_command proceed start
waiting_handler = (record { state = accepting; write_queue = []; writing = false }, refl, refl)

takeover_example :
    (v : Gateway tree_json) × Step tree_json busy v
    × (v.active ≡ some 1)
    × (line_of 1 v ≡ line_of 1 busy ++ busy.pending)
    × (v.pending ≡ [])
    × (line_of 0 v ≡ line_of 0 busy)
    × Step tree_json v (hung_up tree_json 0 busy_handler.0 v)
    × ((hung_up tree_json 0 busy_handler.0 v).active ≡ some 1)
takeover_example =
    takeover tree_json 0 1 busy_handler.0 waiting_handler.0 busy busy-Inv busy_handler.1
      busy_handler.2 waiting_handler.1 waiting_handler.2

no_late_writes : (j : ℕ) → busy.heap j ≡ none → busy.grpc.owed_writes j ≡ 0
unfolding push_command proceed start
no_late_writes j gone = ground arith

shutdown_ends_example :
    (v : Gateway tree_json) × Reach tree_json busy v
    × ((j : ℕ) → v.heap j ≡ none)
    × ((j : ℕ) → v.grpc.owed j ≡ 0)
    × ((j : ℕ) → v.grpc.owed_writes j ≡ 0)
    × (v.active ≡ none)
shutdown_ends_example = shutdown_ends tree_json busy busy-Inv no_late_writes

-- The connection is accepted, the vehicle reports nothing, and its first write completes.
abbrev completions : List (Completion ℕ)
completions =
    record { tag = handler 0; success = true; incoming = event_not_set }
    ∷ record { tag = handler 0; success = true; incoming = event_not_set }
    ∷ record { tag = writer 0; success = true; incoming = event_not_set }
    ∷ []

all_due : AllDue tree_json completions waiting
unfolding push_command proceed start run_cq
all_due = (omega arith, (omega arith, (omega arith, tt)))

run_cq-IsRun_example : IsRun tree_json completions waiting (run_cq tree_json completions waiting)
run_cq-IsRun_example =
    run_cq-IsRun tree_json completions waiting (Step-Inv tree_json first start-Inv) all_due
