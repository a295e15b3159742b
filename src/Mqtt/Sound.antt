-- ===== src/Mqtt/Sound.antt =====
-- src/transport/mqtt_client/mqtt_client.cpp: when there is a session.
use iv_cloud_gateway.Base.{
  ℕ, ◌≡◌, refl, subst, Bool, true, false, ◌&&◌, String, Option, none, some, arith,
}
use iv_cloud_gateway.Mqtt.{
  Task, flush, subscribe_to, Session, MqttClient, new_client, start, stop, publish, subscribe,
  set_message_handler, flush_topics, run_task, on_receive, Step, starts, stops, publishes,
  subscribes, handles, runs, receives, completes, Reach, here, next,
}

module _ {T : Type 0} where
  abbrev pub present : Option (Session T) → Bool
  present none = false
  present (some s) = true

module _ {H T : Type 0} where
  -- The session is there just while the client is started, and `stopped_` is then not set.
  abbrev pub IsSound : MqttClient H T → Type 0
  IsSound c = (c.started ≡ present c.session) × ((c.started && c.stopped) ≡ false)

  start-IsSound : (c : MqttClient H T) → IsSound c → IsSound (start c)
  unfolding start
  start-IsSound c (e, e') = ground arith

  stop-IsSound : (c : MqttClient H T) → IsSound c → IsSound (stop c)
  unfolding stop
  stop-IsSound c (e, e') = ground arith

  pub publish-IsSound :
      (t : String) (p : T) (c : MqttClient H T) → IsSound c → IsSound (publish t p c).0
  unfolding publish
  publish-IsSound t p c (e, e') = ground arith

  pub subscribe-IsSound : (t : String) (c : MqttClient H T) → IsSound c → IsSound (subscribe t c)
  unfolding subscribe
  subscribe-IsSound t c (e, e') = ground arith

  run_task-IsSound :
      (t : Task) (c : MqttClient H T) (s s' : Session T)
      → c.session ≡ some s
      → IsSound c
      → IsSound (run_task t c s')
  unfolding run_task flush_topics
  run_task-IsSound flush c s s' at (e, e') = ground arith
  run_task-IsSound (subscribe_to t) c s s' at (e, e') = ground arith

  on_receive-IsSound :
      (b : Bool) (t : String) (p : T) (c : MqttClient H T) (s s' : Session T)
      → c.session ≡ some s
      → IsSound c
      → IsSound (on_receive b t p c s')
  unfolding on_receive flush_topics
  on_receive-IsSound false t p c s s' at (e, e') = ground arith
  on_receive-IsSound true t p c s s' at (e, e') = ground arith

  pub Step-IsSound : {c c' : MqttClient H T} → Step c c' → IsSound c → IsSound c'
  unfolding set_message_handler
  Step-IsSound {c} (starts e) i = subst IsSound e (start-IsSound c i)
  Step-IsSound {c} (stops e) i = subst IsSound e (stop-IsSound c i)
  Step-IsSound {c} (publishes t p e) i = subst IsSound e (publish-IsSound t p c i)
  Step-IsSound {c} (subscribes t e) i = subst IsSound e (subscribe-IsSound t c i)
  Step-IsSound {c} (handles h e) i = subst IsSound e i
  Step-IsSound {c} (runs t rest s at todo e) i = subst IsSound e (run_task-IsSound t c s _ at i)
  Step-IsSound {c} (receives b t p s at due e) i =
      subst IsSound e (on_receive-IsSound b t p c s _ at i)
  Step-IsSound {c} (completes b t before after s at e f) i = subst IsSound f (ground arith)

  -- In every state that a new client reaches, in whatever order it is started, stopped and used,
  -- the session is there just while `started_` is set, and `stopped_` is then not set.
  pub Reach-IsSound :
      (broker : String) (port : ℕ) (client_id : String) {c : MqttClient H T}
      → Reach (new_client broker port client_id) c
      → IsSound c
  unfolding new_client
  Reach-IsSound broker port client_id here = (refl, refl)
  Reach-IsSound broker port client_id (next r st) =
      Step-IsSound st (Reach-IsSound broker port client_id r)
