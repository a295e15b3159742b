-- ===== src/Mqtt/Restart.antt =====
-- What a start does with the topics that are pending, and what a restart does with the others.
use iv_cloud_gateway.Base.{◌≡◌, refl, sym, subst, true, false, [], ◌∷◌, some, arith}
use iv_cloud_gateway.Mqtt.{
  flush, Session, MqttClient, start, stop, subscribe_all, flush_topics, run_task, Step, runs,
}
use iv_cloud_gateway.Mqtt.Asking.{asked_of, subscribe_all-asked}

-- The session that `start` makes.
abbrev opened : {H T : Type 0} → MqttClient H T → Session T
opened c = record {
  brokers = (c.broker, c.port);
  credentials = c.client_id;
  asked = [];
  outstanding = [];
  subscribed = [];
  published = [];
  tasks = flush ∷ [];
  receives = 1;
}

module _ {H T : Type 0} where
  abbrev running : MqttClient H T → MqttClient H T
  running c = record c { started = true; stopped = false; session = some (opened c) }

  start-running : (c : MqttClient H T) → c.started ≡ false → start c ≡ running c
  unfolding start
  start-running c idle = ground arith

  flushed :
      (c : MqttClient H T)
      → (v : MqttClient H T) × Step (running c) v
        × (asked_of v.session ≡ c.pending_topics)
        × (v.pending_topics ≡ [])
  unfolding run_task flush_topics
  flushed c =
      let s = record (opened c) { tasks = [] } in
      let v = record (running c) {
        session = some (subscribe_all c.pending_topics s);
        pending_topics = [];
      } in
      (v, runs flush [] (opened c) refl refl refl, subscribe_all-asked c.pending_topics s, refl)

  -- The first task of a client that was not started and is started asks for all topics that were
  -- pending, in their order, and then none is pending.
  pub start-subscribes :
      (c : MqttClient H T)
      → c.started ≡ false
      → (v : MqttClient H T) × Step (start c) v
        × (asked_of v.session ≡ c.pending_topics)
        × (v.pending_topics ≡ [])
  start-subscribes c idle =
      subst
        (λ u.
          (v : MqttClient H T) × Step u v
          × (asked_of v.session ≡ c.pending_topics)
          × (v.pending_topics ≡ []))
        (sym (start-running c idle)) (flushed c)

  -- A client that runs with nothing pending and is stopped and started again has asked for
  -- nothing, and has nothing pending: the topics of the first session are forgotten.
  pub restart_forgets :
      (c : MqttClient H T)
      → c.started ≡ true
      → c.stopped ≡ false
      → c.pending_topics ≡ []
      → (asked_of (start (stop c)).session ≡ []) × ((start (stop c)).pending_topics ≡ [])
  unfolding start stop
  restart_forgets c on live empty = (ground arith, ground arith)
