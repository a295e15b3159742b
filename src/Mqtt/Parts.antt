-- ===== src/Mqtt/Parts.antt =====
-- src/transport/mqtt_client/mqtt_client.cpp: what each operation leaves of the parts of the client.
use mathlib.Core.List.{append-nil}
use iv_cloud_gateway.Base.{◌≡◌, true, false, String, [], ◌∷◌, ◌++◌, arith}
use iv_cloud_gateway.Mqtt.{
  subscribe_to, Session, MqttClient, publish, subscribe, subscribe_all, flush_topics, on_receive,
}
use iv_cloud_gateway.Mqtt.Sound.{IsSound}
use iv_cloud_gateway.Mqtt.Asking.{asked_of, tasks_of, posted}

module _ {H T : Type 0} where
  pub subscribed-pending :
      (x : String) (c : MqttClient H T)
      → (subscribe x c).pending_topics ≡ c.pending_topics ++ x ∷ []
  unfolding subscribe
  subscribed-pending x c = ground arith

  pub subscribed-topics :
      (x : String) (c : MqttClient H T) → asked_of (subscribe x c).session ≡ asked_of c.session
  unfolding subscribe
  subscribed-topics x c = ground arith

  pub subscribed-started : (x : String) (c : MqttClient H T) → (subscribe x c).started ≡ c.started
  unfolding subscribe
  subscribed-started x c = ground arith

  pub subscribed-tasks :
      (x : String) (c : MqttClient H T)
      → tasks_of (subscribe x c).session ≡ tasks_of c.session ++ posted x c.started c.session
  unfolding subscribe
  subscribed-tasks x c = ground (arith, append-nil (tasks_of c.session))

  pub posted-running :
      (x : String) (c : MqttClient H T)
      → IsSound c
      → c.started ≡ true
      → posted x c.started c.session ≡ subscribe_to x ∷ []
  posted-running x c (e, e') on = ground arith

  pub published-started :
      (x : String) (p : T) (c : MqttClient H T) → (publish x p c).0.started ≡ c.started
  unfolding publish
  published-started x p c = ground arith

  pub published-tasks :
      (x : String) (p : T) (c : MqttClient H T)
      → tasks_of (publish x p c).0.session ≡ tasks_of c.session ++ []
  unfolding publish
  published-tasks x p c = ground (arith, append-nil (tasks_of c.session))

  pub published-pending :
      (x : String) (p : T) (c : MqttClient H T)
      → (publish x p c).0.pending_topics ≡ c.pending_topics ++ []
  unfolding publish
  published-pending x p c = ground (arith, append-nil c.pending_topics)

  pub published-topics :
      (x : String) (p : T) (c : MqttClient H T)
      → asked_of (publish x p c).0.session ≡ asked_of c.session
  unfolding publish
  published-topics x p c = ground arith

  pub received-asked :
      (x : String) (p : T) (c : MqttClient H T) (s : Session T)
      → asked_of (on_receive true x p c s).session ≡ (subscribe_all c.pending_topics s).asked
  unfolding on_receive flush_topics
  received-asked x p c s = ground arith

  pub received-tasks :
      (x : String) (p : T) (c : MqttClient H T) (s : Session T)
      → tasks_of (on_receive true x p c s).session ≡ (subscribe_all c.pending_topics s).tasks
  unfolding on_receive flush_topics
  received-tasks x p c s = ground arith

  pub received-pending :
      (x : String) (p : T) (c : MqttClient H T) (s : Session T)
      → (on_receive true x p c s).pending_topics ≡ []
  unfolding on_receive flush_topics
  received-pending x p c s = ground arith

  pub failed-pending :
      (x : String) (p : T) (c : MqttClient H T) (s : Session T)
      → (on_receive false x p c s).pending_topics ≡ c.pending_topics
  unfolding on_receive
  failed-pending x p c s = ground arith

  pub failed-tasks :
      (x : String) (p : T) (c : MqttClient H T) (s : Session T)
      → tasks_of (on_receive false x p c s).session ≡ s.tasks
  unfolding on_receive
  failed-tasks x p c s = ground arith

  pub failed-asked :
      (x : String) (p : T) (c : MqttClient H T) (s : Session T)
      → asked_of (on_receive false x p c s).session ≡ s.asked
  unfolding on_receive
  failed-asked x p c s = ground arith
