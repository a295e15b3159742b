-- ===== src/Mqtt.antt =====
-- src/transport/mqtt_client/mqtt_client.h and .cpp: the MQTT client's own state.
--
-- `H` is what a message handler is, and `T` a payload. Of boost::mqtt5 and the io_context there is
-- what the client asked them: topics given to `async_subscribe` and messages published with the
-- present session, tasks posted and not yet run, and the number of outstanding `async_receive`. A
-- step is one public call, one task, or one completed receive or subscription, run to its end.
pub mod Sound
pub mod Asking
pub mod Parts
pub mod Topics
pub mod Restart
mod Tests
use iv_cloud_gateway.Base.{
  ℕ, suc, ◌-◌, ◌<◌, ◌≡◌, Bool, true, false, not, ◌&&◌, ◌||◌, String, List, [], ◌∷◌, ◌++◌, Option,
  none, some, if◌then◌else◌,
}

pub data Task : Type 0 where
  flush : Task
  subscribe_to : String → Task

-- A connection to the broker, `client_`, with its `ioc_`: both are made and reset together.
-- `brokers` and `credentials` are what the client is configured with; `asked` are the topics that
-- `async_subscribe` was called with, `outstanding` those whose completion has yet to come, and
-- `subscribed` those that the broker has granted.
pub record Session (T : Type 0) : Type 0 where
  pub brokers : String × ℕ
  pub credentials : String
  pub asked : List String
  pub outstanding : List String
  pub subscribed : List String
  pub published : List (String × T)
  pub tasks : List Task
  pub receives : ℕ

pub record MqttClient (H T : Type 0) : Type 0 where
  pub broker : String
  pub port : ℕ
  pub client_id : String
  pub started : Bool
  pub stopped : Bool
  pub session : Option (Session T)
  pub cb : Option H
  pub pending_topics : List String
  -- The calls of `cb_`.
  pub handled : List (H × String × T)

module _ {T : Type 0} where
  -- `arm_receive` on a session that is there.
  abbrev pub arm_receive : Session T → Session T
  arm_receive s = record s { receives = suc s.receives }

  abbrev pub do_subscribe : String → Session T → Session T
  do_subscribe topic s = record s {
    asked = s.asked ++ topic ∷ [];
    outstanding = s.outstanding ++ topic ∷ [];
  }

  -- The completion of `async_subscribe`, which only logs how it ended: a topic that the broker has
  -- refused is not asked for again.
  unfoldable pub on_subscribed : Bool → String → Session T → Session T
  on_subscribed true topic s = record s { subscribed = s.subscribed ++ topic ∷ [] }
  on_subscribed false topic s = s

  -- The loop over `pending_topics_`.
  abbrev pub subscribe_all : List String → Session T → Session T
  subscribe_all [] s = s
  subscribe_all (t ∷ ts) s = subscribe_all ts (do_subscribe t s)

module _ {H T : Type 0} where
  unfoldable pub new_client : String → ℕ → String → MqttClient H T
  new_client broker port client_id = record {
    broker = broker;
    port = port;
    client_id = client_id;
    started = false;
    stopped = false;
    session = none;
    cb = none;
    pending_topics = [];
    handled = [];
  }

  unfoldable pub start : MqttClient H T → MqttClient H T
  start c = if c.started then c else record c {
    started = true;
    stopped = false;
    session = some (
        arm_receive (record {
          brokers = (c.broker, c.port);
          credentials = c.client_id;
          asked = [];
          outstanding = [];
          subscribed = [];
          published = [];
          tasks = flush ∷ [];
          receives = 0;
        }));
  }

  -- The first exchange returns early on a client that is not started, the second on one that is
  -- already stopped.
  unfoldable pub stop : MqttClient H T → MqttClient H T
  stop c =
      if not c.started
      then c
      else if c.stopped
      then record c { started = false }
      else record c { started = false; stopped = true; session = none }

  -- `publish`: what `publish_cb` is told at once, if it is; else the client publishes.
  abbrev publish_on :
      String → T → MqttClient H T → Option (Session T) → MqttClient H T × Option Bool
  publish_on topic payload c none = (c, some false)
  publish_on topic payload c (some s) =
      if c.started
      then (
        record c { session = some (record s { published = s.published ++ (topic, payload) ∷ [] }) },
        none,
      )
      else (c, some false)

  unfoldable pub publish : String → T → MqttClient H T → MqttClient H T × Option Bool
  publish topic payload c = publish_on topic payload c c.session

  abbrev post_on : Task → MqttClient H T → Option (Session T) → MqttClient H T
  post_on t c none = c
  post_on t c (some s) =
      if c.started then record c { session = some (record s { tasks = s.tasks ++ t ∷ [] }) } else c

  unfoldable pub subscribe : String → MqttClient H T → MqttClient H T
  subscribe topic c =
      post_on (subscribe_to topic) (record c { pending_topics = c.pending_topics ++ topic ∷ [] })
        c.session

  unfoldable pub set_message_handler : H → MqttClient H T → MqttClient H T
  set_message_handler h c = record c { cb = some h }

  unfoldable pub flush_topics : MqttClient H T → Session T → MqttClient H T
  flush_topics c s = record c {
    session = some (subscribe_all c.pending_topics s);
    pending_topics = [];
  }

  unfoldable pub run_task : Task → MqttClient H T → Session T → MqttClient H T
  unfolding flush_topics
  run_task flush c s = flush_topics c s
  run_task (subscribe_to t) c s = record c { session = some (do_subscribe t s) }

  abbrev rearm : MqttClient H T → Option (Session T) → MqttClient H T
  rearm c none = c
  rearm c (some s) = if c.stopped then c else record c { session = some (arm_receive s) }

  abbrev call_back : String → T → MqttClient H T → Option H → MqttClient H T
  call_back topic payload c none = c
  call_back topic payload c (some h) = record c { handled = c.handled ++ (h, topic, payload) ∷ [] }

  -- The completion of `async_receive`: an error is `false`.
  unfoldable pub on_receive : Bool → String → T → MqttClient H T → Session T → MqttClient H T
  unfolding flush_topics
  on_receive false topic payload c s = rearm (record c { session = some s }) (some s)
  on_receive true topic payload c s =
      let c' = flush_topics c s in
      let c'' = call_back topic payload c' c'.cb in rearm c'' c''.session

  pub data Step (c c' : MqttClient H T) : Type 0 where
    starts : start c ≡ c' → Step c c'
    stops : stop c ≡ c' → Step c c'
    publishes : (topic : String) (payload : T) → (publish topic payload c).0 ≡ c' → Step c c'
    subscribes : (topic : String) → subscribe topic c ≡ c' → Step c c'
    handles : (h : H) → set_message_handler h c ≡ c' → Step c c'
    runs :
        (t : Task) (rest : List Task) (s : Session T)
        → c.session ≡ some s
        → s.tasks ≡ t ∷ rest
        → run_task t c (record s { tasks = rest }) ≡ c'
        → Step c c'
    receives :
        (success : Bool) (topic : String) (payload : T) (s : Session T)
        → c.session ≡ some s
        → 0 < s.receives
        → on_receive success topic payload c (record s { receives = s.receives - 1 }) ≡ c'
        → Step c c'
    completes :
        (success : Bool) (topic : String) (before after : List String) (s : Session T)
        → c.session ≡ some s
        → s.outstanding ≡ before ++ topic ∷ after
        → record c {
          session = some (on_subscribed success topic (record s { outstanding = before ++ after }));
        }
          ≡ c'
        → Step c c'

  pub data Reach (c : MqttClient H T) : MqttClient H T → Type 0 where
    here : Reach c c
    next : {u v : MqttClient H T} → Reach c u → Step u v → Reach c v
