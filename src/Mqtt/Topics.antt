-- ===== src/Mqtt/Topics.antt =====
-- src/transport/mqtt_client/mqtt_client.cpp: what becomes of the topics that are subscribed.
use iv_cloud_gateway.Base.{
  ℕ, ◌-◌, ◌≡◌, refl, sym, ◌∙◌, ap, subst, ◌⊎◌, inl, inr, Bool, true, false, String, List, [], ◌∷◌,
  ◌++◌, none, some, arith, Bool-cases,
}
use iv_cloud_gateway.Mqtt.{
  Task, flush, subscribe_to, Session, MqttClient, new_client, start, stop, publish, subscribe,
  set_message_handler, flush_topics, run_task, on_receive, Step, starts, stops, publishes,
  subscribes, handles, runs, receives, completes, on_subscribed, Reach,
}
use iv_cloud_gateway.Mqtt.Sound.{IsSound, Step-IsSound, Reach-IsSound, subscribe-IsSound}
use iv_cloud_gateway.Mqtt.Asking.{
  asked_of, tasks_of, subscribe_all-asked, Among, Among-left, Among-right, Posted, Posted-longer,
  Posted-last, Asked, flush-Asked, posted, Asked-same,
}
use iv_cloud_gateway.Mqtt.Parts.{
  subscribed-pending, subscribed-topics, subscribed-started, subscribed-tasks, posted-running,
  published-started, published-tasks, published-pending, published-topics, received-asked,
  received-tasks, received-pending, failed-pending, failed-tasks, failed-asked,
}

module _ {H T : Type 0} where
  -- While the client is not started, a topic that is pending; else one that a task will ask the
  -- broker for, or that it has been asked for.
  abbrev pub Kept : String → MqttClient H T → Type 0
  Kept t c =
      ((c.started ≡ false) × Among t c.pending_topics)
      ⊎ Asked t c.pending_topics (tasks_of c.session) (asked_of c.session)

  Kept-longer :
      (t : String) (c c' : MqttClient H T) (xs : List String) (us : List Task)
      → c'.started ≡ c.started
      → c'.pending_topics ≡ c.pending_topics ++ xs
      → tasks_of c'.session ≡ tasks_of c.session ++ us
      → asked_of c'.session ≡ asked_of c.session
      → Kept t c
      → Kept t c'
  Kept-longer t c c' xs us e0 e e' e'' (inl (off, m)) =
      inl (e0 ∙ off, rw e (Among-left t c.pending_topics xs m))
  Kept-longer t c c' xs us e0 e e' e'' (inr (inl p)) =
      inr (inl (rw (e, e') (Posted-longer t c.pending_topics xs (tasks_of c.session) us p)))
  Kept-longer t c c' xs us e0 e e' e'' (inr (inr m)) = inr (inr (rw e'' m))

  -- With a session, the client is started.
  opened :
      (t : String) (c : MqttClient H T) (s : Session T)
      → c.session ≡ some s
      → IsSound c
      → Kept t c
      → Asked t c.pending_topics s.tasks s.asked
  opened t c s at (e, e') (inl (off, m)) = absurd (ground arith)
  opened t c s at (e, e') (inr k) =
      subst (λ o. Asked t c.pending_topics (tasks_of o) (asked_of o)) at k

  idle-session : (c : MqttClient H T) → IsSound c → c.started ≡ false → c.session ≡ none
  idle-session c (e, e') idle = ground arith

  running-same : (c : MqttClient H T) → c.started ≡ true → start c ≡ c
  unfolding start
  running-same c on = ground arith

  start-Kept : (t : String) (c : MqttClient H T) → IsSound c → Kept t c → Kept t (start c)
  unfolding start
  start-Kept t c i k = elim (Bool-cases c.started) [
    | inl on ↦ subst (Kept t) (sym (running-same c on)) k
    | inr idle ↦ rw idle (elim k [
      | inl (off, m) ↦ inr (inl (inl m))
      | inr (inl p) ↦
          absurd (subst (λ o. Posted t c.pending_topics (tasks_of o)) (idle-session c i idle) p)
      | inr (inr m) ↦ absurd (subst (λ o. Among t (asked_of o)) (idle-session c i idle) m)
    ])
  ]

  stopped-same : (c : MqttClient H T) → (stop c).stopped ≡ false → stop c ≡ c
  unfolding stop
  stopped-same c e = ground arith

  run_task-Kept :
      (t : String) (x : Task) (rest : List Task) (c : MqttClient H T) (s : Session T)
      → s.tasks ≡ x ∷ rest
      → Asked t c.pending_topics s.tasks s.asked
      → Kept t (run_task x c (record s { tasks = rest }))
  unfolding run_task flush_topics
  run_task-Kept t flush rest c s todo (inl p) =
      let s' = record s { tasks = rest } in
      let ps = c.pending_topics in
      elim (subst (Posted t ps) todo p) [
        | inl m ↦ inr (inr (rw (subscribe_all-asked ps s') (Among-right t s.asked ps m)))
        | inr q ↦ inr (flush-Asked t ps s' (inl q))
      ]
  run_task-Kept t flush rest c s todo (inr m) =
      inr (flush-Asked t c.pending_topics (record s { tasks = rest }) (inr m))
  run_task-Kept t (subscribe_to x) rest c s todo (inl p) =
      elim (subst (Posted t c.pending_topics) todo p) [
        | inl e ↦ inr (inr (Among-right t s.asked (x ∷ []) (inl e)))
        | inr q ↦ inr (inl q)
      ]
  run_task-Kept t (subscribe_to x) rest c s todo (inr m) =
      inr (inr (Among-left t s.asked (x ∷ []) m))

  on_receive-Kept :
      (t : String) (b : Bool) (x : String) (p : T) (c : MqttClient H T) (s : Session T)
      → Asked t c.pending_topics s.tasks s.asked
      → Kept t (on_receive b x p c s)
  on_receive-Kept t false x p c s k = inr (
      Asked-same t (sym (failed-pending x p c s)) (sym (failed-tasks x p c s))
        (sym (failed-asked x p c s)) k)
  on_receive-Kept t true x p c s k = inr (
      Asked-same t (sym (received-pending x p c s)) (sym (received-tasks x p c s))
        (sym (received-asked x p c s)) (flush-Asked t c.pending_topics s k))

  Step-Kept :
      {c c' : MqttClient H T} (t : String)
      → Step c c'
      → IsSound c
      → c'.stopped ≡ false
      → Kept t c
      → Kept t c'
  unfolding set_message_handler on_subscribed
  Step-Kept {c} t (starts e) i on k = subst (Kept t) e (start-Kept t c i k)
  Step-Kept {c} t (stops e) i on k =
      subst (Kept t) (sym (stopped-same c (ap (λ x. x.stopped) e ∙ on)) ∙ e) k
  Step-Kept {c} t (publishes x p e) i on k = subst (Kept t) e (
      Kept-longer t c (publish x p c).0 [] [] (published-started x p c) (published-pending x p c)
        (published-tasks x p c) (published-topics x p c) k)
  Step-Kept {c} t (subscribes x e) i on k = subst (Kept t) e (
      Kept-longer t c (subscribe x c) (x ∷ []) (posted x c.started c.session)
        (subscribed-started x c) (subscribed-pending x c) (subscribed-tasks x c)
        (subscribed-topics x c) k)
  Step-Kept {c} t (handles h e) i on k = subst (Kept t) e k
  Step-Kept {c} t (runs x rest s at todo e) i on k =
      subst (Kept t) e (run_task-Kept t x rest c s todo (opened t c s at i k))
  Step-Kept {c} t (receives b x p s at due e) i on k =
      subst (Kept t) e
        (on_receive-Kept t b x p c (record s { receives = s.receives - 1 }) (opened t c s at i k))
  Step-Kept {c} t (completes true x before after s at due e) i on k =
      subst (Kept t) e (inr (opened t c s at i k))
  Step-Kept {c} t (completes false x before after s at due e) i on k =
      subst (Kept t) e (inr (opened t c s at i k))

  -- Steps after which the client has not been stopped.
  pub data Uptime (c : MqttClient H T) : MqttClient H T → Type 0 where
    begun : Uptime c c
    goes_on : {u v : MqttClient H T} → Uptime c u → Step u v → v.stopped ≡ false → Uptime c v

  Uptime-IsSound : {c v : MqttClient H T} → Uptime c v → IsSound c → IsSound v
  Uptime-IsSound begun i = i
  Uptime-IsSound (goes_on u st on) i = Step-IsSound st (Uptime-IsSound u i)

  pub Uptime-Kept :
      {c v : MqttClient H T} (t : String) → Uptime c v → IsSound c → Kept t c → Kept t v
  Uptime-Kept t begun i k = k
  Uptime-Kept t (goes_on u st on) i k = Step-Kept t st (Uptime-IsSound u i) on (Uptime-Kept t u i k)

  subscribed-Kept : (t : String) (c : MqttClient H T) → IsSound c → Kept t (subscribe t c)
  subscribed-Kept t c i = elim (Bool-cases c.started) [
    | inl on ↦
        let more =
          subscribed-tasks t c ∙ ap (λ l. tasks_of c.session ++ l) (posted-running t c i on) in
        inr (
          inl (
            subst (Posted t (subscribe t c).pending_topics) (sym more)
              (Posted-last t (subscribe t c).pending_topics (tasks_of c.session))))
    | inr idle ↦ inl (
      subscribed-started t c ∙ idle,
      subst (Among t) (sym (subscribed-pending t c))
          (Among-right t c.pending_topics (t ∷ []) (inl refl)),
    )
  ]

  -- A topic is given to `subscribe`, before or after the client was started. Then after any steps
  -- during which the client is not stopped, if the client is not started the topic is pending; and
  -- if it is, `async_subscribe` has been called with the topic on the present connection, or a task
  -- is posted that will call it: one for this topic, or one that flushes the pending topics, among
  -- which it is.
  pub subscribe-Kept :
      {c v : MqttClient H T} (t broker : String) (port : ℕ) (client_id : String)
      → Reach (new_client broker port client_id) c
      → Uptime (subscribe t c) v
      → Kept t v
  subscribe-Kept {c} t broker port client_id r u =
      let i = Reach-IsSound broker port client_id r in
      Uptime-Kept t u (subscribe-IsSound t c i) (subscribed-Kept t c i)
