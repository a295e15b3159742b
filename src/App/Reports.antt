-- ===== src/App/Reports.antt =====
-- A report of a vehicle, from the stream handler (src/services/vehicle_stream_handler.h) through
-- the publish function of src/main.cpp to the MQTT client.
use mathlib.Core.Option.{map}
use iv_cloud_gateway.Base.{
  ℕ, ◌≡◌, refl, ◌∙◌, ap, Bool, true, String, List, [], ◌∷◌, ◌++◌, Option, none, some, subst, inl,
  inr, Option-cases, Result, ok, arith, ◌>>=◌,
}
use iv_cloud_gateway.Json.{Json, JsonLaws}
use iv_cloud_gateway.Proto.{GatewayCommand, VehicleEvent}
use iv_cloud_gateway.Mqtt.{Session, publish}
use iv_cloud_gateway.Mqtt.Sound.{IsSound}
use iv_cloud_gateway.Stream.{reading, Handler, read}
use iv_cloud_gateway.Stream.Incoming.{Gateway, report, handle_incoming, proceed, proceed_in}
use iv_cloud_gateway.Stream.Heap.{gone_on, go_on_live}
use iv_cloud_gateway.App.Documents.{passed_on, read_report, read_message, read_report-report}
use iv_cloud_gateway.App.Startup.{Mqtt}

-- What of the second list is not yet in the first, of which it is a continuation.
abbrev news : {A : Type 0} → List A → List A → List A
news [] ys = ys
news (x ∷ xs) [] = []
news (x ∷ xs) (y ∷ ys) = news xs ys

news-append : {A : Type 0} (xs ys : List A) → news xs (xs ++ ys) ≡ ys
news-append [] ys = refl
news-append (x ∷ xs) ys = news-append xs ys

news_self : {A : Type 0} (xs : List A) → news xs xs ≡ []
news_self [] = refl
news_self (x ∷ xs) = news_self xs

-- A session in which one message more was published.
abbrev pub with_message : {T : Type 0} → String → T → Session T → Session T
with_message topic payload s = record s { published = s.published ++ (topic, payload) ∷ [] }

module _ (J : Json) where
  open J use {Text, Value, Double}

  -- The stream handlers, and the client that publishes for them.
  pub record Site : Type 0 where
    pub gateway : Gateway J
    pub mqtt : Mqtt J

  -- The publish function of main; what the callback of a report is told is only logged.
  unfoldable pub publish_all : List (String × Text) → Mqtt J → Mqtt J
  unfolding publish
  publish_all [] c = c
  publish_all ((topic, payload) ∷ more) c = publish_all more (publish topic payload c).0

  -- `Proceed` with that function as `publish_`.
  unfoldable pub proceed_published : ℕ → Bool → VehicleEvent Double → Site → Result Site
  unfolding proceed publish_all
  proceed_published id success ev t = do
    w ← proceed J id success ev t.gateway
    ok (record { gateway = w; mqtt = publish_all (news t.gateway.published w.published) t.mqtt })

  -- The handlers after a report: the handler reads on.
  abbrev reported : ℕ → Handler (GatewayCommand Double) → String → Text → Gateway J → Gateway J
  reported id h topic payload w =
      gone_on id reading (read id) h (record w { published = w.published ++ (topic, payload) ∷ [] })

  pub publish_sound :
      (topic : String) (payload : Text) (c : Mqtt J)
      → IsSound c
      → (publish topic payload c).0
        ≡ record c { session = map (with_message topic payload) c.session }
  unfolding publish
  publish_sound topic payload c (e, e') = ground arith

  module _ (id : ℕ) (ev : VehicleEvent Double) (h : Handler (GatewayCommand Double))
      (topic : String) (v : Value) (payload : Text) (t : Site) (live : t.gateway.heap id ≡ some h)
      (reads : h.state ≡ reading) (known : report J ev ≡ some (topic, v))
      (dumped : J.dump v ≡ some payload) where
    proceed-reported : proceed J id true ev t.gateway ≡ ok (reported id h topic payload t.gateway)
    unfolding proceed proceed_in handle_incoming
    proceed-reported =
        let w' = record (t.gateway) { published = t.gateway.published ++ (topic, payload) ∷ [] } in
        rw (live, proceed)
          (ap (λ s. proceed_in J s id true ev t.gateway) reads
            ∙ rw (known, dumped) (ap ok (go_on_live id reading (read id) w' h live)))

    proceed_published-reported :
        proceed_published id true ev t
        ≡ ok (record {
          gateway = reported id h topic payload t.gateway;
          mqtt = (publish topic payload t.mqtt).0;
        })
    unfolding proceed_published publish_all
    proceed_published-reported =
        rw (proceed-reported, news-append t.gateway.published ((topic, payload) ∷ [])) refl

  module _ (id : ℕ) (ev : VehicleEvent Double) (h : Handler (GatewayCommand Double)) (t : Site)
      (live : t.gateway.heap id ≡ some h) (reads : h.state ≡ reading)
      (unknown : report J ev ≡ none) where
    abbrev logged : Gateway J
    logged = gone_on id reading (read id) h t.gateway

    proceed-logged : proceed J id true ev t.gateway ≡ ok logged
    unfolding proceed proceed_in handle_incoming
    proceed-logged =
        rw (live, proceed)
          (ap (λ s. proceed_in J s id true ev t.gateway) reads
            ∙ rw unknown (ap ok (go_on_live id reading (read id) t.gateway h live)))

    proceed_published-logged :
        proceed_published id true ev t ≡ ok (record { gateway = logged; mqtt = t.mqtt })
    unfolding proceed_published publish_all
    proceed_published-logged = rw (proceed-logged, news_self t.gateway.published) refl

  -- What the session has after the messages `m`.
  abbrev pub with_messages : Option (String × Text) → Session Text → Session Text
  with_messages none s = s
  with_messages (some (topic, payload)) s = with_message topic payload s

  -- A handler that reads gets an event, the MQTT client has a session and is in a sound state, and
  -- the document of the event, if it has one, can be serialised and reads back as itself. Then the
  -- call returns, and the MQTT client has published at most one message more and is otherwise as
  -- before; whoever reads that message at its topic gets the event with all its values. There is
  -- such a message if the event is an ETA, a status, an arrival or a location, and none if it is
  -- another.
  pub report_arrives :
      (laws : JsonLaws J) (id : ℕ) (ev : VehicleEvent Double) (h : Handler (GatewayCommand Double))
      (s : Session Text) (t : Site)
      → t.gateway.heap id ≡ some h
      → h.state ≡ reading
      → t.mqtt.session ≡ some s
      → IsSound t.mqtt
      → ((topic : String) (v : Value)
          → report J ev ≡ some (topic, v)
          → (payload : Text) × (J.dump v ≡ some payload) × (J.parse payload ≡ some v))
      → (u : Site) × (m : Option (String × Text)) × (proceed_published id true ev t ≡ ok u)
        × (u.mqtt ≡ record (t.mqtt) { session = some (with_messages m s) })
        × (map (read_message J) m ≡ map ok (passed_on ev))
  report_arrives laws id ev h s t live reads on sound survives = elim (Option-cases (report J ev)) [
    | inl unknown ↦ (
      record { gateway = logged id ev h t live reads unknown; mqtt = t.mqtt },
      none,
      proceed_published-logged id ev h t live reads unknown,
      ap (λ c. record (t.mqtt) { session = c }) on,
      subst (λ r. map (λ d. read_report J d.0 d.1) r ≡ map ok (passed_on ev)) unknown
          (read_report-report J laws ev),
    )
    | inr ((topic, v), known) ↦
        let (payload, dumped, back) = survives topic v known in
        let message = publish_sound topic payload t.mqtt sound in
        let got =
          subst (λ r. map (λ d. read_report J d.0 d.1) r ≡ map ok (passed_on ev)) known
            (read_report-report J laws ev) in
        (
          record {
            gateway = reported id h topic payload t.gateway;
            mqtt = (publish topic payload t.mqtt).0;
          },
          some (topic, payload),
          proceed_published-reported id ev h topic v payload t live reads known dumped,
          message ∙ ap (λ c. record (t.mqtt) { session = map (with_message topic payload) c }) on,
          rw back got,
        )
  ]
