-- ===== src/App/Main.antt =====
-- `main` of src/main.cpp as a whole, from the settings to its end.
use iv_cloud_gateway.Base.{
  ℕ, ◌≡◌, refl, sym, subst, Bool, true, false, String, [], Option, none, some, Result, ok, err,
  arith, if◌then◌else◌, Bool-cases, Option-cases, inl, inr,
}
use iv_cloud_gateway.Base.Log.{Adds}
use iv_cloud_gateway.Infra.Config.{Config}
use iv_cloud_gateway.Infra.Dotenv.{Environment}
use iv_cloud_gateway.Infra.Topics
use iv_cloud_gateway.Infra.Env.{from_env}
use iv_cloud_gateway.Json.{Json}
use iv_cloud_gateway.Mqtt.Sound.{IsSound, publish-IsSound}
use iv_cloud_gateway.Auth.{World, Server, new_service}
use iv_cloud_gateway.Rpc.Server.{GrpcServer}
use iv_cloud_gateway.Rpc.Lifetime.{blocks, ended, lifetime_lem}
use iv_cloud_gateway.App.Startup.{
  Mqtt, Process, connected, start_location, sign_in, publish_start, settle_accounts, finish,
}
use iv_cloud_gateway.App.Announce.{IsSignIn, sign_in-Sends, stopped_client}

module _ (J : Json) where
  open J use {Text, Value, Double}

  -- What comes of a run: an exception that nothing catches ends the process, main waits for the
  -- server, or main returns.
  pub data Outcome : Type 0 where
    terminated : Process J → Outcome
    waiting : Process J → Outcome
    returned : GrpcServer → Process J → Outcome

  abbrev over : Process J → Option (GrpcServer × Mqtt J) → Outcome
  over p none = waiting p
  over p (some (g, c)) = returned g (record p { mqtt = c })

  module _ (config : Config Double) (server : Server J) (disk : Result Bool)
      (before after : Mqtt J → Mqtt J) (built : Bool) (early signals : ℕ) where
    -- The server's part, after the accounts.
    unfoldable pub serve : Process J × Result (Unit {0}) → Outcome
    unfolding finish
    serve (p, err e) = terminated p
    serve (p, ok u) =
        let q = record p { mqtt = after p.mqtt } in
        over q (finish J built early signals config.grpc_listen q.mqtt)

    -- `before` and `after` are what the MQTT client's thread has done by the time that the accounts
    -- are settled, and from there until the server has ended.
    unfoldable pub main_with : World Text → Outcome
    unfolding connected settle_accounts serve
    main_with accounts = serve (
        settle_accounts J config server disk before
          (record { mqtt = connected J config; accounts = accounts }))

    -- What every run keeps to. main makes at most ten requests of the backend, each one of those
    -- that signing in makes. It returns only if the server did not come up or a signal came after
    -- its start, with the server at its end, and the client stopped and without a session; it waits
    -- only if a server came up and no signal came.
    abbrev pub IsRun : World Text → Outcome → Type 0
    IsRun accounts (terminated p) =
        Adds (IsSignIn J config server disk) 10 accounts.requests p.accounts.requests
    IsRun accounts (waiting p) =
        (blocks built signals ≡ true)
        × Adds (IsSignIn J config server disk) 10 accounts.requests p.accounts.requests
    IsRun accounts (returned g p) =
        (blocks built signals ≡ false)
        × (g ≡ ended built signals config.grpc_listen)
        × (p.mqtt.started ≡ false)
        × (p.mqtt.session ≡ none)
        × Adds (IsSignIn J config server disk) 10 accounts.requests p.accounts.requests

    settled-accounts :
        (p : Process J)
        → (settle_accounts J config server disk before p).0.accounts
          ≡ (sign_in J config server disk p.accounts).0
    unfolding settle_accounts publish_start
    settled-accounts p = ground arith

    -- The rest of `settle_accounts`, after signing in.
    abbrev settled_by : World Text × Result Bool → Process J → Process J × Result (Unit {0})
    settled_by (w, err e) p = (record p { accounts = w }, err e)
    settled_by (w, ok logged_in) p =
        let q : Process J = record { mqtt = before p.mqtt; accounts = w } in
        if logged_in then publish_start J config q else (q, ok tt)

    publish_start-IsSound :
        (p : Process J) → IsSound p.mqtt → IsSound (publish_start J config p).0.mqtt
    unfolding publish_start
    publish_start-IsSound p i = elim (Option-cases (J.dump (start_location J config))) [
      | inl failed ↦ rw failed i
      | inr (payload, done) ↦ rw done (publish-IsSound Topics.update_location payload p.mqtt i)
    ]

    settle_accounts-split :
        (p : Process J)
        → settle_accounts J config server disk before p
          ≡ settled_by (sign_in J config server disk p.accounts) p
    unfolding settle_accounts
    settle_accounts-split p = ground arith

    settled-IsSound :
        (p : Process J)
        → ((c : Mqtt J) → IsSound c → IsSound (before c))
        → IsSound p.mqtt
        → IsSound (settle_accounts J config server disk before p).0.mqtt
    settled-IsSound p keeps i =
        rw (settle_accounts-split p) (follows (sign_in J config server disk p.accounts))
      where
        follows : (r : World Text × Result Bool) → IsSound (settled_by r p).0.mqtt
        follows (w, err e) = i
        follows (w, ok false) = keeps p.mqtt i
        follows (w, ok true) =
            publish_start-IsSound (record { mqtt = before p.mqtt; accounts = w }) (keeps p.mqtt i)

    connected-IsSound : IsSound (connected J config)
    unfolding connected
    connected-IsSound = (refl, refl)

    serve-IsRun :
        (accounts : World Text) (r : Process J × Result (Unit {0}))
        → IsSound (after r.0.mqtt)
        → Adds (IsSignIn J config server disk) 10 accounts.requests r.0.accounts.requests
        → IsRun accounts (serve r)
    unfolding serve finish
    serve-IsRun accounts (p, err e) i few = few
    serve-IsRun accounts (p, ok u) i few = elim (Bool-cases (blocks built signals)) [
      | inl busy ↦ rw (lifetime_lem built early signals config.grpc_listen, busy) (busy, few)
      | inr free ↦
          let (idle, gone) = stopped_client (after p.mqtt) i in
          rw (lifetime_lem built early signals config.grpc_listen, free)
            (free, refl, idle, gone, few)
    ]

    pub main_with-IsRun :
        (accounts : World Text)
        → ((c : Mqtt J) → IsSound c → IsSound (before c))
        → ((c : Mqtt J) → IsSound c → IsSound (after c))
        → IsRun accounts (main_with accounts)
    unfolding main_with
    main_with-IsRun accounts keeps keeps' =
        let p : Process J = record { mqtt = connected J config; accounts = accounts } in
        let few = sign_in-Sends J config server disk accounts in
        serve-IsRun accounts (settle_accounts J config server disk before p)
          (keeps' _ (settled-IsSound p keeps connected-IsSound))
          (subst (λ a. Adds (IsSignIn J config server disk) 10 accounts.requests a.requests)
            (sym (settled-accounts p)) few)

  module _ (stod : String → Option Double) (lat lon : Double) (files : String → Option String)
      (env : Environment) where
    abbrev pub settings : Config Double
    settings = from_env stod lat lon files env

    -- `main`; `stored` is the credentials file.
    unfoldable pub main :
        Server J
        → Result Bool
        → (Mqtt J → Mqtt J)
        → (Mqtt J → Mqtt J)
        → Bool
        → ℕ
        → ℕ
        → Option Text
        → Outcome
    unfolding from_env new_service main_with
    main server disk before after built early signals stored =
        main_with settings server disk before after built early signals
          (record { auth = new_service; requests = []; file = stored })

    -- Whatever the settings are, and whatever the backend answers: provided that the thread of the
    -- MQTT client keeps the client in a sound state, every run of main is as `IsRun` says. It makes
    -- at most ten requests, each one of those of signing in. If it returns, the server did not come
    -- up or a signal came after its start, the server has ended with its thread joined, and the
    -- client is stopped and has no session. If it waits for ever, a server came up and no such
    -- signal came. Else an exception that nothing catches has ended it.
    pub main-IsRun :
        (server : Server J) (disk : Result Bool) (before after : Mqtt J → Mqtt J) (built : Bool)
        (early signals : ℕ) (stored : Option Text)
        → ((c : Mqtt J) → IsSound c → IsSound (before c))
        → ((c : Mqtt J) → IsSound c → IsSound (after c))
        → IsRun settings server disk before after built early signals
            (record { auth = new_service; requests = []; file = stored })
            (main server disk before after built early signals stored)
    unfolding main
    main-IsRun server disk before after built early signals stored =
        main_with-IsRun settings server disk before after built early signals
          (record { auth = new_service; requests = []; file = stored })
