-- ===== src/Rpc/Lifetime.antt =====
-- src/services/grpc_server.cc and the end of src/main.cpp: what a server goes through.
use mathlib.Core.List.{append_assoc, append-nil}
use iv_cloud_gateway.Base.{
  ℕ, zero, suc, ◌≡◌, refl, sym, ◌∙◌, ap, Bool, true, false, String, List, [], ◌∷◌, ◌++◌, Option,
  none, some, if◌then◌else◌,
}
use iv_cloud_gateway.Rpc.Server.{
  Ask, listening_port, completion_queue, build_and_start, new_thread, shutdown_server,
  shutdown_queue, join, shut, GrpcServer, new_server, handlers, start, stop, wait,
}

-- `n` runs of main's signal handler, each of which stops the server.
abbrev pub signalled : ℕ → GrpcServer → GrpcServer
signalled zero g = g
signalled (suc n) g = signalled n (stop g)

abbrev destroyed : Option GrpcServer → Option GrpcServer
destroyed none = none
destroyed (some g) = some (stop g)

-- main from the server's construction to its destruction, or none while it blocks; `early` signals
-- come after the handler is installed and before `start`, and `n` after it and before `wait` is
-- done.
unfoldable pub lifetime : Bool → ℕ → ℕ → String → Option GrpcServer
unfolding start stop wait new_server
lifetime built early n addr =
    destroyed (wait (signalled n (start built (signalled early (new_server addr)))))

abbrev pub repeated : ℕ → List Ask → List Ask
repeated zero block = []
repeated (suc n) block = block ++ repeated n block

-- What a server asks for on its way.
abbrev pub asked_for : Bool → ℕ → String → List Ask
asked_for built n addr =
    listening_port addr
    ∷ completion_queue
    ∷ build_and_start
    ∷ (if built
        then handlers
          ++ new_thread
            ∷ shutdown_server
            ∷ shutdown_queue
            ∷ join
            ∷ repeated n (shutdown_server ∷ shutdown_queue ∷ [])
        else repeated (suc n) (shutdown_queue ∷ []))

-- A server that is stopped.
abbrev closed : String → List Ask → GrpcServer
closed addr log = record {
  listen_addr = addr;
  server = some shut;
  has_cq = true;
  joinable = false;
  asked = log;
}

-- One that has not come up.
abbrev unbuilt : String → List Ask → GrpcServer
unbuilt addr log = record {
  listen_addr = addr;
  server = none;
  has_cq = true;
  joinable = false;
  asked = log;
}

signalled-closed :
    (n : ℕ) (addr : String) (log : List Ask)
    → signalled n (closed addr log)
      ≡ closed addr (log ++ repeated n (shutdown_server ∷ shutdown_queue ∷ []))
unfolding stop
signalled-closed zero addr log = ap (closed addr) (sym (append-nil log))
signalled-closed (suc n) addr log =
    let more = repeated n (shutdown_server ∷ shutdown_queue ∷ []) in
    signalled-closed n addr ((log ++ shutdown_server ∷ []) ++ shutdown_queue ∷ [])
    ∙ ap (closed addr) (
        append_assoc (log ++ shutdown_server ∷ []) (shutdown_queue ∷ []) more
        ∙ append_assoc log (shutdown_server ∷ []) (shutdown_queue ∷ more))

signalled-unbuilt :
    (n : ℕ) (addr : String) (log : List Ask)
    → signalled n (unbuilt addr log) ≡ unbuilt addr (log ++ repeated n (shutdown_queue ∷ []))
unfolding stop
signalled-unbuilt zero addr log = ap (unbuilt addr) (sym (append-nil log))
signalled-unbuilt (suc n) addr log =
    signalled-unbuilt n addr (log ++ shutdown_queue ∷ [])
    ∙ ap (unbuilt addr) (append_assoc log (shutdown_queue ∷ []) (repeated n (shutdown_queue ∷ [])))

stop-signalled : (n : ℕ) (g : GrpcServer) → stop (signalled n g) ≡ signalled (suc n) g
stop-signalled zero g = refl
stop-signalled (suc n) g = stop-signalled n (stop g)

-- The server once it is destroyed.
abbrev pub ended : Bool → ℕ → String → GrpcServer
ended built n addr =
    let log = asked_for built n addr in if built then closed addr log else unbuilt addr log

abbrev first_log : String → List Ask
first_log addr =
    listening_port addr
    ∷ completion_queue
    ∷ build_and_start
    ∷ (handlers ++ new_thread ∷ shutdown_server ∷ shutdown_queue ∷ join ∷ [])

waits-closed :
    (n : ℕ) (addr : String)
    → destroyed (wait (signalled n (closed addr (first_log addr)))) ≡ some (ended true (suc n) addr)
unfolding wait
waits-closed n addr =
    let c = closed addr (first_log addr) in
    rw (signalled-closed n addr (first_log addr)) refl
    ∙ ap some (
        ap stop (sym (signalled-closed n addr (first_log addr)))
        ∙ stop-signalled n c
        ∙ signalled-closed (suc n) addr (first_log addr))

-- Whether main waits for ever.
abbrev pub blocks : Bool → ℕ → Bool
blocks true zero = true
blocks true (suc n) = false
blocks false n = false

waits-unbuilt :
    (n : ℕ) (addr : String) (log : List Ask)
    → destroyed (wait (signalled n (unbuilt addr log)))
      ≡ some (unbuilt addr (log ++ repeated (suc n) (shutdown_queue ∷ [])))
unfolding wait
waits-unbuilt n addr log =
    rw (signalled-unbuilt n addr log) refl
    ∙ ap some (
        ap stop (sym (signalled-unbuilt n addr log))
        ∙ stop-signalled n (unbuilt addr log)
        ∙ signalled-unbuilt (suc n) addr log)

-- A signal that comes before there is a server is lost.
signalled-new : (early : ℕ) (addr : String) → signalled early (new_server addr) ≡ new_server addr
unfolding stop new_server
signalled-new zero addr = refl
signalled-new (suc n) addr = signalled-new n addr

started_lem :
    (built : Bool) (n : ℕ) (addr : String)
    → destroyed (wait (signalled n (start built (new_server addr))))
      ≡ (if blocks built n then none else some (ended built n addr))
unfolding start stop wait new_server
started_lem false n addr =
    waits-unbuilt n addr (listening_port addr ∷ completion_queue ∷ build_and_start ∷ [])
started_lem true zero addr = refl
started_lem true (suc n) addr = waits-closed n addr

-- main blocks in `wait` just while a server was built and no signal came after `start`: those
-- before it change nothing. Otherwise it ends with the server's thread joined, exactly once if
-- there is one, and with everything asked for in order: the handlers only of a server that was
-- built, and each signal shuts down again what is there.
pub lifetime_lem :
    (built : Bool) (early n : ℕ) (addr : String)
    → lifetime built early n addr ≡ (if blocks built n then none else some (ended built n addr))
unfolding lifetime
lifetime_lem built early n addr =
    ap (λ g. destroyed (wait (signalled n (start built g)))) (signalled-new early addr)
    ∙ started_lem built n addr
