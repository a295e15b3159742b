-- ===== src/Auth/Client.antt =====
-- The accounts over the HTTP client of src/transport/http_client: `AuthService` and `HttpClient`
-- joined as in src/main.cpp.
use Prim.Native.String.{◌++◌ as str_append}
use iv_cloud_gateway.Base.{
  ℕ, zero, suc, ◌+◌, ◌*◌, ◌≤◌, length, length-append, ◌≡◌, refl, ap, Bool, true, false, String,
  List, [], ◌∷◌, ◌++◌, Option, none, some, Result, ok, arith,
}
use iv_cloud_gateway.Infra.Config.{Config}
use iv_cloud_gateway.Json.{Json}
use iv_cloud_gateway.Http.{
  HttpResponse, Exchange, post, HttpOptions, post_to, do_request, request_once, follow, location,
  is_redirect, verb_of,
}
use iv_cloud_gateway.Http.Urls.{Url, parse_url}
use iv_cloud_gateway.Http.Socket.{
  done, end_of_stream, Connection, Peer, message, impl_do_request, connection_request, received,
  after_read, send_and_receive, over_tls, over_tcp,
}
use iv_cloud_gateway.Http.Redirects.{do_request-Sends}
use iv_cloud_gateway.Auth.Vehicle.{create_vehicle}
use iv_cloud_gateway.Auth.Requests.{create_vehicle-Sends}
use iv_cloud_gateway.Auth.{Request, AuthService, World, Server, verify_body, verify_code}

module _ (J : Json) (options : HttpOptions) (peer : Peer J.empty J.is_empty) where
  open J use {Text, empty, is_empty}

  abbrev pub net : List (Exchange Text) → Exchange Text → HttpResponse Text
  net = impl_do_request empty is_empty peer

  -- `HttpClient::Post`.
  abbrev pub sent : Request Text → List (Exchange Text) → List (Exchange Text) × HttpResponse Text
  sent r log =
      post_to empty options.follow_redirects net options.max_redirects r.headers r.url r.body log

  -- What the client has sent for the requests of the service.
  abbrev pub replayed : List (Request Text) → List (Exchange Text) → List (Exchange Text)
  replayed [] log = log
  replayed (r ∷ rs) log = replayed rs (sent r log).0

  unfoldable pub http_server : Server J
  http_server past r = (sent r (replayed past [])).1

  -- The host accepts the request and closes the connection without an answer. The parser has then
  -- read nothing, and what it releases is a default-constructed response, whose result is 200.
  abbrev pub Drops : Connection Text → Type 0
  Drops c =
      (c.resolve ≡ done)
      × (c.no_handle ≡ false)
      × (c.no_sni ≡ none)
      × (c.connect ≡ done)
      × (c.handshake ≡ done)
      × (c.write ≡ done)
      × (c.read ≡ end_of_stream)
      × (c.reply.result_int ≡ 200)

  dropped-status :
      (url : Url) (c : Connection Text)
      → Drops c
      → (connection_request empty is_empty url c).status_code ≡ 200
  unfolding connection_request over_tls over_tcp send_and_receive after_read received
  dropped-status url c (e0, e1, e2, e3, e4, e5, e6, e7) = ground arith

  stays :
      (r : HttpResponse Text)
      → r.status_code ≡ 200
      → location empty options.follow_redirects net r ≡ none
  unfolding location is_redirect
  stays r e = ground arith

  request_once-stays :
      (again : Option
        (String → String → Text → List (Exchange Text) → List (Exchange Text) × HttpResponse Text))
      (headers : List (String × String)) (method url : String) (body : Text)
      (log : List (Exchange Text)) (uri : Url)
      → parse_url url ≡ some uri
      → (net log
          (record { url = uri; verb = verb_of method; body = body; headers = headers })).status_code
        ≡ 200
      → (request_once empty options.follow_redirects net again headers method url body
          log).1.status_code
        ≡ 200
  unfolding request_once follow
  request_once-stays none headers method url body log uri parsed fine =
      rw (parsed, request_once) fine
  request_once-stays (some again) headers method url body log uri parsed fine =
      let e : Exchange Text = record {
        url = uri;
        verb = verb_of method;
        body = body;
        headers = headers;
      } in
      rw (parsed, request_once, stays (net log e) fine, follow) fine

  do_request-stays :
      (n : ℕ) (headers : List (String × String)) (method url : String) (body : Text)
      (log : List (Exchange Text)) (uri : Url)
      → parse_url url ≡ some uri
      → (let e : Exchange Text = record {
        url = uri;
        verb = verb_of method;
        body = body;
        headers = headers;
      } in
          (net log e).status_code ≡ 200)
      → (do_request empty options.follow_redirects net n headers method url body log).1.status_code
        ≡ 200
  unfolding do_request
  do_request-stays zero headers m u b log uri parsed fine =
      request_once-stays none headers m u b log uri parsed fine
  do_request-stays (suc n) headers m u b log uri parsed fine =
      request_once-stays (some (do_request empty options.follow_redirects net n headers)) headers m
        u b log uri parsed fine

  module _ (config : Config J.Double) (disk : Result Bool) where
    -- The request of `verify_code`.
    abbrev pub verification : AuthService → Text → Request Text
    verification a b = record {
      url = str_append config.base_url "/api/auth/verify-code";
      headers = a.json_headers;
      body = b;
    }

    -- As it is sent to a host.
    abbrev pub verifying : Url → AuthService → Text → Exchange Text
    verifying uri a b = record { url = uri; verb = post; body = b; headers = a.json_headers }

    accepted :
        (w : World Text) (b : Text)
        → J.dump (verify_body J config http_server disk) ≡ some b
        → (http_server w.requests (verification w.auth b)).status_code ≡ 200
        → (verify_code J config http_server disk w).1 ≡ ok true
    unfolding verify_code
    accepted w b dumped fine = ground arith

    -- If the document of the verification can be serialised and its URL is valid, a host that
    -- accepts the request and closes the connection without an answer counts as one that has
    -- verified the account: `verify_code` returns true.
    pub verify_code_dropped :
        (w : World Text) (b : Text) (uri : Url)
        → J.dump (verify_body J config http_server disk) ≡ some b
        → parse_url (str_append config.base_url "/api/auth/verify-code") ≡ some uri
        → (let e = verifying uri w.auth b in
            Drops (peer (replayed w.requests []) uri (message empty is_empty e)))
        → (verify_code J config http_server disk w).1 ≡ ok true
    unfolding http_server impl_do_request verb_of
    verify_code_dropped w b uri dumped parsed drops = accepted w b dumped (
        do_request-stays options.max_redirects w.auth.json_headers "POST"
          (str_append config.base_url "/api/auth/verify-code") b (replayed w.requests []) uri parsed
          (dropped-status uri _ drops))

  replayed-append :
      (rs ss : List (Request Text)) (log : List (Exchange Text))
      → replayed (rs ++ ss) log ≡ replayed ss (replayed rs log)
  replayed-append [] ss log = refl
  replayed-append (r ∷ rs) ss log = replayed-append rs ss (sent r log).0

  sent-length :
      (r : Request Text) (log : List (Exchange Text))
      → length (sent r log).0 ≤ length log + suc options.max_redirects
  sent-length r log =
      let (ext, e, carried, few) =
        do_request-Sends empty options.follow_redirects net options.max_redirects r.headers "POST"
          r.url r.body log in
      omega (arith, ap length e, length-append log ext)

  replayed-length :
      (rs : List (Request Text)) (log : List (Exchange Text))
      → length (replayed rs log) ≤ length log + length rs * suc options.max_redirects
  replayed-length [] log = omega arith
  replayed-length (r ∷ rs) log = grind (arith, sent-length r log, replayed-length rs (sent r log).0)

  module _ (config : Config J.Double) (disk : Result Bool) where
    -- On the wire `create_vehicle()` sends at most five times as many requests as one call of the
    -- client may, redirects included.
    pub create_vehicle-exchanges :
        (w : World Text)
        → let w' = (create_vehicle J config http_server disk false false w).0 in
          length (replayed w'.requests [])
          ≤ length (replayed w.requests []) + 5 * suc options.max_redirects
    create_vehicle-exchanges w =
        let (ext, e, registering, few) = create_vehicle-Sends J config http_server disk w in
        rw (e, replayed-append w.requests ext [])
          (grind (arith, replayed-length ext (replayed w.requests [])))
