-- ===== src/Http/Socket.antt =====
-- src/transport/http_client/http_client.cpp: `impl::do_request` and `impl::send_and_receive`, which
-- send one request over a socket.
--
-- `peer` stands for Boost.Asio, Boost.Beast, OpenSSL and the host behind them: how each operation
-- on one connection ends, given the requests sent before. Time is not modelled: an operation that
-- exceeds the timeout fails.
use Prim.Native.String.{◌++◌ as str_append}
use iv_cloud_gateway.Base.{
  ℕ, Bool, false, ◌&&◌, String, List, [], ◌∷◌, Option, none, some, str_eq, ltb, leb, if◌then◌else◌,
}
use iv_cloud_gateway.Router.{assign}
use iv_cloud_gateway.Http.{HttpResponse, Exchange, Verb}
use iv_cloud_gateway.Http.Urls.{Url}

-- An operation is done, sets its error code, or throws.
pub data Outcome : Type 0 where
  done : Outcome
  failed : String → Outcome
  thrown : String → Outcome

-- How `http::read` ends; `partial` says whether the parser was done.
pub data Reading : Type 0 where
  complete end_of_stream eof : Reading
  partial : Bool → String → Reading
  broken : String → Reading
  read_thrown : String → Reading

-- What `parser.release()` holds after the read.
pub record Reply (T : Type 0) : Type 0 where
  pub result_int : ℕ
  pub fields : List (String × String)
  pub body : T

-- `no_handle` and `no_sni` are the null handle of OpenSSL, and its refusal of the host name.
pub record Connection (T : Type 0) : Type 0 where
  pub resolve : Outcome
  pub no_handle : Bool
  pub no_sni : Option String
  pub connect : Outcome
  pub handshake : Outcome
  pub write : Outcome
  pub read : Reading
  pub reply : Reply T

-- The request as Beast is asked for it: `fields` are the calls of `set` in their order. The headers
-- of a call come in the order in which they were put into their map.
pub record Wire (T : Type 0) : Type 0 where
  pub verb : Verb
  pub target : String
  pub fields : List (String × String)
  pub payload : Option T

-- A response that is returned, or an exception on its way to the `catch`.
pub data Tried (T : Type 0) : Type 0 where
  returned : HttpResponse T → Tried T
  threw : String → Tried T

abbrev pub and_then : {T : Type 0} → Outcome → (String → HttpResponse T) → Tried T → Tried T
and_then done response rest = rest
and_then (failed e) response rest = returned (response e)
and_then (thrown e) response rest = threw e

module _ {T : Type 0} (empty : T) (is_empty : T → Bool) where
  -- `response` with its error message.
  abbrev pub failure : String → String → HttpResponse T
  failure what e = record {
    status_code = 0;
    body = empty;
    headers = [];
    success = false;
    error_message = str_append what e;
  }

  -- The message that `send_and_receive` builds. `payload` is set with its length.
  unfoldable pub message : Exchange T → Wire T
  message e = record {
    verb = e.verb;
    target = e.url.path;
    fields =
        ("Host", e.url.host)
        ∷ ("User-Agent", "VehicleGateway/2.0")
        ∷ ("Connection", "close")
        ∷ e.headers;
    payload = if is_empty e.body then none else some e.body;
  }

  -- The loop over the fields of the reply: the last of equal names stays.
  abbrev collect : List (String × String) → List (String × String) → List (String × String)
  collect [] m = m
  collect ((k, v) ∷ fs) m = collect fs (assign k v m)

  unfoldable pub received : Reply T → HttpResponse T
  received r = record {
    status_code = r.result_int;
    body = r.body;
    headers = collect r.fields [];
    success = leb 200 r.result_int && ltb r.result_int 300;
    error_message = "";
  }

  unfoldable pub after_read : Reading → Reply T → Tried T
  unfolding received
  after_read complete r = returned (received r)
  after_read end_of_stream r = returned (received r)
  after_read eof r = returned (received r)
  after_read (partial finished e) r =
      returned (if finished then received r else failure "read failed: " e)
  after_read (broken e) r = returned (failure "read failed: " e)
  after_read (read_thrown e) r = threw e

  unfoldable pub send_and_receive : Connection T → Tried T
  unfolding after_read
  send_and_receive c = and_then c.write (failure "write failed: ") (after_read c.read c.reply)

  abbrev pub sni_set : Option String → Tried T → Tried T
  sni_set none rest = rest
  sni_set (some e) rest = returned (failure "SNI setup failed: " e)

  -- The branch of https.
  unfoldable pub over_tls : Connection T → Tried T
  unfolding send_and_receive
  over_tls c =
      if c.no_handle
      then returned (failure "Failed to initialize OpenSSL stream" "")
      else sni_set c.no_sni (
          and_then c.connect (failure "Connecting failed: ")
            (and_then c.handshake (failure "SSL handshake failed: ") (send_and_receive c)))

  unfoldable pub over_tcp : Connection T → Tried T
  unfolding send_and_receive
  over_tcp c = and_then c.connect (failure "Connection failed: ") (send_and_receive c)

  abbrev pub caught : Tried T → HttpResponse T
  caught (returned r) = r
  caught (threw e) = failure "Exception: " e

  unfoldable pub connection_request : Url → Connection T → HttpResponse T
  unfolding over_tls over_tcp
  connection_request url c = caught (
      and_then c.resolve (failure "DNS resolution failed: ")
        (if str_eq url.protocol "https" then over_tls c else over_tcp c))

  abbrev pub Peer : Type 0
  Peer = List (Exchange T) → Url → Wire T → Connection T

  -- `impl::do_request`: the parameter `net` of the client.
  unfoldable pub impl_do_request : Peer → List (Exchange T) → Exchange T → HttpResponse T
  unfolding connection_request message
  impl_do_request peer log e = connection_request e.url (peer log e.url (message e))
