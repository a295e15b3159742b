-- ===== src/Http/Answers.antt =====
-- What one request comes to, on every path through the socket code.
use Prim.Native.String.{◌++◌ as str_append}
use iv_cloud_gateway.Base.{
  ◌≡◌, refl, Bool, true, false, ◌&&◌, String, List, [], ◌∷◌, Option, none, some, str_eq, ltb, leb,
  if◌then◌else◌,
}
use iv_cloud_gateway.Http.{HttpResponse}
use iv_cloud_gateway.Http.Urls.{Url}
use iv_cloud_gateway.Http.Socket.{
  Outcome, done, failed, thrown, Reading, complete, end_of_stream, eof, partial, broken,
  read_thrown, Reply, Connection, Tried, returned, and_then, received, after_read, send_and_receive,
  over_tls, over_tcp, caught, connection_request, sni_set, failure,
}

-- What is wrong with one step of a request, in the words of the error message.
abbrev trouble : String → Outcome → Option String
trouble what done = none
trouble what (failed e) = some (str_append what e)
trouble what (thrown e) = some (str_append "Exception: " e)

-- A read is good also when the host closes the connection, or when the parser was done.
abbrev reading_trouble : Reading → Option String
reading_trouble complete = none
reading_trouble end_of_stream = none
reading_trouble eof = none
reading_trouble (partial true e) = none
reading_trouble (partial false e) = some (str_append "read failed: " e)
reading_trouble (broken e) = some (str_append "read failed: " e)
reading_trouble (read_thrown e) = some (str_append "Exception: " e)

abbrev handle_trouble : Bool → Option String
handle_trouble false = none
handle_trouble true = some (str_append "Failed to initialize OpenSSL stream" "")

abbrev sni_trouble : Option String → Option String
sni_trouble none = none
sni_trouble (some e) = some (str_append "SNI setup failed: " e)

abbrev pub first_of : List (Option String) → Option String
first_of [] = none
first_of (none ∷ more) = first_of more
first_of (some e ∷ more) = some e

module _ {T : Type 0} where
  abbrev exchange_steps : Connection T → List (Option String)
  exchange_steps c = trouble "write failed: " c.write ∷ reading_trouble c.read ∷ []

  -- The specification: the steps of a request, in their order, each with what is wrong with it.
  abbrev pub steps : Bool → Connection T → List (Option String)
  steps true c =
      trouble "DNS resolution failed: " c.resolve
      ∷ handle_trouble c.no_handle
      ∷ sni_trouble c.no_sni
      ∷ trouble "Connecting failed: " c.connect
      ∷ trouble "SSL handshake failed: " c.handshake
      ∷ exchange_steps c
  steps false c =
      trouble "DNS resolution failed: " c.resolve
      ∷ trouble "Connection failed: " c.connect
      ∷ exchange_steps c

module _ {T : Type 0} (empty : T) (is_empty : T → Bool) where
  -- The reply of the host, or the failure of the first step with which something was wrong.
  abbrev pub response_for : Option String → Reply T → HttpResponse T
  response_for none r = record {
    status_code = r.result_int;
    body = r.body;
    headers = (received empty is_empty r).headers;
    success = leb 200 r.result_int && ltb r.result_int 300;
    error_message = "";
  }
  response_for (some e) r = record {
    status_code = 0;
    body = empty;
    headers = [];
    success = false;
    error_message = e;
  }

  abbrev Comes : Tried T → Connection T → List (Option String) → Type 0
  Comes t c ss = caught empty is_empty t ≡ response_for (first_of ss) c.reply

  and_then-Comes :
      (c : Connection T) (o : Outcome) (what : String) (rest : Tried T) (ss : List (Option String))
      → Comes rest c ss
      → Comes (and_then o (failure empty is_empty what) rest) c (trouble what o ∷ ss)
  and_then-Comes c done what rest ss h = h
  and_then-Comes c (failed e) what rest ss h = refl
  and_then-Comes c (thrown e) what rest ss h = refl

  after_read-Comes :
      (c : Connection T) (m : Reading)
      → Comes (after_read empty is_empty m c.reply) c (reading_trouble m ∷ [])
  unfolding after_read received
  after_read-Comes c complete = refl
  after_read-Comes c end_of_stream = refl
  after_read-Comes c eof = refl
  after_read-Comes c (partial true e) = refl
  after_read-Comes c (partial false e) = refl
  after_read-Comes c (broken e) = refl
  after_read-Comes c (read_thrown e) = refl

  send-Comes : (c : Connection T) → Comes (send_and_receive empty is_empty c) c (exchange_steps c)
  unfolding send_and_receive
  send-Comes c = and_then-Comes c c.write _ _ _ (after_read-Comes c c.read)

  with_handle-Comes :
      (c : Connection T) (b : Bool) (s : Option String) (rest : Tried T) (ss : List (Option String))
      → Comes rest c ss
      → Comes
          (if b
            then returned (failure empty is_empty "Failed to initialize OpenSSL stream" "")
            else sni_set empty is_empty s rest)
          c
          (handle_trouble b ∷ sni_trouble s ∷ ss)
  with_handle-Comes c true s rest ss h = refl
  with_handle-Comes c false (some e) rest ss h = refl
  with_handle-Comes c false none rest ss h = h

  protocol-Comes :
      (https : Bool) (c : Connection T)
      → Comes
          (and_then c.resolve
            (failure empty is_empty "DNS resolution failed: ")
            (if https then over_tls empty is_empty c else over_tcp empty is_empty c))
          c
          (steps https c)
  unfolding over_tls over_tcp
  protocol-Comes true c = and_then-Comes c c.resolve _ _ _ (
      with_handle-Comes c c.no_handle c.no_sni _ _
        (and_then-Comes c c.connect _ _ _ (and_then-Comes c c.handshake _ _ _ (send-Comes c))))
  protocol-Comes false c =
      and_then-Comes c c.resolve _ _ _ (and_then-Comes c c.connect _ _ _ (send-Comes c))

  -- A request returns the reply of the host if nothing is wrong with any of its steps: the host is
  -- resolved, over https the handle of OpenSSL is there and takes the host's name, the host is
  -- connected to, over https the handshake is done, the request is written, and the reply is read
  -- to its end, or until the host closes the connection, or until the parser is done. Otherwise it
  -- returns a response without success, with status 0, no headers, no body and the message of the
  -- first step with which something was wrong.
  pub connection_request-response_for :
      (url : Url) (c : Connection T)
      → connection_request empty is_empty url c
        ≡ response_for (first_of (steps (str_eq url.protocol "https") c)) c.reply
  unfolding connection_request
  connection_request-response_for url c = protocol-Comes (str_eq url.protocol "https") c
