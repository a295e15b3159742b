-- ===== src/Http.antt =====
-- src/transport/http_client/http_client.h and .cpp: responses, and the redirects that
-- `HttpClient::do_request` follows.
--
-- `net` stands for `impl::do_request`, which sends one request over a socket (Socket): the answer to
-- it, given those that were sent before it, oldest first.
pub mod Urls
pub mod Socket
pub mod Answers
pub mod SameServer
pub mod WellFormed
pub mod Redirects
mod Tests
use Prim.Native.String.{◌++◌ as str_append}
use iv_cloud_gateway.Base.{
  ℕ, zero, suc, Bool, true, false, ◌&&◌, ◌||◌, String, List, [], ◌∷◌, ◌++◌, Option, none, some,
  str_eq, ◌==◌, if◌then◌else◌,
}
use iv_cloud_gateway.Json.{find}
use Urls.{Url, parse_url, resolve_redirect}

pub record HttpResponse (T : Type 0) : Type 0 where
  pub status_code : ℕ
  pub body : T
  pub headers : List (String × String)
  pub success : Bool
  pub error_message : String

-- `timeout` is in seconds.
pub record HttpOptions : Type 0 where
  pub timeout : ℕ
  pub max_redirects : ℕ
  pub follow_redirects : Bool
  pub restrict_redirect_to_same_host : Bool

abbrev pub default_options : HttpOptions
default_options = record {
  timeout = 30;
  max_redirects = 5;
  follow_redirects = true;
  restrict_redirect_to_same_host = false;
}

pub data Verb : Type 0 where
  get post put patch delete head : Verb

-- What is sent.
pub record Exchange (T : Type 0) : Type 0 where
  pub url : Url
  pub verb : Verb
  pub body : T
  pub headers : List (String × String)

unfoldable pub is_redirect : {T : Type 0} → HttpResponse T → Bool
is_redirect r =
    r.status_code == 301 || r.status_code == 302 || r.status_code == 307 || r.status_code == 308

-- The loop after `find` compares as `find` does.
abbrev pub or_again : Option String → Option String → Option String
or_again (some v) w = some v
or_again none w = w

unfoldable pub get_headers : {T : Type 0} → String → HttpResponse T → Option String
get_headers name r = or_again (find name r.headers) (find name r.headers)

unfoldable pub verb_of : String → Verb
verb_of method =
    if str_eq method "POST"
    then post
    else if str_eq method "PUT"
    then put
    else if str_eq method "PATCH"
    then patch
    else if str_eq method "DELETE"
    then delete
    else if str_eq method "HEAD"
    then head
    else get

abbrev pub preserves : {T : Type 0} → HttpResponse T → Bool
preserves r = r.status_code == 307 || r.status_code == 308

unfoldable pub redirect_method : {T : Type 0} → HttpResponse T → String → String
redirect_method r method =
    if preserves r
    then method
    else if str_eq method "POST" || str_eq method "PUT" || str_eq method "PATCH"
    then "GET"
    else method

module _ {T : Type 0} (empty : T) (follow_redirects : Bool)
    (net : List (Exchange T) → Exchange T → HttpResponse T) where
  abbrev pub Log : Type 0
  Log = List (Exchange T)

  unfoldable pub redirect_body : HttpResponse T → T → T
  redirect_body r body = if preserves r then body else empty

  abbrev pub invalid : String → HttpResponse T
  invalid url = record {
    status_code = 0;
    body = empty;
    headers = [];
    success = false;
    error_message = str_append "Invalid URL: " url;
  }

  -- Where a response sends the client, if it does.
  unfoldable pub location : HttpResponse T → Option String
  unfolding is_redirect get_headers
  location r =
      if follow_redirects && is_redirect r
      then or_again (get_headers "Location" r) (get_headers "location" r)
      else none

  -- A call of `do_request` as a function of the method, the URL and the body.
  abbrev pub Requests : Type 0
  Requests = String → String → T → Log → Log × HttpResponse T

  unfoldable pub follow :
      Option Requests → Url → String → T → HttpResponse T → Log → Log × HttpResponse T
  unfolding redirect_method redirect_body location
  follow none url method body r log = (log, r)
  follow (some again) url method body r log = elim (location r) [
    | none ↦ (log, r)
    | some to ↦
        again (redirect_method r method) (resolve_redirect url to) (redirect_body r body) log
  ]

  -- The body of `do_request`: `again` is its own call, if redirects remain.
  unfoldable pub request_once : Option Requests → List (String × String) → Requests
  unfolding follow verb_of
  request_once again headers method url body log = elim (parse_url url) [
    | none ↦ (log, invalid url)
    | some uri ↦
        let e : Exchange T = record {
          url = uri;
          verb = verb_of method;
          body = body;
          headers = headers;
        } in
        follow again uri method body (net log e) (log ++ e ∷ [])
  ]

  unfoldable pub do_request : ℕ → List (String × String) → Requests
  unfolding request_once
  do_request zero headers = request_once none headers
  do_request (suc remaining) headers = request_once (some (do_request remaining headers)) headers

  module _ (max_redirects : ℕ) (headers : List (String × String)) (url : String) where
    abbrev pub get_from : Log → Log × HttpResponse T
    get_from = do_request max_redirects headers "GET" url empty

    abbrev pub post_to : T → Log → Log × HttpResponse T
    post_to body = do_request max_redirects headers "POST" url body

    abbrev pub put_to : T → Log → Log × HttpResponse T
    put_to body = do_request max_redirects headers "PUT" url body

    abbrev pub patch_at : T → Log → Log × HttpResponse T
    patch_at body = do_request max_redirects headers "PATCH" url body

    abbrev pub delete_at : Log → Log × HttpResponse T
    delete_at = do_request max_redirects headers "DELETE" url empty

    abbrev pub head_of : Log → Log × HttpResponse T
    head_of = do_request max_redirects headers "HEAD" url empty
