-- ===== src/Http/Tests.antt =====
-- URLs and redirects at concrete inputs.
use iv_cloud_gateway.Base.{ℕ, ◌≡◌, refl, true, false, ◌==◌, List, [], ◌∷◌, some, none}
use iv_cloud_gateway.Http.{HttpResponse, Exchange, do_request}
use iv_cloud_gateway.Http.Urls.{parse_rest, parse_url, resolve_redirect}
use iv_cloud_gateway.Http.Urls.{Url}
use iv_cloud_gateway.Http.Socket.{Connection, done, partial, connection_request}
use iv_cloud_gateway.Base.Texts.{before}
use iv_cloud_gateway.Http.WellFormed.{redirect_stays}
use iv_cloud_gateway.Base.{str_eq}
use iv_cloud_gateway.Http.Answers.{first_of, steps, response_for, connection_request-response_for}
use iv_cloud_gateway.Http.Redirects.{Ends, do_request-Ends, Carries, do_request-Sends}
use iv_cloud_gateway.Base.Log.{Adds}

parsed_url :
    parse_url "https://host.org:8443/a/b?x=1#top"
    ≡ some (record { protocol = "https"; host = "host.org"; port = "8443"; path = "/a/b?x=1" })
unfolding parse_url parse_rest
parsed_url = refl

parsed_short :
    parse_url "http://host.org"
    ≡ some (record { protocol = "http"; host = "host.org"; port = "80"; path = "/" })
unfolding parse_url parse_rest
parsed_short = refl

parsed_other : parse_url "ftp://host.org/" ≡ none
unfolding parse_url parse_rest
parsed_other = refl

resolved :
    resolve_redirect
      (record { protocol = "http"; host = "host.org"; port = "8080"; path = "/a/b" })
      "c?d"
    ≡ "http://host.org:8080/a/c?d"
unfolding resolve_redirect
resolved = refl

-- A server that always sends the client on.
abbrev sends_on : List (Exchange ℕ) → Exchange ℕ → HttpResponse ℕ
sends_on log e = record {
  status_code = 302;
  body = 0;
  headers = ("Location", "/next") ∷ [];
  success = false;
  error_message = "";
}

do_request-Sends_example :
    Adds
      (Carries 0 true sends_on [] "POST" 7)
      3
      []
      (do_request 0 true sends_on 2 [] "POST" "http://host.org" 7 []).0
do_request-Sends_example = do_request-Sends 0 true sends_on 2 [] "POST" "http://host.org" 7 []

do_request-Ends_example :
    Ends 0 true sends_on 3 [] (do_request 0 true sends_on 2 [] "POST" "http://host.org" 7 [])
do_request-Ends_example = do_request-Ends 0 true sends_on 2 [] "POST" "http://host.org" 7 []

-- A host that answers, over either protocol.
abbrev answering : Connection ℕ
answering = record {
  resolve = done;
  no_handle = false;
  no_sni = none;
  connect = done;
  handshake = done;
  write = done;
  read = partial true "short read";
  reply = record { result_int = 204; fields = []; body = 5 };
}

abbrev secure : Url
secure = record { protocol = "https"; host = "host.org"; port = "443"; path = "/" }

connection_request-response_for_example :
    connection_request 0 (λ b. b == 0) secure answering
    ≡ response_for 0
        (λ b. b == 0)
        (first_of (steps (str_eq secure.protocol "https") answering))
        answering.reply
connection_request-response_for_example =
    connection_request-response_for 0 (λ b. b == 0) secure answering

redirect_stays_example :
    parse_url (resolve_redirect (record secure { port = "8443" }) (before "/" "next"))
    ≡ some (record secure { port = "8443"; path = "/next" })
unfolding parse_url parse_rest
redirect_stays_example =
    redirect_stays "https://host.org:8443" (record secure { port = "8443" }) "next" refl
      (refl, (refl, (refl, (refl, tt))))
