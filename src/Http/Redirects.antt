-- ===== src/Http/Redirects.antt =====
-- The redirects of one call: how many requests, what they carry, and where they end.
use iv_cloud_gateway.Base.{
  ℕ, zero, suc, ◌+◌, ◌≡◌, refl, ◌∙◌, ap, ◌⊎◌, inl, inr, Bool, String, List, [], ◌∷◌, ◌++◌, Option,
  none, some, arith, length, length-append, Option-cases,
}
use iv_cloud_gateway.Base.Log.{Adds, Adds-none, Adds-one}
use iv_cloud_gateway.Http.{
  HttpResponse, Exchange, get, Requests, invalid, is_redirect, verb_of, redirect_method,
  redirect_body, location, follow, request_once, do_request,
}
use iv_cloud_gateway.Http.Urls.{Url, parse_url, resolve_redirect}

module _ {T : Type 0} (empty : T) (follow_redirects : Bool)
    (net : List (Exchange T) → Exchange T → HttpResponse T) where
  -- The headers of the call, its method or GET, its body or none.
  abbrev pub Carries : List (String × String) → String → T → Exchange T → Type 0
  Carries headers method body e =
      (e.headers ≡ headers)
      × ((e.verb ≡ verb_of method) ⊎ (e.verb ≡ get))
      × ((e.body ≡ body) ⊎ (e.body ≡ empty))

  redirect_method-cases :
      (r : HttpResponse T) (method : String)
      → (redirect_method r method ≡ method) ⊎ (redirect_method r method ≡ "GET")
  unfolding redirect_method
  redirect_method-cases r method = ground arith

  redirect_body-cases :
      (r : HttpResponse T) (body : T)
      → (redirect_body empty follow_redirects net r body ≡ body)
        ⊎ (redirect_body empty follow_redirects net r body ≡ empty)
  unfolding redirect_body
  redirect_body-cases r body = ground arith

  follow-none :
      (url : Url) (method : String) (body : T) (r : HttpResponse T) (log : List (Exchange T))
      → follow empty follow_redirects net none url method body r log ≡ (log, r)
  unfolding follow
  follow-none url method body r log = refl

  abbrev Is : {A : Type 0} → A → A → A → Type 0
  Is a x y = (a ≡ x) ⊎ (a ≡ y)

  Is-trans : {A : Type 0} (a b x y : A) → Is a b y → Is b x y → Is a x y
  Is-trans a b x y (inl e) (inl e') = inl (e ∙ e')
  Is-trans a b x y (inl e) (inr e') = inr (e ∙ e')
  Is-trans a b x y (inr e) h = inr e

  verb-Is : (m method : String) → Is m method "GET" → Is (verb_of m) (verb_of method) get
  unfolding verb_of
  verb-Is m method (inl e) = inl (ap verb_of e)
  verb-Is m method (inr e) = inr (ap verb_of e)

  abbrev Sending : Url → String → T → List (String × String) → Exchange T
  Sending uri method body headers = record {
    url = uri;
    verb = verb_of method;
    body = body;
    headers = headers;
  }

  module _ (headers : List (String × String)) (method : String) (body : T) where
    -- A call with the method and the body of this one, or with GET and none, sends at most n.
    abbrev Few : ℕ → Requests empty follow_redirects net → Type 0
    Few n again =
        (m u : String) (b : T) (log : List (Exchange T))
        → Is m method "GET"
        → Is b body empty
        → Adds (Carries headers method body) n log (again m u b log).0

    once-Few :
        (n : ℕ) (again : Option (Requests empty follow_redirects net))
        → ((uri : Url) (m : String) (b : T) (r : HttpResponse T) (log : List (Exchange T))
            → Is m method "GET"
            → Is b body empty
            → Adds
                (Carries headers method body)
                n
                log
                (follow empty follow_redirects net again uri m b r log).0)
        → Few (suc n) (request_once empty follow_redirects net again headers)
    unfolding request_once
    once-Few n again h m u b log hm hb = elim (Option-cases (parse_url u)) [
      | inl wrong ↦
          rw (wrong, request_once) (Adds-none (Carries headers method body) (suc n) _ _ refl)
      | inr (uri, parsed) ↦
          let e = Sending uri m b headers in
          rw (parsed, request_once)
            (Adds-one (Carries headers method body) n log e _ (refl, verb-Is m method hm, hb)
              (h uri m b (net log e) (log ++ e ∷ []) hm hb))
    ]

    follow-Few :
        (n : ℕ) (again : Requests empty follow_redirects net)
        → Few n again
        → (uri : Url) (m : String) (b : T) (r : HttpResponse T) (log : List (Exchange T))
        → Is m method "GET"
        → Is b body empty
        → Adds
            (Carries headers method body)
            n
            log
            (follow empty follow_redirects net (some again) uri m b r log).0
    unfolding follow
    follow-Few n again h uri m b r log hm hb =
        elim (Option-cases (location empty follow_redirects net r)) [
          | inl stay ↦ rw (stay, follow) (Adds-none (Carries headers method body) n _ _ refl)
          | inr (to, sent_on) ↦
              rw (sent_on, follow)
                (h (redirect_method r m) (resolve_redirect uri to)
                  (redirect_body empty follow_redirects net r b) log
                  (Is-trans _ m method "GET" (redirect_method-cases r m) hm)
                  (Is-trans _ b body empty (redirect_body-cases r b) hb))
        ]

    requests-Few : (n : ℕ) → Few (suc n) (do_request empty follow_redirects net n headers)
    unfolding do_request
    requests-Few zero = once-Few 0 none λ uri m b r log hm hb.
        Adds-none (Carries headers method body) 0 _ _ (ap (λ x. x.0) (follow-none uri m b r log))
    requests-Few (suc n) =
        once-Few (suc n) (some (do_request empty follow_redirects net n headers))
          (follow-Few (suc n) (do_request empty follow_redirects net n headers) (requests-Few n))

  -- A call with n redirects sends at most n + 1 requests, whatever the answers are. Each carries
  -- the headers of the call (to whatever host it goes), its method or GET, and its body or none.
  pub do_request-Sends :
      (n : ℕ) (headers : List (String × String)) (method url : String) (body : T)
      (log : List (Exchange T))
      → Adds
          (Carries headers method body)
          (suc n)
          log
          (do_request empty follow_redirects net n headers method url body log).0
  do_request-Sends n headers method url body log =
      requests-Few headers method body n method url body log (inl refl) (inl refl)

  -- The answer sends the client nowhere, or all requests were made.
  abbrev pub Ends : ℕ → List (Exchange T) → List (Exchange T) × HttpResponse T → Type 0
  Ends n log (log', r) =
      (location empty follow_redirects net r ≡ none) ⊎ (length log' ≡ length log + n)

  invalid-stays :
      (url : String)
      → location empty follow_redirects net (invalid empty follow_redirects net url) ≡ none
  unfolding location is_redirect
  invalid-stays url = ground arith

  once-Ends :
      (n : ℕ) (again : Option (Requests empty follow_redirects net))
      (headers : List (String × String)) (m u : String) (b : T) (log : List (Exchange T))
      → ((uri : Url) (log' : List (Exchange T)) (r : HttpResponse T)
          → length log' ≡ length log + 1
          → Ends (suc n) log (follow empty follow_redirects net again uri m b r log'))
      → Ends (suc n) log (request_once empty follow_redirects net again headers m u b log)
  unfolding request_once
  once-Ends n again headers m u b log h = elim (Option-cases (parse_url u)) [
    | inl wrong ↦ rw (wrong, request_once) (inl (invalid-stays u))
    | inr (uri, parsed) ↦
        let e = Sending uri m b headers in
        rw (parsed, request_once) (h uri (log ++ e ∷ []) (net log e) (length-append log (e ∷ [])))
  ]

  Ends-later :
      (n : ℕ) (log log' : List (Exchange T)) (x : List (Exchange T) × HttpResponse T)
      → length log' ≡ length log + 1
      → Ends n log' x
      → Ends (suc n) log x
  Ends-later n log log' (l, r) e (inl stays) = inl stays
  Ends-later n log log' (l, r) e (inr all) = inr (omega arith)

  follow-Ends :
      (n : ℕ) (again : Requests empty follow_redirects net) (uri : Url) (m : String) (b : T)
      (r : HttpResponse T) (log log' : List (Exchange T))
      → length log' ≡ length log + 1
      → ((m' u' : String) (b' : T) → Ends n log' (again m' u' b' log'))
      → Ends (suc n) log (follow empty follow_redirects net (some again) uri m b r log')
  unfolding follow
  follow-Ends n again uri m b r log log' e h =
      elim (Option-cases (location empty follow_redirects net r)) [
        | inl stay ↦ rw (stay, follow) (inl stay)
        | inr (to, sent_on) ↦
            rw (sent_on, follow)
              (Ends-later n log log'
                (again (redirect_method r m) (resolve_redirect uri to)
                  (redirect_body empty follow_redirects net r b) log')
                e (h _ _ _))
      ]

  -- Redirects are followed to their end: the answer of a call is one that is no redirect to follow
  -- (or none was to be followed, or the URL was not valid), unless all n + 1 requests were made.
  pub do_request-Ends :
      (n : ℕ) (headers : List (String × String)) (method url : String) (body : T)
      (log : List (Exchange T))
      → Ends (suc n) log (do_request empty follow_redirects net n headers method url body log)
  unfolding do_request follow
  do_request-Ends zero headers m u b log = once-Ends 0 none headers m u b log λ uri log' r e. inr e
  do_request-Ends (suc n) headers m u b log =
      once-Ends (suc n) (some (do_request empty follow_redirects net n headers)) headers m u b log
        λ uri log' r e.
          follow-Ends (suc n) (do_request empty follow_redirects net n headers) uri m b r log log' e
            λ m' u' b'. do_request-Ends n headers m' u' b' log'
