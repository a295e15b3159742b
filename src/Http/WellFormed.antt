-- ===== src/Http/WellFormed.antt =====
-- src/transport/http_client/http_client.cpp: what `parse_url` makes of a URL and of a redirect.
use mathlib.Core.Option.{some-injective}
use iv_cloud_gateway.Base.{
  ◌≡◌, refl, subst, ◌⊎◌, inl, inr, Bool, true, false, not, ◌||◌, String, Option, none, some, str_eq,
  if◌then◌else◌, Bool-cases,
}
use iv_cloud_gateway.Base.Texts.{is_none, is_digit, run, AllCodes, before, run-taken}
use iv_cloud_gateway.Http.Urls.{
  Url, is_host, is_path, after, query_of, ends, default_port, port_of, with_query, parse_rest,
  parse_url, resolve_redirect,
}
use iv_cloud_gateway.Http.SameServer.{IsUrl, resolve_redirect-path}

digits-IsDigit :
    (s : String) (o : Option String)
    → AllCodes is_digit
        (elim o as (λ (_ : Option String). String × String) [
          | none ↦ ("", s)
          | some t ↦
              let (digits, rest) = run is_digit t in
              if is_none digits then ("", s) else (digits, rest)
        ]).0
digits-IsDigit s none = tt
digits-IsDigit s (some t) = elim (Bool-cases (is_none (run is_digit t).0)) [
  | inl e ↦ rw e tt
  | inr e ↦ rw e (run-taken is_digit t)
]

port_of-IsDigit : (s : String) → AllCodes is_digit (port_of s).0
port_of-IsDigit s = digits-IsDigit s (after ":" s)

default_port-IsPort :
    (protocol : String)
    → (is_none (default_port protocol) ≡ false) × AllCodes is_digit (default_port protocol)
default_port-IsPort protocol = elim (Bool-cases (str_eq protocol "https")) [
  | inl e ↦ rw e (refl, (refl, (refl, (refl, tt))))
  | inr e ↦ rw e (refl, (refl, (refl, tt)))
]

-- The port that a URL has, or the default.
port-IsPort :
    (protocol port : String)
    → AllCodes is_digit port
    → (is_none (if is_none port then default_port protocol else port) ≡ false)
      × AllCodes is_digit (if is_none port then default_port protocol else port)
port-IsPort protocol port k = elim (Bool-cases (is_none port)) [
  | inl e ↦ rw e (default_port-IsPort protocol)
  | inr e ↦ rw e (e, k)
]

or-false : (a b : Bool) → (a || b) ≡ false → a ≡ false
or-false false b e = refl
or-false true b e = cc

none-some : {A : Type 0} {B : Type 0} (x : A) → none ≡ some x → B
none-some x e = cc

with_query-IsUrl :
    (protocol host port path : String) (q : String × String) (u : Url)
    → (protocol ≡ "http") ⊎ (protocol ≡ "https")
    → AllCodes is_host host
    → AllCodes is_digit port
    → with_query protocol host port path q ≡ some u
    → IsUrl u
with_query-IsUrl protocol host port path (query, rest) u p a k e =
    elim (Bool-cases (is_none host || not (ends rest))) [
      | inl bad ↦ none-some u (rw bad at e)
      | inr fine ↦
          subst IsUrl (some-injective _ u (rw fine at e))
            (p, (or-false (is_none host) (not (ends rest)) fine, a), port-IsPort protocol port k)
    ]

parse_rest-IsUrl :
    (protocol s : String) (u : Url)
    → (protocol ≡ "http") ⊎ (protocol ≡ "https")
    → parse_rest protocol s ≡ some u
    → IsUrl u
unfolding parse_rest
parse_rest-IsUrl protocol s u p e =
    let (host, s1) = run is_host s in
    let (port, s2) = port_of s1 in
    let (path, s3) = run is_path s2 in
    with_query-IsUrl protocol host port path (query_of s3) u p (run-taken is_host s)
      (port_of-IsDigit s1) e

-- What `parse_url` makes has the protocol http or https, a host and a port: the host has no ':',
-- '/', '?' or '#', and the port is of digits.
pub parse_url-IsUrl : (s : String) (u : Url) → parse_url s ≡ some u → IsUrl u
unfolding parse_url
parse_url-IsUrl s u e = go (after "https://" s) (after "http://" s) e
  where
    go :
        (o o' : Option String)
        → elim o as (λ (_ : Option String). Option Url) [
          | some t ↦ parse_rest "https" t
          | none ↦ elim o' as (λ (_ : Option String). Option Url) [
            | some t ↦ parse_rest "http" t
            | none ↦ none
          ]
        ]
          ≡ some u
        → IsUrl u
    go (some t) o' h = parse_rest-IsUrl "https" t u (inr refl) h
    go none (some t) h = parse_rest-IsUrl "http" t u (inl refl) h
    go none none h = none-some u h

-- A redirect from a valid URL to a path, which starts with '/' and has no '?' and no '#', leads to
-- this path on the same server: the protocol, the host and the port stay.
pub redirect_stays :
    (url : String) (u : Url) (t : String)
    → parse_url url ≡ some u
    → AllCodes is_path t
    → parse_url (resolve_redirect u (before "/" t)) ≡ some (record u { path = before "/" t })
redirect_stays url u t e q = resolve_redirect-path u t (parse_url-IsUrl url u e) q
