-- ===== src/Http/SameServer.antt =====
-- src/transport/http_client/http_client.cpp: where a redirect to a path leads.
use Prim.Native.String.{◌++◌ as str_append}
use iv_cloud_gateway.Base.{
  ◌≡◌, refl, sym, ◌∙◌, ap, ◌⊎◌, inl, inr, Bool, true, false, not, ◌&&◌, ◌||◌, String, Option, some,
  arith, str_eq, eq_iff, if◌then◌else◌, Bool-cases,
}
use iv_cloud_gateway.Base.Texts.{
  is_none, is_digit, before, AllCodes, append-before, before_assoc, run-before, run-all,
}
use iv_cloud_gateway.Http.Urls.{
  Url, is_host, is_path, port_of, with_host, with_port, with_path, parse_rest, parse_url,
  resolve_redirect,
}

-- What the parts of a URL are made of.
abbrev pub IsUrl : Url → Type 0
IsUrl u =
    ((u.protocol ≡ "http") ⊎ (u.protocol ≡ "https"))
    × ((is_none u.host ≡ false) × AllCodes is_host u.host)
    × ((is_none u.port ≡ false) × AllCodes is_digit u.port)

-- A path behind a host.
parse_rest-path :
    (protocol host t : String)
    → is_none host ≡ false
    → AllCodes is_host host
    → AllCodes is_path t
    → parse_rest protocol (before host (before "/" t))
      ≡ some (record {
        protocol = protocol;
        host = host;
        port = if str_eq protocol "https" then "443" else "80";
        path = before "/" t;
      })
unfolding parse_rest
parse_rest-path protocol host t h a b =
    ap (with_host protocol) (run-before is_host host t "/" a refl)
    ∙ (ap (with_path protocol host "") (run-all is_path (before "/" t) (refl, b)) ∙ rw h refl)

port_of-digits :
    (port t : String)
    → is_none port ≡ false
    → AllCodes is_digit port
    → port_of (before ":" (before port (before "/" t))) ≡ (port, before "/" t)
port_of-digits port t k b =
    ap (λ r. if is_none r.0 then ("", before ":" (before port (before "/" t))) else (r.0, r.1))
      (run-before is_digit port t "/" b refl)
    ∙ rw k refl

parse_rest-port :
    (protocol host port t : String)
    → is_none host ≡ false
    → AllCodes is_host host
    → is_none port ≡ false
    → AllCodes is_digit port
    → AllCodes is_path t
    → parse_rest protocol (before host (before ":" (before port (before "/" t))))
      ≡ some (record { protocol = protocol; host = host; port = port; path = before "/" t })
unfolding parse_rest
parse_rest-port protocol host port t h a k b p =
    let rest = before port (before "/" t) in
    ap (with_host protocol) (run-before is_host host rest ":" a refl)
    ∙ (ap (with_port protocol host) (port_of-digits port t k b)
        ∙ (ap (with_path protocol host port) (run-all is_path (before "/" t) (refl, p))
            ∙ rw (h, k) refl))

-- The root of a URL, and a path behind it.
abbrev rooted : Bool → Url → String → String
rooted other u t =
    let root = str_append u.protocol (str_append "://" u.host) in
    str_append (if other then str_append root (str_append ":" u.port) else root) (before "/" t)

rooted-before :
    (u : Url) (t : String)
    → rooted false u t ≡ before u.protocol (before "://" (before u.host (before "/" t)))
rooted-before u t =
    let plain = before "://" u.host in
    rw
      (
        append-before "://" u.host,
        append-before u.protocol plain,
        append-before (before u.protocol plain) (before "/" t),
        before_assoc u.protocol plain (before "/" t),
      )
      refl

rooted_port-before :
    (u : Url) (t : String)
    → rooted true u t
      ≡ before u.protocol (before "://" (before u.host (before ":" (before u.port (before "/" t)))))
rooted_port-before u t =
    let plain = before "://" u.host in
    let numbered = before ":" u.port in
    rw
      (
        append-before "://" u.host,
        append-before u.protocol plain,
        append-before ":" u.port,
        append-before (before u.protocol plain) numbered,
        append-before (before (before u.protocol plain) numbered) (before "/" t),
        before_assoc (before u.protocol plain) numbered (before "/" t),
        before_assoc u.protocol plain (before numbered (before "/" t)),
      )
      refl

-- Whether the root of a URL has a port.
abbrev other_port : Url → Bool
other_port u =
    (str_eq u.protocol "http" && not (str_eq u.port "80"))
    || (str_eq u.protocol "https" && not (str_eq u.port "443"))

resolve_redirect-rooted :
    (u : Url) (t : String) → resolve_redirect u (before "/" t) ≡ rooted (other_port u) u t
unfolding resolve_redirect
resolve_redirect-rooted u t = refl

parse_url-http : (s : String) → parse_url (before "http" (before "://" s)) ≡ parse_rest "http" s
unfolding parse_url
parse_url-http s = refl

parse_url-https : (s : String) → parse_url (before "https" (before "://" s)) ≡ parse_rest "https" s
unfolding parse_url
parse_url-https s = refl

port-http : (u : Url) → u.protocol ≡ "http" → other_port u ≡ false → "80" ≡ u.port
port-http u e e' = ground (arith, eq_iff u.port "80", eq_iff u.protocol "http")

port-https : (u : Url) → u.protocol ≡ "https" → other_port u ≡ false → "443" ≡ u.port
port-https u e e' = ground (arith, eq_iff u.port "443", eq_iff u.protocol "https")

abbrev parts : Url → String → String → String → Option Url
parts u protocol port t =
    some (record { protocol = protocol; host = u.host; port = port; path = before "/" t })

plain-parses :
    (u : Url) (t : String)
    → IsUrl u
    → AllCodes is_path t
    → other_port u ≡ false
    → parse_url (before u.protocol (before "://" (before u.host (before "/" t))))
      ≡ some (record u { path = before "/" t })
plain-parses u t (inl http, (h, a), (k, p)) q e =
    let port = port-http u http e in
    rw http (parse_url-http (before u.host (before "/" t)))
    ∙ (parse_rest-path "http" u.host t h a q ∙ (λ i. parts u (sym http i) (port i) t))
plain-parses u t (inr https, (h, a), (k, p)) q e =
    let port = port-https u https e in
    rw https (parse_url-https (before u.host (before "/" t)))
    ∙ (parse_rest-path "https" u.host t h a q ∙ (λ i. parts u (sym https i) (port i) t))

numbered-parses :
    (u : Url) (t : String)
    → IsUrl u
    → AllCodes is_path t
    → parse_url (
        before u.protocol
          (before "://" (before u.host (before ":" (before u.port (before "/" t))))))
      ≡ some (record u { path = before "/" t })
numbered-parses u t (inl http, (h, a), (k, p)) q =
    rw http (parse_url-http (before u.host (before ":" (before u.port (before "/" t)))))
    ∙ (parse_rest-port "http" u.host u.port t h a k p q ∙ (λ i. parts u (sym http i) u.port t))
numbered-parses u t (inr https, (h, a), (k, p)) q =
    rw https (parse_url-https (before u.host (before ":" (before u.port (before "/" t)))))
    ∙ (parse_rest-port "https" u.host u.port t h a k p q ∙ (λ i. parts u (sym https i) u.port t))

pub resolve_redirect-path :
    (u : Url) (t : String)
    → IsUrl u
    → AllCodes is_path t
    → parse_url (resolve_redirect u (before "/" t)) ≡ some (record u { path = before "/" t })
resolve_redirect-path u t v q =
    ap parse_url (resolve_redirect-rooted u t) ∙ elim (Bool-cases (other_port u)) [
      | inl other ↦ rw (other, rooted_port-before u t) (numbered-parses u t v q)
      | inr usual ↦ rw (usual, rooted-before u t) (plain-parses u t v q usual)
    ]
