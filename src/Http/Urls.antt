-- ===== src/Http/Urls.antt =====
-- src/transport/http_client/http_client.cpp: `parse_url` and `resolve_redirect`. Each part of the
-- regular expression stops at a character that the next part needs, so that the greedy match is the
-- only one.
use Prim.Native.Char.{code}
use Prim.Native.String.{◌++◌ as str_append}
use iv_cloud_gateway.Base.Texts.{is_none, is_digit, run}
use iv_cloud_gateway.Base.{
  ℕ, Bool, true, false, not, ◌&&◌, ◌||◌, String, Option, none, some, str_eq, ◌==◌, if◌then◌else◌,
}

pub record Url : Type 0 where
  pub protocol : String
  pub host : String
  pub port : String
  pub path : String

-- The rest of a text after a prefix.
abbrev pub after : String → String → Option String
after String.[] s = some s
after (String.◌∷◌ c p) String.[] = none
after (String.◌∷◌ c p) (String.◌∷◌ d s) = if code c == code d then after p s else none

abbrev pub is_host : ℕ → Bool
is_host c = not (c == b':' || c == b'/' || c == b'?' || c == b'#')

abbrev pub is_path : ℕ → Bool
is_path c = not (c == b'?' || c == b'#')

abbrev is_query : ℕ → Bool
is_query c = not (c == b'#')

abbrev is_any : ℕ → Bool
is_any c = not (c == 10 || c == 13)

-- `(?::(\d+))?`.
abbrev pub port_of : String → String × String
port_of s = elim (after ":" s) [
  | none ↦ ("", s)
  | some t ↦
      let (digits, rest) = run is_digit t in if is_none digits then ("", s) else (digits, rest)
]

-- `(?:\?([^#]*))?`.
abbrev pub query_of : String → String × String
query_of s = elim (after "?" s) [ none ↦ ("", s) | some t ↦ run is_query t ]

-- `(?:#(.*))?$`.
abbrev pub ends : String → Bool
ends s = elim (after "#" s) [
  | none ↦ is_none s
  | some t ↦ let (line, rest) = run is_any t in is_none rest
]

abbrev pub default_port : String → String
default_port protocol = if str_eq protocol "https" then "443" else "80"

-- The parts of what follows `protocol://`, from the last to the first.
abbrev pub with_query : String → String → String → String → String × String → Option Url
with_query protocol host port path (query, rest) =
    let full = if is_none path then "/" else path in
    if is_none host || not (ends rest)
    then none
    else some (record {
      protocol = protocol;
      host = host;
      port = if is_none port then default_port protocol else port;
      path = if is_none query then full else str_append full (str_append "?" query);
    })

abbrev pub with_path : String → String → String → String × String → Option Url
with_path protocol host port (path, rest) = with_query protocol host port path (query_of rest)

abbrev pub with_port : String → String → String × String → Option Url
with_port protocol host (port, rest) = with_path protocol host port (run is_path rest)

abbrev pub with_host : String → String × String → Option Url
with_host protocol (host, rest) = with_port protocol host (port_of rest)

-- What follows `protocol://`.
unfoldable pub parse_rest : String → String → Option Url
parse_rest protocol s = with_host protocol (run is_host s)

unfoldable pub parse_url : String → Option Url
unfolding parse_rest
parse_url s = elim (after "https://" s) [
  | some t ↦ parse_rest "https" t
  | none ↦ elim (after "http://" s) [ some t ↦ parse_rest "http" t | none ↦ none ]
]

abbrev starts : String → String → Bool
starts p s = elim (after p s) [ some t ↦ true | none ↦ false ]

-- The text up to its last '/', with it.
abbrev directory : String → Option String
directory String.[] = none
directory (String.◌∷◌ c s) = elim (directory s) [
  | some d ↦ some (String.◌∷◌ c d)
  | none ↦ if code c == b'/' then some (String.◌∷◌ c "") else none
]

abbrev or_root : Option String → String
or_root none = "/"
or_root (some d) = d

-- `u` is `parse_url(base)`, which `do_request` has already parsed.
unfoldable pub resolve_redirect : Url → String → String
resolve_redirect u to =
    let plain = str_append u.protocol (str_append "://" u.host) in
    let other =
      (str_eq u.protocol "http" && not (str_eq u.port "80"))
      || (str_eq u.protocol "https" && not (str_eq u.port "443")) in
    let root = if other then str_append plain (str_append ":" u.port) else plain in
    if starts "http://" to || starts "https://" to
    then to
    else if starts "/" to
    then str_append root to
    else str_append root (str_append (or_root (directory u.path)) to)
