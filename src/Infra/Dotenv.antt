-- ===== src/Infra/Dotenv.antt =====
-- src/infra/config.h: `load_dotenv`. A text has no NUL, and stands for the bytes of a file or of an
-- environment variable.
pub mod Lookup
pub mod RoundTrip
use Prim.Native.Char.{Char, code}
use iv_cloud_gateway.Base.{
  ℕ, ◌≡◌, refl, ◌∙◌, ap, Bool, true, false, not, ◌&&◌, ◌||◌, String, List, [], ◌∷◌, ◌++◌, Option,
  none, some, arith, ◌==◌, if◌then◌else◌, str_eq, eq_iff, Option-cases, inl, inr,
}
use iv_cloud_gateway.Base.Texts.{is_none, run}
use iv_cloud_gateway.Json.{find}

abbrev pub Environment : Type 0
Environment = List (String × String)

-- `setenv(key, value, 0)`.
unfoldable pub setenv : String → String → Environment → Environment
setenv k v env = elim (find k env) [ some w ↦ env | none ↦ env ++ (k, v) ∷ [] ]

abbrev pub is_blank : ℕ → Bool
is_blank c = c == b' ' || c == b'\t'

abbrev pub is_space : ℕ → Bool
is_space c = c == b'\r' || c == b'\n' || c == b' ' || c == b'\t'

abbrev pub onto : Char → List String → List String
onto c [] = String.◌∷◌ c "" ∷ []
onto c (l ∷ ls) = String.◌∷◌ c l ∷ ls

-- What `std::getline` returns, call after call.
unfoldable pub lines : String → List String
lines String.[] = []
lines (String.◌∷◌ c s) = let rest = lines s in if code c == b'\n' then "" ∷ rest else onto c rest

-- From `find_first_not_of(" \t")` on.
pub drop_blanks : String → String
drop_blanks String.[] = ""
drop_blanks (String.◌∷◌ c s) = if is_blank (code c) then drop_blanks s else String.◌∷◌ c s

-- The `pop_back` loops.
pub trim_right : (ℕ → Bool) → String → String
trim_right test String.[] = ""
trim_right test (String.◌∷◌ c s) =
    let rest = trim_right test s in if is_none rest && test (code c) then "" else String.◌∷◌ c rest

pub back : String → ℕ
back String.[] = 0
back (String.◌∷◌ c String.[]) = code c
back (String.◌∷◌ c (String.◌∷◌ d s)) = back (String.◌∷◌ d s)

pub but_last : String → String
but_last String.[] = ""
but_last (String.◌∷◌ c String.[]) = ""
but_last (String.◌∷◌ c (String.◌∷◌ d s)) = String.◌∷◌ c (but_last (String.◌∷◌ d s))

-- A value in quotes of either kind, without them.
pub unquote : String → String
unfolding back but_last
unquote String.[] = ""
unquote (String.◌∷◌ c s) =
    if not (is_none s)
      && ((code c == b'"' && back s == b'"') || (code c == b'\'' && back s == b'\''))
    then but_last s
    else String.◌∷◌ c s

abbrev pub starts_comment : String → Bool
starts_comment String.[] = false
starts_comment (String.◌∷◌ c s) = code c == b'#'

-- What follows the '='.
abbrev pub value_of : String → Option String
value_of String.[] = none
value_of (String.◌∷◌ c s) = some s

abbrev pub entry : String → Option String → Option (String × String)
entry key none = none
entry key (some val) =
    let k = trim_right is_blank key in
    if is_none k then none else some (k, unquote (trim_right is_space val))

-- The body of the loop: what it sets, if it does.
unfoldable pub parse_line : String → Option (String × String)
unfolding drop_blanks trim_right unquote
parse_line line =
    let t = drop_blanks line in
    let (key, rest) = run (λ c. not (c == b'=')) t in
    if is_none t || starts_comment t then none else entry key (value_of rest)

abbrev pub set_entry : Option (String × String) → Environment → Environment
set_entry none env = env
set_entry (some (k, v)) env = setenv k v env

pub load_lines : List String → Environment → Environment
unfolding setenv
load_lines [] env = env
load_lines (l ∷ ls) env = load_lines ls (set_entry (parse_line l) env)

-- `none` is a file that does not open.
unfoldable pub load_dotenv : Option String → Environment → Environment
unfolding load_lines lines
load_dotenv none env = env
load_dotenv (some text) env = load_lines (lines text) env
