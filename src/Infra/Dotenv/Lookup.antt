-- ===== src/Infra/Dotenv/Lookup.antt =====
-- src/infra/config.h: which settings of a .env file reach the environment.
use iv_cloud_gateway.Base.{
  ◌≡◌, refl, ◌∙◌, String, List, [], ◌∷◌, ◌++◌, Option, none, some, arith, eq_iff,
}
use iv_cloud_gateway.Json.{find}
use iv_cloud_gateway.Infra.Dotenv.{
  Environment, setenv, set_entry, lines, parse_line, load_lines, load_dotenv,
}

abbrev pub prepend : Option (String × String) → Environment → Environment
prepend none env = env
prepend (some e) env = e ∷ env

-- The specification of a file: its settings, in the order of its lines.
abbrev pub settings_of : List String → Environment
settings_of [] = []
settings_of (l ∷ ls) = prepend (parse_line l) (settings_of ls)

abbrev pub or_else : Option String → Option String → Option String
or_else (some v) w = some v
or_else none w = w

or_else_assoc : (a b c : Option String) → or_else (or_else a b) c ≡ or_else a (or_else b c)
or_else_assoc none b c = refl
or_else_assoc (some v) b c = refl

find-append :
    (j : String) (env more : Environment)
    → find j (env ++ more) ≡ or_else (find j env) (find j more)
find-append j [] more = refl
find-append j ((k, v) ∷ env) more = ground (arith, find-append j env more)

-- A variable that is set stays as it is, and the others too.
find-setenv :
    (j k v : String) (env : Environment)
    → find j (setenv k v env) ≡ or_else (find j env) (find j ((k, v) ∷ []))
unfolding setenv
find-setenv j k v env = ground (arith, eq_iff k j, find-append j env ((k, v) ∷ []))

find-set_entry :
    (j : String) (e : Option (String × String)) (env : Environment)
    → find j (set_entry e env) ≡ or_else (find j env) (find j (prepend e []))
find-set_entry j none env = ground arith
find-set_entry j (some (k, v)) env = find-setenv j k v env

find-prepend :
    (j : String) (e : Option (String × String)) (env : Environment)
    → find j (prepend e env) ≡ or_else (find j (prepend e [])) (find j env)
find-prepend j none env = refl
find-prepend j (some (k, v)) env = ground arith

find-load_lines :
    (j : String) (ls : List String) (env : Environment)
    → find j (load_lines ls env) ≡ or_else (find j env) (find j (settings_of ls))
unfolding load_lines
find-load_lines j [] env = ground arith
find-load_lines j (l ∷ ls) env =
    find-load_lines j ls (set_entry (parse_line l) env)
    ∙ (rw (find-set_entry j (parse_line l) env, find-prepend j (parse_line l) (settings_of ls))
        (or_else_assoc (find j env) (find j (prepend (parse_line l) [])) (find j (settings_of ls))))

-- The settings of a file, or none if it does not open.
abbrev pub file_settings : Option String → Environment
file_settings none = []
file_settings (some text) = settings_of (lines text)

-- After `load_dotenv` a variable has the value that it had, if it was set; else that of the first
-- line of the file that sets it, if one does.
pub find-load_dotenv :
    (j : String) (file : Option String) (env : Environment)
    → find j (load_dotenv file env) ≡ or_else (find j env) (find j (file_settings file))
unfolding load_dotenv
find-load_dotenv j none env = ground arith
find-load_dotenv j (some text) env = find-load_lines j (lines text) env
