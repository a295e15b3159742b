-- ===== src/Infra/Dotenv/RoundTrip.antt =====
-- src/infra/config.h: a .env file that is written from settings reads back as these settings.
use iv_cloud_gateway.Base.{
  ℕ, ◌≡◌, refl, ap, Bool, false, not, ◌||◌, String, List, [], ◌∷◌, some, arith, ◌==◌, All,
}
use iv_cloud_gateway.Base.Texts.{is_none, run, before, AllCodes, AllCodes-before}
use iv_cloud_gateway.Infra.Dotenv.{
  is_blank, is_space, lines, drop_blanks, trim_right, back, but_last, unquote, starts_comment,
  entry, parse_line,
}
use iv_cloud_gateway.Infra.Dotenv.Lookup.{file_settings}

-- A character of a key: no blank, '=', '#' or end of line.
abbrev pub is_key : ℕ → Bool
is_key c = not (is_space c || c == b'=' || c == b'#')

abbrev pub is_inline : ℕ → Bool
is_inline c = not (c == b'\n')

-- A setting that a line can hold: any value of one line, under a key that is not empty.
abbrev pub IsSetting : String × String → Type 0
IsSetting (k, v) = (is_none k ≡ false) × AllCodes is_key k × AllCodes is_inline v

-- KEY="VALUE".
abbrev pub line_of : String × String → String
line_of (k, v) = before k (before "=\"" (before v "\""))

abbrev pub file_of : List (String × String) → String
file_of [] = ""
file_of (e ∷ es) = before (line_of e) (before "\n" (file_of es))

drop_blanks-key :
    (k t : String) → is_none k ≡ false → AllCodes is_key k → drop_blanks (before k t) ≡ before k t
unfolding drop_blanks
drop_blanks-key String.[] t h a = cc
drop_blanks-key (String.◌∷◌ c s) t h (p, a) = ground arith

run-key :
    (k t : String)
    → AllCodes is_key k
    → run (λ c. not (c == b'=')) (before k (before "=" t)) ≡ (k, before "=" t)
run-key String.[] t a = refl
run-key (String.◌∷◌ c s) t (p, a) = ground (arith, run-key s t a)

trim_right-key : (k : String) → AllCodes is_key k → trim_right is_blank k ≡ k
unfolding trim_right
trim_right-key String.[] a = refl
trim_right-key (String.◌∷◌ c s) (p, a) = ground (arith, trim_right-key s a)

before_quote-ne_none : (v : String) → is_none (before v "\"") ≡ false
before_quote-ne_none String.[] = refl
before_quote-ne_none (String.◌∷◌ d v) = refl

trim_right-quoted : (v : String) → trim_right is_space (before v "\"") ≡ before v "\""
unfolding trim_right
trim_right-quoted String.[] = refl
trim_right-quoted (String.◌∷◌ c s) = rw (trim_right-quoted s, before_quote-ne_none s) refl

back-quoted : (v : String) → back (before v "\"") ≡ b'"'
unfolding back
back-quoted String.[] = refl
back-quoted (String.◌∷◌ c String.[]) = refl
back-quoted (String.◌∷◌ c (String.◌∷◌ d s)) = back-quoted (String.◌∷◌ d s)

but_last-quoted : (v : String) → but_last (before v "\"") ≡ v
unfolding but_last
but_last-quoted String.[] = refl
but_last-quoted (String.◌∷◌ c String.[]) = refl
but_last-quoted (String.◌∷◌ c (String.◌∷◌ d s)) =
    ap (String.◌∷◌ c) (but_last-quoted (String.◌∷◌ d s))

unquote-quoted : (v : String) → unquote (before "\"" (before v "\"")) ≡ v
unfolding unquote
unquote-quoted v = rw (before_quote-ne_none v, back-quoted v) (but_last-quoted v)

key-ne_none : (k t : String) → is_none k ≡ false → is_none (before k t) ≡ false
key-ne_none String.[] t h = cc
key-ne_none (String.◌∷◌ c s) t h = refl

starts_comment-key :
    (k t : String) → is_none k ≡ false → AllCodes is_key k → starts_comment (before k t) ≡ false
starts_comment-key String.[] t h a = cc
starts_comment-key (String.◌∷◌ c s) t h (p, a) = ground arith

entry-quoted :
    (k v : String)
    → is_none k ≡ false
    → AllCodes is_key k
    → entry k (some (before "\"" (before v "\""))) ≡ some (k, v)
entry-quoted k v h a =
    rw (trim_right-key k a, h, trim_right-quoted (String.◌∷◌ "\"" v), unquote-quoted v) refl

parse_line-line_of : (e : String × String) → IsSetting e → parse_line (line_of e) ≡ some e
unfolding parse_line
parse_line-line_of (k, v) (h, a, b) =
    let rest = before "=\"" (before v "\"") in
    rw
      (
        drop_blanks-key k rest h a,
        key-ne_none k rest h,
        starts_comment-key k rest h a,
        run-key k (before "\"" (before v "\"")) a,
      )
      (entry-quoted k v h a)

key-IsInline : (k : String) → AllCodes is_key k → AllCodes is_inline k
key-IsInline String.[] a = tt
key-IsInline (String.◌∷◌ c s) (p, a) = (ground arith, key-IsInline s a)

line_of-IsInline : (e : String × String) → IsSetting e → AllCodes is_inline (line_of e)
line_of-IsInline (k, v) (h, a, b) =
    AllCodes-before is_inline k (before "=\"" (before v "\"")) (key-IsInline k a)
      (refl, (refl, AllCodes-before is_inline v "\"" b (refl, tt)))

lines-before :
    (l t : String) → AllCodes is_inline l → lines (before l (before "\n" t)) ≡ l ∷ lines t
unfolding lines
lines-before String.[] t a = refl
lines-before (String.◌∷◌ c s) t (p, a) = ground (arith, lines-before s t a)

-- A file that has each of a list of settings as a line KEY="VALUE" is read as these settings, where
-- the keys are not empty and have no blank, '=', '#' or end of line, and no value has an end of
-- line.
pub file_settings-file_of :
    (es : List (String × String)) → All IsSetting es → file_settings (some (file_of es)) ≡ es
unfolding lines
file_settings-file_of [] a = refl
file_settings-file_of (e ∷ es) (p, a) =
    rw (lines-before (line_of e) (file_of es) (line_of-IsInline e p), parse_line-line_of e p)
      (ap (◌∷◌ e) (file_settings-file_of es a))
