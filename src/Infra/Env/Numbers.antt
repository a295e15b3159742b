-- ===== src/Infra/Env/Numbers.antt =====
-- src/infra/config.h: the numbers that a setting writes.
use Prim.Native.Char.{code}
use native.Mathlib.Numerals.{unary_clauses}
use iv_cloud_gateway.Base.{ℕ, ◌≡◌, ◌∙◌, ap, false, String, suc, ◌+◌, ◌-◌, ◌*◌, ◌^◌, arith}
use iv_cloud_gateway.Base.Texts.{is_none, is_digit, AllCodes}
use iv_cloud_gateway.Infra.Env.{skip_white, digits_from, int_of, signed, stoi}

abbrev pub size : String → ℕ
size String.[] = 0
size (String.◌∷◌ c s) = suc (size s)

-- The number that digits write, by their places.
abbrev pub value : String → ℕ
value String.[] = 0
value (String.◌∷◌ c s) = (code c - b'0') * 10 ^ size s + value s

place : (n d v k : ℕ) → (n * 10 + d) * 10 ^ k + v ≡ n * 10 ^ suc k + (d * 10 ^ k + v)
place n d v k = simp unary_clauses (omega arith)

digits_from-value :
    (n : ℕ) (s : String) → AllCodes is_digit s → digits_from n s ≡ n * 10 ^ size s + value s
unfolding digits_from
digits_from-value n String.[] a = omega arith
digits_from-value n (String.◌∷◌ c s) (p, a) =
    let d = code c - b'0' in
    rw (p) (digits_from-value (n * 10 + d) s a ∙ place n d (value s) (size s))

skip_white-digits : (s : String) → is_none s ≡ false → AllCodes is_digit s → skip_white s ≡ s
unfolding skip_white
skip_white-digits String.[] h a = cc
skip_white-digits (String.◌∷◌ c s) h (p, a) = ground arith

signed-digits :
    (s : String)
    → is_none s ≡ false
    → AllCodes is_digit s
    → signed s ≡ int_of false (digits_from 0 s)
signed-digits String.[] h a = cc
signed-digits (String.◌∷◌ c s) h (p, a) = ground arith

pub stoi-digits :
    (s : String) → is_none s ≡ false → AllCodes is_digit s → stoi s ≡ int_of false (value s)
unfolding stoi
stoi-digits s h a =
    ap signed (skip_white-digits s h a)
    ∙ signed-digits s h a
    ∙ ap (int_of false) (digits_from-value 0 s a ∙ omega arith)
