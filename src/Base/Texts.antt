-- ===== src/Base/Texts.antt =====
-- Texts read character by character.
use Prim.Native.Char.{Char, code}
use Prim.Native.String.append.{nil, cons}
use Prim.Native.Nat.{ℕ}
use Prim.Native.String.{String, ◌++◌ as str_append}
use mathlib.Core.Bool.{Bool, true, false, ◌&&◌}
use mathlib.Core.Path.{◌≡◌, ◌∙◌, refl, ap}
use iv_cloud_gateway.Base.Tests.{leb, if◌then◌else◌, Bool-cases}
use mathlib.Core.Logic.{inl, inr}

abbrev pub is_none : String → Bool
is_none String.[] = true
is_none (String.◌∷◌ c s) = false

abbrev pub is_digit : ℕ → Bool
is_digit c = leb b'0' c && leb c b'9'

-- The longest run of characters that satisfy a test, and what follows it.
abbrev pub run : (ℕ → Bool) → String → String × String
run test String.[] = ("", "")
run test (String.◌∷◌ c s) =
    let (taken, rest) = run test s in
    if test (code c) then (String.◌∷◌ c taken, rest) else ("", String.◌∷◌ c s)

-- One text before another.
abbrev pub before : String → String → String
before String.[] t = t
before (String.◌∷◌ c s) t = String.◌∷◌ c (before s t)

abbrev pub AllCodes : (ℕ → Bool) → String → Type 0
AllCodes test String.[] = Unit
AllCodes test (String.◌∷◌ c s) = (test (code c) ≡ true) × AllCodes test s

pub AllCodes-before :
    (test : ℕ → Bool) (s t : String)
    → AllCodes test s
    → AllCodes test t
    → AllCodes test (before s t)
AllCodes-before test String.[] t a b = b
AllCodes-before test (String.◌∷◌ c s) t (p, a) b = (p, AllCodes-before test s t a b)

pub append-before : (s t : String) → str_append s t ≡ before s t
append-before String.[] t = nil t
append-before (String.◌∷◌ c s) t = cons c s t ∙ ap (String.◌∷◌ c) (append-before s t)

-- A run ends where a character fails its test, or with the text.
pub run-before :
    (test : ℕ → Bool) (s t : String) (c : Char)
    → AllCodes test s
    → test (code c) ≡ false
    → run test (before s (String.◌∷◌ c t)) ≡ (s, String.◌∷◌ c t)
run-before test String.[] t c a h = rw h refl
run-before test (String.◌∷◌ d s) t c (p, a) h = rw (run-before test s t c a h, p) refl

pub run-all : (test : ℕ → Bool) (s : String) → AllCodes test s → run test s ≡ (s, "")
run-all test String.[] a = refl
run-all test (String.◌∷◌ c s) (p, a) = rw (run-all test s a, p) refl

pub before_assoc : (s t u : String) → before (before s t) u ≡ before s (before t u)
before_assoc String.[] t u = refl
before_assoc (String.◌∷◌ c s) t u = ap (String.◌∷◌ c) (before_assoc s t u)

pub run-taken : (test : ℕ → Bool) (s : String) → AllCodes test (run test s).0
run-taken test String.[] = tt
run-taken test (String.◌∷◌ c s) = elim (Bool-cases (test (code c))) [
  | inl e ↦ rw e (e, run-taken test s)
  | inr e ↦ rw e tt
]
