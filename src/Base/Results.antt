-- ===== src/Base/Results.antt =====
-- C++ exceptions as values.
use mathlib.Core.Path.{◌≡◌}

-- What ends a call early: an exception of nlohmann::json (a std::exception too), another
-- std::exception, or an access to a deleted object, which no handler catches.
pub data Error : Type 0 where
  json_exception std_exception dangling : Error

-- What a call returns, or throws.
pub data Result (A : Type 0) : Type 0 where
  err : Error → Result A
  ok : A → Result A

infixl 5 ◌>>=◌
abbrev pub ◌>>=◌ : {A B : Type 0} → Result A → (A → Result B) → Result B
◌>>=◌ (err thrown) next = err thrown
◌>>=◌ (ok value) next = next value

pub ok-injective : {A : Type 0} {a b : A} → ok a ≡ ok b → a ≡ b
ok-injective e = cc
