-- ===== src/Trip/Double.antt =====
-- An int64_t in a double (binary64) and back, which `request_id_` goes through.
use iv_cloud_gateway.Base.{
  ℕ, zero, suc, ◌+◌, ◌-◌, ◌*◌, ◌/◌, ◌%◌, ◌^◌, ℤ, pos, negsuc, Option, none, some, ltb, leb, ◌==◌,
  if◌then◌else◌,
}

-- The nearest multiple of 2 ^ k, and of two the even one.
unfoldable pub round_at : ℕ → ℕ → ℕ
round_at k n =
    let q = n / 2 ^ k in
    let r = n % 2 ^ k in
    let half = 2 ^ (k - 1) in
    let up = ltb half r in
    let tie = r == half in (if up then q + 1 else if tie then q + q % 2 else q) * 2 ^ k

-- The significand has 53 bits: `k` is the least number of bits that have to go. An int64_t has 63
-- bits below its sign, so eleven rounds are enough.
unfoldable pub round_from : ℕ → ℕ → ℕ → ℕ
round_from zero k n = round_at k n
round_from (suc fuel) k n =
    let more = round_from fuel (k + 1) n in if ltb (n / 2 ^ k) (2 ^ 53) then round_at k n else more

-- `(double)n` for a magnitude n.
unfoldable pub round53 : ℕ → ℕ
round53 n = if leb n (2 ^ 53) then n else round_from 11 1 n

abbrev pub from_magnitude : ℕ → ℤ
from_magnitude zero = pos 0
from_magnitude (suc n) = negsuc n

-- `(double)n`, which is an integer.
unfoldable pub to_double : ℤ → ℤ
to_double (pos n) = pos (round53 n)
to_double (negsuc n) = from_magnitude (round53 (suc n))

-- `(int64_t)d`: undefined (`none`) where the value does not fit.
unfoldable pub to_int64 : ℤ → Option ℤ
to_int64 (pos n) = if ltb n (2 ^ 63) then some (pos n) else none
to_int64 (negsuc n) = if ltb n (2 ^ 63) then some (negsuc n) else none
