-- ===== src/Trip/Ids.antt =====
-- The ids that the orchestrator reports back.
use iv_cloud_gateway.Base.{ℕ, suc, ◌%◌, ◌^◌, ◌≤◌, ◌<◌, ◌≡◌, ◌≢◌, refl, ℤ, pos, negsuc, some, arith}
use iv_cloud_gateway.Trip.{
  TripOrchestrator, State, store_request_id, active_request_id, active_trip_id, set_trip_id, vin,
}
use iv_cloud_gateway.Trip.Double.{round53, round_at, round_from, to_double, to_int64}

-- The magnitude of an integer.
abbrev pub magnitude : ℤ → ℕ
magnitude (pos n) = n
magnitude (negsuc n) = suc n

round53-small : (n : ℕ) → n ≤ 2 ^ 53 → round53 n ≡ n
unfolding round53
round53-small n h = ground arith

to_int64-pos : (n : ℕ) → n < 2 ^ 63 → to_int64 (pos n) ≡ some (pos n)
unfolding to_int64
to_int64-pos n h = ground arith

to_int64-negsuc : (n : ℕ) → n < 2 ^ 63 → to_int64 (negsuc n) ≡ some (negsuc n)
unfolding to_int64
to_int64-negsuc n h = ground arith

-- An id whose magnitude is at most 2^53 is read back as it was stored.
pub active_request_id-store :
    {D S : Type 0} (n : ℤ) (s : State D S)
    → magnitude n ≤ 2 ^ 53
    → active_request_id (store_request_id n s).orchestrator ≡ some n
unfolding active_request_id to_double
active_request_id-store (pos n) s h = rw (round53-small n h) (to_int64-pos n (omega arith))
active_request_id-store (negsuc n) s h =
    rw (round53-small (suc n) h) (to_int64-negsuc n (omega arith))

round_at-even : (n : ℕ) → round_at 1 n % 2 ≡ 0
unfolding round_at
round_at-even n = ground arith

round53-even : (n : ℕ) → 2 ^ 53 < n → n < 2 ^ 54 → round53 n % 2 ≡ 0
unfolding round53 round_from
round53-even n h k = ground (arith, round_at-even n)

to_int64-pos_inv : (m n : ℕ) → to_int64 (pos m) ≡ some (pos n) → m ≡ n
unfolding to_int64
to_int64-pos_inv m n e = ground arith

-- An odd id between 2^53 and 2^54 is not read back as it was stored.
pub active_request_id_lossy :
    {D S : Type 0} (n : ℕ) (s : State D S)
    → 2 ^ 53 < n
    → n < 2 ^ 54
    → n % 2 ≡ 1
    → active_request_id (store_request_id (pos n) s).orchestrator ≢ some (pos n)
unfolding active_request_id to_double
active_request_id_lossy n s h k odd e =
    let same = to_int64-pos_inv (round53 n) n e in omega (arith, round53-even n h k)

-- A trip id that is set is read back, and the request id and the vehicle stay as they are.
set_trip_id-reads :
    {D S : Type 0} (n : ℤ) (o : TripOrchestrator D S)
    → (active_trip_id (set_trip_id n o) ≡ n)
      × (active_request_id (set_trip_id n o) ≡ active_request_id o)
      × (vin (set_trip_id n o) ≡ vin o)
unfolding set_trip_id active_trip_id active_request_id vin
set_trip_id-reads n o = (refl, refl, refl)
