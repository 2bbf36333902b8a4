-- ===== src/Lease/Clock.antt =====
-- The times that a remote lease can express are the milliseconds from 1970 on.
use unistore.Base.{ℕ, ◌+◌, ◌*◌, ◌^◌, ◌≤◌, ◌<◌, ◌≡◌, arith}
use unistore.Lease.{unix_seconds, nsec_per_sec, nsec_per_msec, time_to_u64, u64_to_time}

-- From 1970 on, for as long as the seconds fit the 54 bits above the milliseconds.
abbrev pub IsClock : ℕ → Type 0
IsClock t = (unix_seconds * nsec_per_sec ≤ t) × (t < (unix_seconds + 2 ^ 54) * nsec_per_sec)

-- A time on the clock that is stored in a word and read back is rounded down to its millisecond.
pub u64_to_time-time_to_u64 :
    (t : ℕ)
    → IsClock t
    → (u64_to_time (time_to_u64 t) ≤ t) × (t < u64_to_time (time_to_u64 t) + nsec_per_msec)
unfolding time_to_u64 u64_to_time
u64_to_time-time_to_u64 t h = omega arith

-- The expired word stands for the first moment of 1970.
pub u64_to_time-zero : u64_to_time 0 ≡ unix_seconds * nsec_per_sec
unfolding u64_to_time
u64_to_time-zero = omega arith
