-- ===== src/Lease.antt =====
-- raftstore/util.go: the leader's lease and the remote leases that local readers hold.
-- A time is the number of nanoseconds since Go's zero time, which is `time.Time{}`. A remote lease
-- holds a pointer to its expiry time, which the lease shares with the copies that it gave away: the
-- pointers are addresses in a memory.
pub mod Clock
pub mod Invariant
pub mod History
use unistore.Base.{
  ℕ, suc, ◌+◌, ◌-◌, ◌*◌, ◌/◌, ◌%◌, ◌^◌, min, ltb, ◌==◌, Bool, true, false, if◌then◌else◌, Option,
  none, some, List, [], ◌∷◌,
}
use unistore.Base.Partial.{◌>>=◌}

pub data LeaseState : Type 0 where
  suspect valid expired : LeaseState

pub record RemoteLease : Type 0 where
  pub expired_time : ℕ
  pub term : ℕ

pub record Lease : Type 0 where
  pub bound_suspect : Option ℕ
  pub bound_valid : Option ℕ
  pub max_lease : ℕ
  pub max_drift : ℕ
  pub last_update : ℕ
  pub remote : Option RemoteLease

-- The words that remote leases point to, and the next address that is free.
pub record Memory : Type 0 where
  pub word : ℕ → ℕ
  pub next : ℕ

abbrev pub store : Memory → ℕ → ℕ → Memory
store m address v = record m { word = λ a. if a == address then v else m.word a }

-- Seconds from Go's zero time to the Unix epoch, and nanoseconds in a second and a millisecond.
abbrev pub unix_seconds : ℕ
unix_seconds = 62135596800

abbrev pub nsec_per_sec : ℕ
nsec_per_sec = 1000000000

abbrev pub nsec_per_msec : ℕ
nsec_per_msec = 1000000

abbrev pub sec_shift : ℕ
sec_shift = 10

-- `t.Unix()` before 1970 is negative and wraps. `sec | msec` is the sum: the low ten bits of `sec`
-- are zero after the shift, and a second has fewer than 1024 milliseconds.
unfoldable pub time_to_u64 : ℕ → ℕ
time_to_u64 t =
    let sec = (t / nsec_per_sec + 2 ^ 64 - unix_seconds) % 2 ^ 64 in
    let msec = t % nsec_per_sec / nsec_per_msec in sec * 2 ^ sec_shift % 2 ^ 64 + msec

unfoldable pub u64_to_time : ℕ → ℕ
u64_to_time u =
    let sec = u / 2 ^ sec_shift in
    let nsec = u % 2 ^ sec_shift * nsec_per_msec in (unix_seconds + sec) * nsec_per_sec + nsec

unfoldable pub new_lease : ℕ → Lease
new_lease max_lease = record {
  bound_suspect = none;
  bound_valid = none;
  max_lease = max_lease;
  max_drift = max_lease / 3;
  last_update = 0;
  remote = none;
}

abbrev pub next_expired_time : Lease → ℕ → ℕ
next_expired_time l send_ts = send_ts + l.max_lease

-- `Time.Sub`, which stops at the largest duration. A negative difference is 0 here: it is compared
-- with a duration that is not negative.
abbrev pub time_sub : ℕ → ℕ → ℕ
time_sub t u = min (t - u) (2 ^ 63 - 1)

-- The first part of `Renew`: the bounds.
unfoldable pub renew_bounds : Lease → ℕ → Lease
renew_bounds l bound = elim l.bound_suspect [
  | some s ↦ if ltb s bound then record l { bound_suspect = none; bound_valid = some bound } else l
  | none ↦ elim l.bound_valid [
    | some v ↦ if ltb v bound then record l { bound_valid = some bound } else l
    | none ↦ record l { bound_valid = some bound }
  ]
]

abbrev pub renew_word : Option RemoteLease → Memory → ℕ → Memory
renew_word none m bound = m
renew_word (some r) m bound = store m r.expired_time (time_to_u64 bound)

-- The second part of `Renew`: the remote lease, if the bound has moved far enough.
unfoldable pub renew_remote_to : Option ℕ → Lease → Memory → Lease × Memory
unfolding time_to_u64
renew_remote_to none l m = (l, m)
renew_remote_to (some v) l m =
    if ltb l.max_drift (time_sub v l.last_update)
    then (record l { last_update = v }, renew_word l.remote m v)
    else (l, m)

unfoldable pub renew_remote : Lease → Memory → Lease × Memory
unfolding renew_remote_to
renew_remote l m = renew_remote_to l.bound_valid l m

unfoldable pub renew : Lease → Memory → ℕ → Lease × Memory
unfolding renew_bounds renew_remote
renew l m send_ts = renew_remote (renew_bounds l (next_expired_time l send_ts)) m

abbrev pub expire_word : Option RemoteLease → Memory → Memory
expire_word none m = m
expire_word (some r) m = store m r.expired_time 0

unfoldable pub expire_remote_lease : Lease → Memory → Lease × Memory
expire_remote_lease l m = (record l { remote = none }, expire_word l.remote m)

unfoldable pub suspect_lease : Lease → Memory → ℕ → Lease × Memory
unfolding expire_remote_lease
suspect_lease l m send_ts =
    let bound = next_expired_time l send_ts in
    let (l', m') = expire_remote_lease l m in
    (record l' { bound_valid = none; bound_suspect = some bound }, m')

unfoldable pub inspect : Lease → ℕ → LeaseState
inspect l ts = elim l.bound_suspect [
  | some s ↦ suspect
  | none ↦ elim l.bound_valid [ some v ↦ if ltb ts v then valid else expired | none ↦ expired ]
]

unfoldable pub expire : Lease → Memory → Lease × Memory
unfolding expire_remote_lease
expire l m =
    let (l', m') = expire_remote_lease l m in
    (record l' { bound_valid = none; bound_suspect = none }, m')

-- The expiry time that a new remote lease starts with.
abbrev pub remote_time : Option ℕ → ℕ
remote_time none = 0
remote_time (some v) = time_to_u64 v

-- The lease keeps one remote lease and returns the other; both point to one new word. `none` is the
-- panic on a remote lease of another term.
unfoldable pub maybe_new_remote_to :
    Option RemoteLease → Lease → Memory → ℕ → Option (Lease × Memory × Option RemoteLease)
unfolding time_to_u64
maybe_new_remote_to (some r) l m term = if r.term == term then some (l, m, none) else none
maybe_new_remote_to none l m term =
    let remote : RemoteLease = record { expired_time = m.next; term = term } in
    some (
      record l { remote = some remote },
      record (store m m.next (remote_time l.bound_valid)) { next = suc m.next },
      some remote,
    )

unfoldable pub maybe_new_remote_lease :
    Lease → Memory → ℕ → Option (Lease × Memory × Option RemoteLease)
unfolding maybe_new_remote_to
maybe_new_remote_lease l m term = maybe_new_remote_to l.remote l m term

unfoldable pub inspect_remote : RemoteLease → Memory → ℕ → LeaseState
unfolding u64_to_time
inspect_remote r m ts = if ltb ts (u64_to_time (m.word r.expired_time)) then valid else expired
