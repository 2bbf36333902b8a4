-- ===== src/Lease/History.antt =====
-- Any sequence of calls on one lease, from its creation on.
use unistore.Lease.Clock.{IsClock, u64_to_time-zero}
use unistore.Base.{
  ℕ, ◌+◌, ◌*◌, ◌≤◌, ◌<◌, ◌≡◌, refl, ◌⊎◌, inl, inr, List, [], ◌∷◌, Option, none, some, arith, All,
  subst, subst₂, Option-cases, sym, ◌↔◌, ◌∙◌,
}
use unistore.Base.Partial.{◌>>=◌}
use unistore.Lease.{
  Lease, Memory, RemoteLease, suspect, valid, expired, unix_seconds, nsec_per_sec, renew,
  suspect_lease, expire, expire_remote_lease, maybe_new_remote_lease, inspect, inspect_remote,
  new_lease,
}
use unistore.Lease.Invariant.{
  Inv, renew-Inv, suspect_lease-Inv, expire-Inv, expire_remote_lease-Inv,
  maybe_new_remote_lease-Inv, new_lease-Inv, expired_words,
}

pub data Call : Type 0 where
  renews suspects : ℕ → Call
  expires expires_remote : Call
  asks_remote : ℕ → Call

unfoldable pub step : Lease × Memory → Call → Option (Lease × Memory)
step (l, m) (renews ts) = some (renew l m ts)
step (l, m) (suspects ts) = some (suspect_lease l m ts)
step (l, m) expires = some (expire l m)
step (l, m) expires_remote = some (expire_remote_lease l m)
step (l, m) (asks_remote term) = do (l', m', _) ← maybe_new_remote_lease l m term; some (l', m')

unfoldable pub run : Lease × Memory → List Call → Option (Lease × Memory)
unfolding step
run s [] = some s
run s (c ∷ cs) = do s' ← step s c; run s' cs

-- The renewals end at times on the clock.
abbrev pub OnClock : ℕ → Call → Type 0
OnClock max_lease (renews ts) = IsClock (ts + max_lease)
OnClock max_lease _ = Unit {0}

step-max_lease :
    (l : Lease) (m : Memory) (c : Call) (l' : Lease) (m' : Memory)
    → step (l, m) c ≡ some (l', m')
    → l'.max_lease ≡ l.max_lease
unfolding step
step-max_lease l m (renews ts) l' m' e = unfold renew in ground arith
step-max_lease l m (suspects ts) l' m' e = unfold suspect_lease in ground arith
step-max_lease l m expires l' m' e = unfold expire in ground arith
step-max_lease l m expires_remote l' m' e = unfold expire_remote_lease in ground arith
step-max_lease l m (asks_remote term) l' m' e = unfold maybe_new_remote_lease in ground arith

step-Inv :
    (l : Lease) (m : Memory) (c : Call) (l' : Lease) (m' : Memory)
    → OnClock l.max_lease c
    → step (l, m) c ≡ some (l', m')
    → Inv l m
    → Inv l' m'
unfolding step
step-Inv l m (renews ts) l' m' h e v = subst₂ Inv (cc) (cc) (renew-Inv l m ts h v)
step-Inv l m (suspects ts) l' m' h e v = subst₂ Inv (cc) (cc) (suspect_lease-Inv l m ts v)
step-Inv l m expires l' m' h e v = subst₂ Inv (cc) (cc) (expire-Inv l m v)
step-Inv l m expires_remote l' m' h e v = subst₂ Inv (cc) (cc) (expire_remote_lease-Inv l m v)
step-Inv l m (asks_remote term) l' m' h e v =
    elim (Option-cases (maybe_new_remote_lease l m term)) [
      | inl p ↦ absurd (ground arith)
      | inr ((l1, m1, o), p) ↦ maybe_new_remote_lease-Inv l m term l' m' o (p ∙ ground arith) v
    ]

run-Inv :
    (cs : List Call) (l : Lease) (m : Memory) (l' : Lease) (m' : Memory)
    → All (OnClock l.max_lease) cs
    → run (l, m) cs ≡ some (l', m')
    → Inv l m
    → Inv l' m'
unfolding run
run-Inv [] l m l' m' h e v = subst₂ Inv (cc) (cc) v
run-Inv (c ∷ cs) l m l' m' h e v = elim (Option-cases (step (l, m) c)) [
  | inl p ↦ absurd (ground arith)
  | inr ((l1, m1), p) ↦
      run-Inv cs l1 m1 l' m'
        (subst (λ n. All (OnClock n) cs) (sym (step-max_lease l m c l1 m1 p)) h.1) (ground arith)
        (step-Inv l m c l1 m1 h.0 p v)
]

-- A local reader that holds any remote lease which was ever given out finds it valid only while
-- the leader's own lease is valid.
pub remote_within_lease :
    (l : Lease) (m : Memory) (r : RemoteLease) (ts : ℕ)
    → unix_seconds * nsec_per_sec ≤ ts
    → Inv l m
    → inspect_remote r m ts ≡ valid
    → inspect l ts ≡ valid
unfolding inspect_remote inspect
remote_within_lease l m r ts h v e = elim (v.covered r.expired_time) [
  | inl z ↦ ground (arith, u64_to_time-zero)
  | inr (o, (b, s, q, k)) ↦ ground arith
]

-- After every history of calls on a new lease whose renewals end at times on the clock, a remote
-- lease that inspects as valid at a time from 1970 on implies that the leader's lease is valid at
-- that time.
pub run-remote_within_lease :
    (max_lease : ℕ) (m : Memory) (cs : List Call) (l' : Lease) (m' : Memory) (r : RemoteLease)
    (ts : ℕ)
    → ((a : ℕ) → m.word a ≡ 0)
    → All (OnClock max_lease) cs
    → unix_seconds * nsec_per_sec ≤ ts
    → run (new_lease max_lease, m) cs ≡ some (l', m')
    → inspect_remote r m' ts ≡ valid
    → inspect l' ts ≡ valid
unfolding new_lease
run-remote_within_lease max_lease m cs l' m' r ts zero h k e v =
    remote_within_lease l' m' r ts k
      (run-Inv cs (new_lease max_lease) m l' m' h e (new_lease-Inv max_lease m zero)) v

-- After Expire or Suspect in a state that keeps the invariant every remote lease inspects as
-- expired from 1970 on, and the lease as expired or suspect.
pub expire-inspect_remote :
    (l : Lease) (m : Memory) (r : RemoteLease) (send_ts ts : ℕ)
    → unix_seconds * nsec_per_sec ≤ ts
    → Inv l m
    → (inspect_remote r (expire l m).1 ts ≡ expired)
      × (inspect_remote r (suspect_lease l m send_ts).1 ts ≡ expired)
      × (inspect (expire l m).0 ts ≡ expired)
      × (inspect (suspect_lease l m send_ts).0 ts ≡ suspect)
unfolding expire suspect_lease inspect inspect_remote
expire-inspect_remote l m r send_ts ts h v =
    let zero = expired_words l m v r.expired_time in
    (ground (arith, zero, u64_to_time-zero), ground (arith, zero, u64_to_time-zero), refl, refl)

-- A renewed valid lease is valid exactly until the later of its old and its new bound.
inspect-renew :
    (l : Lease) (m : Memory) (send_ts ts b : ℕ)
    → l.bound_suspect ≡ none
    → l.bound_valid ≡ some b
    → (inspect (renew l m send_ts).0 ts ≡ valid) ↔ ((ts < b) ⊎ (ts < send_ts + l.max_lease))
unfolding inspect renew
inspect-renew l m send_ts ts b s v = ground arith

-- A suspected lease becomes valid by renewal exactly if the new bound is beyond the suspect time,
-- and until that bound.
pub inspect-renew_suspect :
    (l : Lease) (m : Memory) (send_ts ts s : ℕ)
    → l.bound_suspect ≡ some s
    → (inspect (renew l m send_ts).0 ts ≡ valid)
      ↔ ((s < send_ts + l.max_lease) × (ts < send_ts + l.max_lease))
unfolding inspect renew
inspect-renew_suspect l m send_ts ts s e = ground arith
