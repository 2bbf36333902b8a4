-- ===== src/Lease/Invariant.antt =====
-- What holds between a lease, its remote lease and the memory, and that each operation keeps it.
use unistore.Base.{
  ◌==◌, ℕ, ◌≤◌, ◌<◌, ◌≡◌, ◌⊎◌, Option, none, some, arith, inl, Bool-cases, inr, ltb, refl,
  Option-cases, subst, suc, sym, subst₂,
}
use unistore.Lease.{
  Lease, Memory, RemoteLease, u64_to_time, renew_bounds, new_lease, time_to_u64, expire_word,
  renew_word, store, maybe_new_remote_lease, expire_remote_lease, expire, suspect_lease,
  remote_time, renew, renew_remote_to, next_expired_time, time_sub, maybe_new_remote_to,
}
use unistore.Lease.Clock.{IsClock, u64_to_time-time_to_u64}

-- A bound that the lease is valid until.
abbrev pub Covers : Lease → ℕ → Type 0
Covers l w = (b : ℕ) × (l.bound_suspect ≡ none) × (l.bound_valid ≡ some b) × (u64_to_time w ≤ b)

abbrev pub OnBound : Option ℕ → Type 0
OnBound none = Unit {0}
OnBound (some b) = IsClock b

abbrev pub Owns : Option RemoteLease → ℕ → Type 0
Owns none a = ⊥
Owns (some r) a = r.expired_time ≡ a

pub record Inv (l : Lease) (m : Memory) : Type 0 where
  -- The two bounds are never set together.
  pub apart : (l.bound_suspect ≡ none) ⊎ (l.bound_valid ≡ none)
  pub clock : OnBound l.bound_valid
  -- A word that is not expired is that of the current remote lease, and is within the bound.
  pub covered : (a : ℕ) → (m.word a ≡ 0) ⊎ (Owns l.remote a × Covers l (m.word a))
  -- The current remote lease has a word that was given out.
  pub allocated : (a : ℕ) → Owns l.remote a → a < m.next

pub new_lease-Inv :
    (max_lease : ℕ) (m : Memory) → ((a : ℕ) → m.word a ≡ 0) → Inv (new_lease max_lease) m
unfolding new_lease
new_lease-Inv max_lease m zero = record {
  apart = inl refl;
  clock = tt;
  covered = λ a. inl (zero a);
  allocated = λ a h. absurd h;
}

Covers-renew_bounds : (l : Lease) (bound w : ℕ) → Covers l w → Covers (renew_bounds l bound) w
unfolding renew_bounds
Covers-renew_bounds l bound w (b, s, v, h) = elim (Bool-cases (ltb b bound)) [
  | inl p ↦ (bound, ground arith, ground arith, ground arith)
  | inr p ↦ (b, ground arith, ground arith, h)
]

renew_bounds-Inv :
    (l : Lease) (m : Memory) (bound : ℕ) → IsClock bound → Inv l m → Inv (renew_bounds l bound) m
unfolding renew_bounds
renew_bounds-Inv l m bound h v = record {
  apart = ground (arith, v.apart);
  clock = ground (arith, v.clock);
  covered = λ a. elim (v.covered a) [
    | inl z ↦ inl z
    | inr (o, c) ↦ inr (ground arith, Covers-renew_bounds l bound (m.word a) c)
  ];
  allocated = λ a o. ground (arith, v.allocated a);
}

-- Writing to the remote's word a time within the bound.
renew_word-covered :
    (l : Lease) (m : Memory) (v b : ℕ)
    → l.bound_suspect ≡ none
    → l.bound_valid ≡ some b
    → u64_to_time (time_to_u64 v) ≤ b
    → ((a : ℕ) → (m.word a ≡ 0) ⊎ (Owns l.remote a × Covers l (m.word a)))
    → (a : ℕ)
    → ((renew_word l.remote m v).word a ≡ 0)
      ⊎ (Owns l.remote a × Covers l ((renew_word l.remote m v).word a))
renew_word-covered l m v b s e h c a = elim (Option-cases l.remote) [
  | inl p ↦ rw p (rw p at (c a))
  | inr (r, p) ↦ rw p (renew_some r (rw p at (c a)))
]
  where
    renew_some :
        (r : RemoteLease)
        → (m.word a ≡ 0) ⊎ ((r.expired_time ≡ a) × Covers l (m.word a))
        → ((store m r.expired_time (time_to_u64 v)).word a ≡ 0)
          ⊎ ((r.expired_time ≡ a) × Covers l ((store m r.expired_time (time_to_u64 v)).word a))
    renew_some r old = elim (Bool-cases (a == r.expired_time)) [
      | inl q ↦ rw q (inr (ground arith, (b, s, e, h)))
      | inr q ↦ rw q old
    ]

renew_word-next : (o : Option RemoteLease) (m : Memory) (v : ℕ) → (renew_word o m v).next ≡ m.next
renew_word-next none m v = refl
renew_word-next (some r) m v = refl

renew_remote_to-Inv :
    (o : Option ℕ) (l : Lease) (m : Memory)
    → o ≡ l.bound_valid
    → Inv l m
    → Inv (renew_remote_to o l m).0 (renew_remote_to o l m).1
unfolding renew_remote_to
renew_remote_to-Inv none l m e v = v
renew_remote_to-Inv (some b) l m e v =
    elim (Bool-cases (ltb l.max_drift (time_sub b l.last_update))) [
      | inr p ↦ rw p v
      | inl p ↦ rw p (record {
        apart = v.apart;
        clock = v.clock;
        covered =
            renew_word-covered l m b b s (sym e)
              (u64_to_time-time_to_u64 b (subst OnBound (sym e) v.clock)).0 v.covered;
        allocated =
            λ a o. subst (λ n. a < n) (sym (renew_word-next l.remote m b)) (v.allocated a o);
      })
    ]
  where
    s : l.bound_suspect ≡ none
    s = ground (arith, v.apart)

expire_word-covered :
    (o : Option RemoteLease) (m : Memory) (a : ℕ)
    → (m.word a ≡ 0) ⊎ Owns o a
    → (expire_word o m).word a ≡ 0
expire_word-covered none m a (inl z) = z
expire_word-covered none m a (inr h) = absurd h
expire_word-covered (some r) m a h = ground (arith, h)

-- Without a remote lease all words are expired.
no_remote-Inv :
    (l : Lease) (m : Memory)
    → (l.bound_suspect ≡ none) ⊎ (l.bound_valid ≡ none)
    → OnBound l.bound_valid
    → l.remote ≡ none
    → ((a : ℕ) → m.word a ≡ 0)
    → Inv l m
no_remote-Inv l m apart clock e zero = record {
  apart = apart;
  clock = clock;
  covered = λ a. inl (zero a);
  allocated = λ a o. absurd (subst (λ r. Owns r a) e o);
}

pub expired_words :
    (l : Lease) (m : Memory) → Inv l m → (a : ℕ) → (expire_word l.remote m).word a ≡ 0
expired_words l m v a =
    expire_word-covered l.remote m a (elim (v.covered a) [ inl z ↦ inl z | inr (o, c) ↦ inr o ])

-- Renew keeps the invariant between a lease, its remote leases and their words, for a bound on
-- the clock.
pub renew-Inv :
    (l : Lease) (m : Memory) (send_ts : ℕ)
    → IsClock (next_expired_time l send_ts)
    → Inv l m
    → Inv (renew l m send_ts).0 (renew l m send_ts).1
unfolding renew
renew-Inv l m send_ts h v =
    let bound = next_expired_time l send_ts in
    renew_remote_to-Inv (renew_bounds l bound).bound_valid (renew_bounds l bound) m refl
      (renew_bounds-Inv l m bound h v)

pub suspect_lease-Inv :
    (l : Lease) (m : Memory) (send_ts : ℕ)
    → Inv l m
    → Inv (suspect_lease l m send_ts).0 (suspect_lease l m send_ts).1
unfolding suspect_lease
suspect_lease-Inv l m send_ts v = no_remote-Inv _ _ (inr refl) tt refl (expired_words l m v)

pub expire-Inv : (l : Lease) (m : Memory) → Inv l m → Inv (expire l m).0 (expire l m).1
unfolding expire
expire-Inv l m v = no_remote-Inv _ _ (inl refl) tt refl (expired_words l m v)

pub expire_remote_lease-Inv :
    (l : Lease) (m : Memory) → Inv l m → Inv (expire_remote_lease l m).0 (expire_remote_lease l m).1
unfolding expire_remote_lease
expire_remote_lease-Inv l m v = no_remote-Inv _ _ v.apart v.clock refl (expired_words l m v)

-- What a new remote lease starts with.
remote_time-covered :
    (o : Option ℕ) (l : Lease)
    → o ≡ l.bound_valid
    → OnBound o
    → (l.bound_suspect ≡ none) ⊎ (l.bound_valid ≡ none)
    → (remote_time o ≡ 0) ⊎ Covers l (remote_time o)
remote_time-covered none l e h apart = inl refl
remote_time-covered (some b) l e h apart =
    inr (b, ground (arith, apart), sym e, (u64_to_time-time_to_u64 b h).0)

new_remote-Inv :
    (l : Lease) (m : Memory) (r : RemoteLease)
    → r.expired_time ≡ m.next
    → l.remote ≡ none
    → Inv l m
    → Inv
        (record l { remote = some r })
        (record (store m m.next (remote_time l.bound_valid)) { next = suc m.next })
new_remote-Inv l m r e none_before v = record {
  apart = v.apart;
  clock = v.clock;
  covered = λ a. elim (Bool-cases (a == m.next)) [
    | inl p ↦ rw p (elim (remote_time-covered l.bound_valid l refl v.clock v.apart) [
      | inl z ↦ inl z
      | inr c ↦ inr (ground arith, c)
    ])
    | inr p ↦ rw p (elim (v.covered a) [
      | inl z ↦ inl z
      | inr (o, c) ↦ absurd (subst (λ r. Owns r a) none_before o)
    ])
  ];
  allocated = λ a o. omega arith;
}

maybe_new_remote_to-Inv :
    (r : Option RemoteLease) (l : Lease) (m : Memory) (term : ℕ) (l' : Lease) (m' : Memory)
    (o : Option RemoteLease)
    → r ≡ l.remote
    → maybe_new_remote_to r l m term ≡ some (l', m', o)
    → Inv l m
    → Inv l' m'
unfolding maybe_new_remote_to
maybe_new_remote_to-Inv (some r) l m term l' m' o q e v = elim (Bool-cases (r.term == term)) [
  | inl p ↦ subst₂ Inv (ground arith) (ground arith) v
  | inr p ↦ absurd (ground arith)
]
maybe_new_remote_to-Inv none l m term l' m' o q e v =
    let remote : RemoteLease = record { expired_time = m.next; term = term } in
    subst₂ Inv (cc) (cc) (new_remote-Inv l m remote refl (sym q) v)

pub maybe_new_remote_lease-Inv :
    (l : Lease) (m : Memory) (term : ℕ) (l' : Lease) (m' : Memory) (o : Option RemoteLease)
    → maybe_new_remote_lease l m term ≡ some (l', m', o)
    → Inv l m
    → Inv l' m'
unfolding maybe_new_remote_lease
maybe_new_remote_lease-Inv l m term l' m' o e v =
    maybe_new_remote_to-Inv l.remote l m term l' m' o refl e v
