-- ===== src/Ticker/Rounds.antt =====
-- The rounds in which a tick of a running peer is handled.
use native.Mathlib.Nat
use unistore.Base.{
  [], ◌∷◌, some, true, false, ℕ, ◌≡◌, suc, List, ◌≢◌, Bool, ◌∙◌, if◌then◌else◌, ◌==◌, Bool-cases,
  zero, ◌||◌, ◌&&◌, inl, arith, inr, refl, not, subst, sym, ap, ◌<◌, ◌-◌, ◌%◌, ◌+◌, ◌≤◌,
}
use unistore.Ticker.{
  run_if_on, Ticker, TickSchedule, tick_clock, next_run, schedule, is_on_tick, start_ticker,
  handle_tick, run_handlers, on_tick, tick_order, tick_check_merge, new_ticker,
}

-- The ticker after a number of rounds of a peer that is neither stopped nor about to be removed.
unfoldable pub after_rounds : ℕ → Ticker → Ticker
after_rounds zero t = t
after_rounds (suc n) t = (on_tick false false (after_rounds n t)).0

-- Whether a tick is among some.
unfoldable pub has_tick : ℕ → List ℕ → Bool
has_tick tp [] = false
has_tick tp (x ∷ xs) = tp == x || has_tick tp xs

-- Whether a tick is handled in the round after a number of rounds.
unfoldable pub handled_after : ℕ → ℕ → Ticker → Bool
handled_after tp n t = has_tick tp (on_tick false false (after_rounds n t)).1

-- A ticker after the handler of a tick, seen from another tick or the same one.
record TickStep (tp x : ℕ) (t t' : Ticker) : Type 0 where
  clock : t'.tick ≡ t.tick
  at :
      t'.schedules tp
      ≡ (if tp == x && is_on_tick tp t then next_run t.tick (t.schedules tp) else t.schedules tp)
  on : is_on_tick tp t' ≡ (not (tp == x) && is_on_tick tp t)

TickStep-refl : (tp x : ℕ) (t : Ticker) → (tp == x && is_on_tick tp t) ≡ false → TickStep tp x t t
TickStep-refl tp x t h = record { clock = refl; at = ground (arith, h); on = ground (arith, h) }

TickStep-schedule_other :
    (tp x : ℕ) (t : Ticker) → (tp == x) ≡ false → TickStep tp x t (schedule x t)
unfolding schedule is_on_tick
TickStep-schedule_other tp x t h = record {
  clock = refl;
  at = ground (arith, h);
  on = ground (arith, h);
}

TickStep-schedule_own :
    (tp : ℕ) (t : Ticker) → is_on_tick tp t ≡ true → TickStep tp tp t (schedule tp t)
TickStep-schedule_own tp t h = record {
  clock = unfold schedule in refl;
  at = unfold schedule in ground (arith, h);
  on = unfold schedule is_on_tick in ground arith;
}

run_if_on-TickStep :
    (tp x : ℕ) (t : Ticker) → tp ≢ tick_check_merge → TickStep tp x t (run_if_on false x t)
run_if_on-TickStep tp x t h = elim (Bool-cases (is_on_tick x t)) [
  | inr o ↦
      let r : run_if_on false x t ≡ t = unfold run_if_on in ground (arith, o) in
      let off : (tp == x && is_on_tick tp t) ≡ false = not_on tp x t o in
      subst (TickStep tp x t) (sym r) (TickStep-refl tp x t off)
  | inl o ↦ elim (Bool-cases (tp == x)) [
    | inl e ↦
        let same : tp ≡ x = ground (arith, e) in
        let r : run_if_on false x t ≡ schedule x t =
          unfold run_if_on handle_tick in ground (arith, o, h, same) in
        subst (TickStep tp x t) (sym r)
          (subst (λ y. TickStep y x t (schedule x t)) (sym same) (TickStep-schedule_own x t o))
    | inr e ↦ elim (Bool-cases (x == tick_check_merge)) [
      | inl m ↦
          let r : run_if_on false x t ≡ t = unfold run_if_on handle_tick in ground (arith, o, m) in
          subst (TickStep tp x t) (sym r) (TickStep-refl tp x t (ground (arith, e)))
      | inr m ↦
          let r : run_if_on false x t ≡ schedule x t =
            unfold run_if_on handle_tick in ground (arith, o, m) in
          subst (TickStep tp x t) (sym r) (TickStep-schedule_other tp x t e)
    ]
  ]
]
  where
    not_on : (tp x : ℕ) (t : Ticker) → is_on_tick x t ≡ false → (tp == x && is_on_tick tp t) ≡ false
    not_on tp x t o = elim (Bool-cases (tp == x)) [
      | inr e ↦ ground (arith, e)
      | inl e ↦
          let same : tp ≡ x = ground (arith, e) in
          let off : is_on_tick tp t ≡ false = ap (λ y. is_on_tick y t) same ∙ o in
          ground (arith, e, off)
    ]

record RoundEffect (tp : ℕ) (tps : List ℕ) (t : Ticker) : Type 0 where
  clock : (run_handlers false tps t).0.tick ≡ t.tick
  at : (run_handlers false tps t).0.schedules tp ≡ (
      if has_tick tp tps && is_on_tick tp t
      then next_run t.tick (t.schedules tp)
      else t.schedules tp)
  handled : has_tick tp (run_handlers false tps t).1 ≡ (has_tick tp tps && is_on_tick tp t)

run_handlers-RoundEffect :
    (tp : ℕ) (tps : List ℕ) (t : Ticker) → tp ≢ tick_check_merge → RoundEffect tp tps t
unfolding run_handlers has_tick
run_handlers-RoundEffect tp [] t h = record { clock = refl; at = refl; handled = refl }
run_handlers-RoundEffect tp (x ∷ tps) t h =
    let t1 = run_if_on false x t in
    let s = run_if_on-TickStep tp x t h in
    let ih = run_handlers-RoundEffect tp tps t1 h in
    record {
      clock = ih.clock ∙ s.clock;
      at = ground (arith, ih.at, s.at, s.on, s.clock);
      handled = ground (arith, ih.handled, s.on);
    }

-- A tick that is due at the next multiple of its interval.
record IsDue (tp i n : ℕ) (t : Ticker) : Type 0 where
  clock : t.tick ≡ n
  interval : (t.schedules tp).interval ≡ i
  run : (t.schedules tp).run_at ≡ some (n - n % i + i)

suc-mod : (n i : ℕ) → 0 < i → suc n % i ≡ (if suc (n % i) == i then 0 else suc (n % i))
suc-mod n i p =
    let e : suc n % i ≡ suc (n % i) % i = Nat.suc-mod n i in
    let l : n % i < i = Nat.mod-lt n p in
    elim (Bool-cases (suc (n % i) == i)) [
      | inl t ↦
          let same : suc (n % i) ≡ i = ground (arith, t) in
          let z : suc (n % i) % i ≡ 0 = ap (λ k. k % i) same ∙ Nat.mod_self i in
          ground (arith, t, e, z)
      | inr t ↦
          let less : suc (n % i) < i = ground (arith, t, l) in
          let z : suc (n % i) % i ≡ suc (n % i) = Nat.mod-eq_of_lt less in ground (arith, t, e, z)
    ]

round-IsDue :
    (tp i n : ℕ) (tps : List ℕ) (t : Ticker)
    → 0 < i
    → tp ≢ tick_check_merge
    → has_tick tp tps ≡ true
    → IsDue tp i n t
    → IsDue tp i (suc n) (run_handlers false tps (tick_clock t)).0
      × (has_tick tp (run_handlers false tps (tick_clock t)).1 ≡ (suc n % i == 0))
round-IsDue tp i n tps t p h m d =
    let r = run_handlers-RoundEffect tp tps (tick_clock t) h in
    let now : (tick_clock t).tick ≡ suc n = unfold tick_clock in omega (arith, d.clock) in
    let kept : (tick_clock t).schedules tp ≡ t.schedules tp = unfold tick_clock in refl in
    let e = suc-mod n i p in
    let l : n % i < i = grind arith in
    let le : n % i ≤ n = grind arith in
    let on : is_on_tick tp (tick_clock t) ≡ (suc n % i == 0) =
      unfold is_on_tick in ground (arith, d.run, kept, now, e) in
    let handled : has_tick tp (run_handlers false tps (tick_clock t)).1 ≡ (suc n % i == 0) =
      ground (arith, r.handled, m, on) in
    elim (Bool-cases (suc n % i == 0)) [
      | inl z ↦
          let s : (run_handlers false tps (tick_clock t)).0.schedules tp
              ≡ next_run (suc n) (t.schedules tp) =
            ground (arith, r.at, m, on, z, now, kept) in
          let z0 : suc n % i ≡ 0 = ground (arith, z) in
          (
            record {
              clock = r.clock ∙ now;
              interval = ap (λ (x : TickSchedule). x.interval) s ∙ d.interval;
              run = ap (λ (x : TickSchedule). x.run_at) s ∙ ground (arith, d.interval, z0);
            },
            handled,
          )
      | inr z ↦
          let s : (run_handlers false tps (tick_clock t)).0.schedules tp ≡ t.schedules tp =
            ground (arith, r.at, m, on, z, kept) in
          let q : n - n % i + i ≡ suc n - suc n % i + i = ground (arith, e, z, le) in
          (
            record {
              clock = r.clock ∙ now;
              interval = ap (λ (x : TickSchedule). x.interval) s ∙ d.interval;
              run = ap (λ (x : TickSchedule). x.run_at) s ∙ d.run ∙ ap some q;
            },
            handled,
          )
    ]

after_rounds-IsDue :
    (tp i n : ℕ) (t : Ticker)
    → 0 < i
    → tp ≢ tick_check_merge
    → has_tick tp tick_order ≡ true
    → IsDue tp i 0 t
    → IsDue tp i n (after_rounds n t)
unfolding after_rounds on_tick
after_rounds-IsDue tp i zero t p h m d = d
after_rounds-IsDue tp i (suc n) t p h m d =
    (round-IsDue tp i n tick_order (after_rounds n t) p h m (after_rounds-IsDue tp i n t p h m d)).0

started_lem :
    (intervals : ℕ → ℕ) (tp : ℕ)
    → tp < 6
    → tp ≢ tick_check_merge
    → 0 < (if tp == 0 then 1 else intervals tp)
    → IsDue tp (if tp == 0 then 1 else intervals tp) 0 (start_ticker intervals)
unfolding start_ticker new_ticker schedule
started_lem intervals tp small h p =
    let i = if tp == 0 then 1 else intervals tp in
    let s : (start_ticker intervals).schedules tp
        ≡ next_run 0 (record { run_at = some 0; interval = i }) =
      ground arith in
    let z : 0 % i ≡ 0 = grind arith in
    record {
      clock = refl;
      interval = ap (λ (x : TickSchedule). x.interval) s;
      run = ap (λ (x : TickSchedule). x.run_at) s ∙ ground (arith, p, z);
    }

-- After startTicker, a tick of a running peer other than that for merges, with an interval that
-- is not 0, is handled in exactly those rounds whose number is a multiple of its interval.
pub handled_after-start_ticker :
    (intervals : ℕ → ℕ) (tp n : ℕ)
    → tp < 6
    → tp ≢ tick_check_merge
    → 0 < (if tp == 0 then 1 else intervals tp)
    → handled_after tp n (start_ticker intervals)
      ≡ (suc n % (if tp == 0 then 1 else intervals tp) == 0)
unfolding handled_after on_tick
handled_after-start_ticker intervals tp n small h p =
    let i = if tp == 0 then 1 else intervals tp in
    let listed : has_tick tp tick_order ≡ true = unfold has_tick in ground arith in
    let started : IsDue tp i 0 (start_ticker intervals) = started_lem intervals tp small h p in
    (round-IsDue tp i n tick_order (after_rounds n (start_ticker intervals)) p h listed
      (after_rounds-IsDue tp i n (start_ticker intervals) p h listed started)).1
