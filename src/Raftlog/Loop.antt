-- ===== src/Raftlog/Loop.antt =====
-- The loops over the entries end, and they read back what was written.
use unistore.Base.{
  ℕ, zero, suc, ◌≤◌, ◌<◌, ◌≡◌, ◌≢◌, refl, List, [], ◌∷◌, All, length, Bytes, Outcome, ok, err,
  panic, Option, some, arith, Option-cases, inl, inr, ◌∙◌,
}
use unistore.Raftlog.{Stuck, out_of_fuel, iterate}

abbrev cons_outcome {ℓ} : {A : Type ℓ} → A → Outcome Stuck (List A) → Outcome Stuck (List A)
cons_outcome a (ok entries) = ok (a ∷ entries)
cons_outcome a (err e) = err e
cons_outcome a panic = panic

elim_outcome {ℓ} :
    {A : Type ℓ} (a : A) (o : Outcome Stuck (List A))
    → (elim o [ ok entries ↦ ok (a ∷ entries) | err e ↦ err e | panic ↦ panic ]) ≡ cons_outcome a o
elim_outcome a (ok entries) = refl
elim_outcome a (err e) = refl
elim_outcome a panic = refl

module _ {ℓ} {A : Type ℓ} (read : Bytes → Option (A × Bytes)) where
  -- Each round takes a byte at least.
  abbrev pub Takes : Type ℓ
  Takes = (bs : Bytes) (a : A) (rest : Bytes) → read bs ≡ some (a, rest) → length rest < length bs

  pub iterate-ne-stuck :
      Takes → (fuel : ℕ) (bs : Bytes) → length bs ≤ fuel → iterate read fuel bs ≢ err out_of_fuel
  unfolding iterate
  iterate-ne-stuck takes fuel [] h e = cc
  iterate-ne-stuck takes zero (b ∷ bs) h e = absurd (omega arith)
  iterate-ne-stuck takes (suc fuel) (b ∷ bs) h e = elim (Option-cases (read (b ∷ bs))) [
    | inl p ↦ ground arith
    | inr ((a, rest), p) ↦ ground (arith, takes (b ∷ bs) a rest p, iterate-ne-stuck takes fuel rest)
  ]

  iterate_step :
      (fuel : ℕ) (bs : Bytes) (a : A) (rest : Bytes)
      → read bs ≡ some (a, rest)
      → 0 < length bs
      → iterate read (suc fuel) bs ≡ cons_outcome a (iterate read fuel rest)
  unfolding iterate
  iterate_step fuel [] a rest p h = absurd (omega arith)
  iterate_step fuel (b ∷ bs) a rest p h = rw (p, iterate) (elim_outcome a (iterate read fuel rest))

  -- `write` puts an entry in front of the rest, and `read` takes it off again.
  module _ (write : A → Bytes → Bytes) where
    abbrev pub Reads : A → Type ℓ
    Reads a =
        (rest : Bytes)
        → (read (write a rest) ≡ some (a, rest)) × (length rest < length (write a rest))

    abbrev pub written : List A → Bytes
    written [] = []
    written (a ∷ as') = write a (written as')

    pub iterate-written :
        (entries : List A) (fuel : ℕ)
        → All Reads entries
        → length (written entries) ≤ fuel
        → iterate read fuel (written entries) ≡ ok entries
    unfolding iterate
    iterate-written [] fuel h k = refl
    iterate-written (a ∷ as') zero h k = absurd (omega (arith, (h.0 (written as')).1))
    iterate-written (a ∷ as') (suc fuel) h k =
        let (p, q) = h.0 (written as') in
        iterate_step fuel (write a (written as')) a (written as') p (omega arith)
        ∙ rw (iterate-written as' fuel h.1 (omega arith)) refl
