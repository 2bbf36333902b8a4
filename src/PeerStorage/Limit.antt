-- ===== src/PeerStorage/Limit.antt =====
-- The specification of a read: the entries of a range, as far as the size limit allows.
use unistore.Base.{
  ℕ, zero, suc, ◌+◌, ◌<◌, ◌≡◌, refl, leb, ◌==◌, if◌then◌else◌, ◌||◌, List, [], ◌∷◌, ◌++◌, length,
  arith, ap₂, ap, ◌∙◌,
}
use unistore.EntryCache.{Entry}

module _ (log : ℕ → Entry) where
  -- The entries from index `i` on, `k` of them.
  abbrev pub segment : ℕ → ℕ → List Entry
  segment i zero = []
  segment i (suc k) = log i ∷ segment (suc i) k

  pub length-segment : (i k : ℕ) → length (segment i k) ≡ k
  length-segment i zero = refl
  length-segment i (suc k) = omega (arith, length-segment (suc i) k)

  pub segment-append : (i k j : ℕ) → segment i (k + j) ≡ segment i k ++ segment (i + k) j
  segment-append i zero j = ap₂ segment (omega arith) (omega arith)
  segment-append i (suc k) j =
      ap (segment i) (let e : suc k + j ≡ suc (k + j) = omega arith in e)
      ∙ ap (λ t. log i ∷ t)
          (segment-append (suc i) k j ∙ ap (λ n. segment (suc i) k ++ segment n j) (omega arith))

module _ (size : Entry → ℕ) (max_size : ℕ) where
  -- The first entry, and more while the total stays within the limit.
  unfoldable pub limited : ℕ → List Entry → List Entry
  limited total [] = []
  limited total (e ∷ es) =
      let rest = limited (total + size e) es in
      if total == 0 || leb (total + size e) max_size then e ∷ rest else []

  pub limited_over :
      (total : ℕ) (es : List Entry)
      → ((e : Entry) → 0 < size e)
      → 0 < total
      → max_size < total
      → limited total es ≡ []
  unfolding limited
  limited_over total [] pos h k = refl
  limited_over total (e ∷ es) pos h k = ground arith
