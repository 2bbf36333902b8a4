-- ===== src/PeerStorage/ReadyLog.antt =====
-- The entries that are saved are the entries that are read.
use unistore.PeerStorage.{Engine}
use unistore.PeerStorage.Limit.{segment}
use unistore.PeerStorage.Ready.{
  run_writes, RaftWrite, run_write, put_entry, delete_from, delete_entry,
}
use unistore.Base.{
  ℕ, zero, suc, ◌+◌, ◌≤◌, ◌<◌, ◌≡◌, ◌⊎◌, inl, inr, refl, ap, subst, ◌==◌, List, [], ◌∷◌, ◌++◌, map,
  length, get_last_or, Option, none, some, arith, Bool-cases, ap₂,
}
use unistore.EntryCache.{Entry}
use unistore.EntryCache.Indexed.{From, entry_at, entry_at_below}

pub run_writes-append :
    (ws vs : List RaftWrite) (engine : Engine)
    → run_writes engine (ws ++ vs) ≡ run_writes (run_writes engine ws) vs
unfolding run_writes
run_writes-append [] vs engine = refl
run_writes-append (w ∷ ws) vs engine = run_writes-append ws vs (run_write engine w)

abbrev pub found_or : Option Entry → Option Entry → Option Entry
found_or none o = o
found_or (some e) o = some e

pub run_writes-put :
    (es : List Entry) (n i : ℕ) (engine : Engine)
    → From n es
    → run_writes engine (map put_entry es) i ≡ found_or (entry_at i es) (engine i)
unfolding run_writes run_write entry_at
run_writes-put [] n i engine f = refl
run_writes-put (e ∷ es) n i engine f = ground (
  arith,
  run_writes-put es (suc n) i (run_write engine (put_entry e)) f.1,
  entry_at_below (suc n) i es f.1,
)

pub run_writes-delete :
    (n j i : ℕ) (engine : Engine) → i < j → run_writes engine (delete_from j n) i ≡ engine i
unfolding run_writes run_write
run_writes-delete zero j i engine h = refl
run_writes-delete (suc n) j i engine h =
    ground (arith, run_writes-delete n (suc j) i (run_write engine (delete_entry j)))

pub index_of_entry_at : (i : ℕ) (es : List Entry) (e : Entry) → entry_at i es ≡ some e → e.index ≡ i
unfolding entry_at
index_of_entry_at i [] e h = absurd (cc)
index_of_entry_at i (x ∷ es) e h = ground (arith, index_of_entry_at i es e)

-- A list of consecutive entries is a segment of a log that has them.
pub segment_of_entry_at :
    (log : ℕ → Entry) (n : ℕ) (es : List Entry)
    → From n es
    → ((i : ℕ) → (entry_at i es ≡ none) ⊎ (entry_at i es ≡ some (log i)))
    → es ≡ segment log n (length es)
unfolding entry_at
segment_of_entry_at log n [] f h = refl
segment_of_entry_at log n (e ∷ es) f h =
    let head : e ≡ log n = elim (h n) [
      | inl p ↦ absurd (ground (arith, f.0))
      | inr p ↦ ground (arith, f.0)
    ] in
    ap₂ (λ x xs. x ∷ xs) head
      (segment_of_entry_at log (suc n) es f.1 (λ i. elim (Bool-cases (n == i)) [
        | inl p ↦ inl (entry_at_below (suc n) i es f.1 (ground arith))
        | inr p ↦ elim (h i) [
          | inl q ↦ inl (ground (arith, f.0))
          | inr q ↦ inr (ground (arith, f.0))
        ]
      ]))

pub From-segment :
    (log : ℕ → Entry) → ((i : ℕ) → (log i).index ≡ i) → (n k : ℕ) → From n (segment log n k)
From-segment log indexed n zero = tt
From-segment log indexed n (suc k) = (indexed n, From-segment log indexed (suc n) k)

pub entry_at-segment :
    (log : ℕ → Entry)
    → ((i : ℕ) → (log i).index ≡ i)
    → (n k i : ℕ)
    → (entry_at i (segment log n k) ≡ none) ⊎ (entry_at i (segment log n k) ≡ some (log i))
unfolding entry_at
entry_at-segment log indexed n zero i = inl refl
entry_at-segment log indexed n (suc k) i = elim (Bool-cases ((log n).index == i)) [
  | inl p ↦ inr (ground (arith, indexed n, ap (λ j. some (log j)) {x = n} {y = i}))
  | inr p ↦ elim (entry_at-segment log indexed (suc n) k i) [
    | inl q ↦ inl (ground arith)
    | inr q ↦ inr (ground arith)
  ]
]

pub entry_at-last :
    (n : ℕ) (e : Entry) (es : List Entry)
    → From n (e ∷ es)
    → entry_at (n + length es) (e ∷ es) ≡ some (get_last_or e es)
unfolding entry_at
entry_at-last n e [] f = ground (arith, f.0)
entry_at-last n e (x ∷ es) f =
    let next : suc n + length es ≡ n + length (x ∷ es) = omega arith in
    let rest =
      subst (λ i. entry_at i (x ∷ es) ≡ some (get_last_or x es)) next
        (entry_at-last (suc n) x es f.1) in
    ground (arith, rest, f.0)

pub entry_at_inside :
    (n i : ℕ) (es : List Entry)
    → From n es
    → n ≤ i
    → i < n + length es
    → (e : Entry) × (entry_at i es ≡ some e)
unfolding entry_at
entry_at_inside n i [] f l h = absurd (omega arith)
entry_at_inside n i (e ∷ es) f l h = elim (Bool-cases (e.index == i)) [
  | inl p ↦ (e, rw p refl)
  | inr p ↦
      let (x, q) = entry_at_inside (suc n) i es f.1 (ground (arith, f.0)) (omega arith) in
      (x, rw p q)
]

-- The log after entries were appended: they take the place of those from their first index on.
unfoldable pub appended : (ℕ → Entry) → List Entry → ℕ → Entry
appended log es i = elim (entry_at i es) [ some e ↦ e | none ↦ log i ]
