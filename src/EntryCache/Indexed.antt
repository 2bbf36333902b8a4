-- ===== src/EntryCache/Indexed.antt =====
-- Lists of entries with consecutive indexes.
use unistore.Base.{
  ℕ, zero, suc, ◌+◌, ◌≤◌, ◌<◌, ◌≡◌, refl, ltb, ◌==◌, if◌then◌else◌, List, [], ◌∷◌, ◌++◌, length,
  take, drop, get_last_or, Option, none, some, arith, subst,
}
use unistore.EntryCache.{Entry}

abbrev pub From : ℕ → List Entry → Type 0
From n [] = Unit {0}
From n (e ∷ es) = (e.index ≡ n) × From (suc n) es

-- The entry with an index.
unfoldable pub entry_at : ℕ → List Entry → Option Entry
entry_at i [] = none
entry_at i (e ∷ es) = if e.index == i then some e else entry_at i es

pub From-append :
    (n : ℕ) (xs ys : List Entry) → From n xs → From (n + length xs) ys → From n (xs ++ ys)
From-append n [] ys h k = subst (λ m. From m ys) (omega arith) k
From-append n (x ∷ xs) ys h k =
    (h.0, From-append (suc n) xs ys h.1 (subst (λ m. From m ys) (omega arith) k))

pub From-take : (n k : ℕ) (xs : List Entry) → From n xs → From n (take k xs)
From-take n zero xs h = tt
From-take n (suc k) [] h = tt
From-take n (suc k) (x ∷ xs) h = (h.0, From-take (suc n) k xs h.1)

pub From-drop : (n k : ℕ) (xs : List Entry) → From n xs → From (n + k) (drop k xs)
From-drop n zero xs h = subst (λ m. From m xs) (omega arith) h
From-drop n (suc k) [] h = tt
From-drop n (suc k) (x ∷ xs) h =
    subst (λ m. From m (drop k xs)) (omega arith) (From-drop (suc n) k xs h.1)

pub From-last :
    (n : ℕ) (e : Entry) (es : List Entry)
    → From n (e ∷ es)
    → (get_last_or e es).index ≡ n + length es
From-last n e [] h = omega arith
From-last n e (x ∷ xs) h = omega (arith, From-last (suc n) x xs h.1)

pub entry_at_below : (n i : ℕ) (xs : List Entry) → From n xs → i < n → entry_at i xs ≡ none
unfolding entry_at
entry_at_below n i [] h k = refl
entry_at_below n i (x ∷ xs) h k = ground (arith, entry_at_below (suc n) i xs h.1)

pub entry_at_above :
    (n i : ℕ) (xs : List Entry) → From n xs → n + length xs ≤ i → entry_at i xs ≡ none
unfolding entry_at
entry_at_above n i [] h k = refl
entry_at_above n i (x ∷ xs) h k = ground (arith, entry_at_above (suc n) i xs h.1)

pub entry_at-take :
    (n k i : ℕ) (xs : List Entry)
    → From n xs
    → entry_at i (take k xs) ≡ (if ltb i (n + k) then entry_at i xs else none)
unfolding entry_at
entry_at-take n zero i xs h = ground (arith, entry_at_below n i xs h)
entry_at-take n (suc k) i [] h = ground arith
entry_at-take n (suc k) i (x ∷ xs) h = ground (arith, entry_at-take (suc n) k i xs h.1)

pub entry_at-drop :
    (n k i : ℕ) (xs : List Entry)
    → From n xs
    → entry_at i (drop k xs) ≡ (if ltb i (n + k) then none else entry_at i xs)
unfolding entry_at
entry_at-drop n zero i xs h = ground (arith, entry_at_below n i xs h)
entry_at-drop n (suc k) i [] h = ground arith
entry_at-drop n (suc k) i (x ∷ xs) h =
    ground (arith, entry_at-drop (suc n) k i xs h.1, entry_at_below (suc n) i xs h.1)

pub entry_at-append :
    (n i : ℕ) (xs ys : List Entry)
    → From n xs
    → From (n + length xs) ys
    → entry_at i (xs ++ ys) ≡ (if ltb i (n + length xs) then entry_at i xs else entry_at i ys)
unfolding entry_at
entry_at-append n i [] ys h k = ground (arith, entry_at_below (n + 0) i ys k)
entry_at-append n i (x ∷ xs) ys h k = ground (
  arith,
  entry_at-append (suc n) i xs ys h.1 (subst (λ m. From m ys) (omega arith) k),
  entry_at_below (n + suc (length xs)) i ys k,
)
