-- ===== src/Base/Encoding.antt =====
-- Byte strings as Go's standard library handles them: `bytes.Compare` and `encoding/binary`.
-- A byte string is a list of numbers below 256.
use Prim.Native.Nat.{ℕ, zero, suc, ◌+◌, ◌*◌, ◌/◌, ◌%◌, ◌^◌, ◌≤◌, ◌<◌, compare, Ordering}
use mathlib.Core.Path.{◌≡◌, refl, ap, ap₂, ◌∙◌}
use mathlib.Core.Logic.{◌⊎◌, inl, inr}
use mathlib.Core.List.{List, [], ◌∷◌, ◌++◌}
use mathlib.Core.Option.{Option, none, some}
use native.Mathlib.Nat.{pow-suc}
use native.Mathlib.Omega.{arith}
use unistore.Base.Lists.{length, drop, get_last_or, All}

abbrev pub Bytes : Type 0
Bytes = List ℕ

abbrev pub IsU64 : ℕ → Type 0
IsU64 v = v < 256 ^ 8

abbrev pub IsU32 : ℕ → Type 0
IsU32 v = v < 256 ^ 4

abbrev pub IsU16 : ℕ → Type 0
IsU16 v = v < 256 ^ 2

-- An order on the heads decides; equal heads leave it to the rest.
abbrev pub then_compare : Ordering → Ordering → Ordering
then_compare Ordering.lt o = Ordering.lt
then_compare Ordering.eq o = o
then_compare Ordering.gt o = Ordering.gt

-- `bytes.Compare`.
unfoldable pub compare_bytes : Bytes → Bytes → Ordering
compare_bytes [] [] = Ordering.eq
compare_bytes [] (b ∷ bs) = Ordering.lt
compare_bytes (a ∷ as') [] = Ordering.gt
compare_bytes (a ∷ as') (b ∷ bs) = then_compare (compare a b) (compare_bytes as' bs)

-- The low `k` bytes of `v`, lowest first, in front of `rest`: `LittleEndian.PutUint`.
unfoldable pub put_le : ℕ → ℕ → Bytes → Bytes
put_le zero v rest = rest
put_le (suc k) v rest = (v % 256) ∷ put_le k (v / 256) rest

-- The low `k` bytes of `v`, highest first, in front of `rest`: `BigEndian.PutUint`.
unfoldable pub put_be : ℕ → ℕ → Bytes → Bytes
put_be zero v rest = rest
put_be (suc k) v rest = put_be k (v / 256) ((v % 256) ∷ rest)

-- `LittleEndian.Uint` of `k` bytes, with the bytes behind them; Go panics on a short slice.
unfoldable pub get_le : ℕ → Bytes → Option (ℕ × Bytes)
get_le zero bs = some (0, bs)
get_le (suc k) [] = none
get_le (suc k) (b ∷ bs) = elim (get_le k bs) [
  | none ↦ none
  | some (v, rest) ↦ some (b + 256 * v, rest)
]

-- `BigEndian.Uint` of `k` bytes, on top of the bytes read so far.
unfoldable pub get_be : ℕ → ℕ → Bytes → Option (ℕ × Bytes)
get_be zero acc bs = some (acc, bs)
get_be (suc k) acc [] = none
get_be (suc k) acc (b ∷ bs) = get_be k (acc * 256 + b) bs

pub get_le-put_le :
    (k v : ℕ) (rest : Bytes) → v < 256 ^ k → get_le k (put_le k v rest) ≡ some (v, rest)
unfolding get_le put_le
get_le-put_le zero v rest h = ground arith
get_le-put_le (suc k) v rest h = ground (arith, get_le-put_le k (v / 256) rest (omega arith))

pub length-put_le : (k v : ℕ) (rest : Bytes) → length (put_le k v rest) ≡ k + length rest
unfolding put_le
length-put_le zero v rest = omega arith
length-put_le (suc k) v rest = omega (arith, length-put_le k (v / 256) rest)

pub length-put_be : (k v : ℕ) (rest : Bytes) → length (put_be k v rest) ≡ k + length rest
unfolding put_be
length-put_be zero v rest = omega arith
length-put_be (suc k) v rest = omega (arith, length-put_be k (v / 256) ((v % 256) ∷ rest))

digit_order :
    (v w : ℕ) (r s : Bytes)
    → then_compare (compare (v / 256) (w / 256)) (compare_bytes ((v % 256) ∷ r) ((w % 256) ∷ s))
      ≡ then_compare (compare v w) (compare_bytes r s)
unfolding compare_bytes
digit_order v w r s = ground arith

-- Big-endian bytes order as the numbers do, and equal numbers leave it to what follows.
pub compare_bytes-put_be :
    (k v w : ℕ) (r s : Bytes)
    → v < 256 ^ k
    → w < 256 ^ k
    → compare_bytes (put_be k v r) (put_be k w s) ≡ then_compare (compare v w) (compare_bytes r s)
unfolding put_be
compare_bytes-put_be zero v w r s hv hw = ground arith
compare_bytes-put_be (suc k) v w r s hv hw =
    compare_bytes-put_be k (v / 256) (w / 256) ((v % 256) ∷ r) ((w % 256) ∷ s) (omega arith)
      (omega arith)
    ∙ digit_order v w r s

pub get_be-put_be_onto :
    (k j n acc v : ℕ) (rest : Bytes)
    → n ≡ k + j
    → v < 256 ^ k
    → get_be n acc (put_be k v rest) ≡ get_be j (acc * 256 ^ k + v) rest
unfolding put_be get_be
get_be-put_be_onto zero j n acc v rest e h =
    ap₂ (λ i a. get_be i a rest) (omega arith) (omega arith)
get_be-put_be_onto (suc k) j n acc v rest e h =
    get_be-put_be_onto k (suc j) n acc (v / 256) ((v % 256) ∷ rest) (omega arith) (omega arith)
    ∙ ap (λ a. get_be j a rest) (omega (arith, ap (λ (t : ℕ). acc * t) (pow-suc 256 k)))

-- Reading back what was written, with whatever follows it.
pub get_be-put_be :
    (k v : ℕ) (rest : Bytes) → v < 256 ^ k → get_be k 0 (put_be k v rest) ≡ some (v, rest)
unfolding get_be
get_be-put_be k v rest h =
    get_be-put_be_onto k 0 k 0 v rest (omega arith) h ∙ ap (λ a. some (a, rest)) (omega arith)

pub compare_bytes-append : (p r s : Bytes) → compare_bytes (p ++ r) (p ++ s) ≡ compare_bytes r s
unfolding compare_bytes
compare_bytes-append [] r s = refl
compare_bytes-append (b ∷ p) r s = ground (arith, compare_bytes-append p r s)

pub drop-put_be_onto :
    (k j n v : ℕ) (rest : Bytes) → n ≡ k + j → drop n (put_be k v rest) ≡ drop j rest
unfolding put_be
drop-put_be_onto zero j n v rest e = ap (λ i. drop i rest) (omega arith)
drop-put_be_onto (suc k) j n v rest e =
    drop-put_be_onto k (suc j) n (v / 256) ((v % 256) ∷ rest) (omega arith)

pub get_last_or-put_be :
    (k v a b : ℕ) (rest : Bytes) → get_last_or a (put_be k v (b ∷ rest)) ≡ get_last_or b rest
unfolding put_be
get_last_or-put_be zero v a b rest = refl
get_last_or-put_be (suc k) v a b rest = get_last_or-put_be k (v / 256) a (v % 256) (b ∷ rest)

abbrev pub IsByte : ℕ → Type 0
IsByte b = b < 256

put_be_digit :
    (j acc b : ℕ) (bs : Bytes) → b < 256 → put_be j acc (b ∷ bs) ≡ put_be (suc j) (acc * 256 + b) bs
unfolding put_be
put_be_digit j acc b bs h = ap₂ (λ u w. put_be j u (w ∷ bs)) (omega arith) (omega arith)

pub put_be-get_be_onto :
    (k j n acc : ℕ) (bs : Bytes) (v : ℕ) (rest : Bytes)
    → n ≡ j + k
    → All IsByte bs
    → get_be k acc bs ≡ some (v, rest)
    → put_be j acc bs ≡ put_be n v rest
unfolding get_be
put_be-get_be_onto zero j n acc bs v rest e h p =
    cc (ap (λ i. put_be i v rest) (let q : n ≡ j = omega arith in q))
put_be-get_be_onto (suc k) j n acc [] v rest e h p = absurd (ground arith)
put_be-get_be_onto (suc k) j n acc (b ∷ bs) v rest e h p =
    put_be_digit j acc b bs h.0
    ∙ put_be-get_be_onto k (suc j) n (acc * 256 + b) bs v rest (omega arith) h.1 p

-- What was read is what `put_be` writes.
pub put_be-get_be :
    (k : ℕ) (bs : Bytes) (v : ℕ) (rest : Bytes)
    → All IsByte bs
    → get_be k 0 bs ≡ some (v, rest)
    → bs ≡ put_be k v rest
unfolding put_be
put_be-get_be k bs v rest h p = put_be-get_be_onto k 0 k 0 bs v rest (omega arith) h p

-- Enough bytes can always be read.
pub get_be-IsDefined :
    (k acc : ℕ) (bs : Bytes)
    → k ≤ length bs
    → (v : ℕ) × (rest : Bytes) × (get_be k acc bs ≡ some (v, rest)) × (length rest + k ≡ length bs)
unfolding get_be
get_be-IsDefined zero acc bs h = (acc, bs, refl, omega arith)
get_be-IsDefined (suc k) acc [] h = absurd (omega arith)
get_be-IsDefined (suc k) acc (b ∷ bs) h =
    let (v, rest, p, q) = get_be-IsDefined k (acc * 256 + b) bs (omega arith) in
    (v, rest, p, omega arith)

pub put_le-append : (k v : ℕ) (r s : Bytes) → put_le k v r ++ s ≡ put_le k v (r ++ s)
unfolding put_le
put_le-append zero v r s = refl
put_le-append (suc k) v r s = ap (λ t. (v % 256) ∷ t) (put_le-append k (v / 256) r s)

pub split_cases {ℓ κ} :
    {A : Type ℓ} {B : Type κ} (o : Option (A × B))
    → (o ≡ none) ⊎ ((a : A) × (b : B) × (o ≡ some (a, b)))
split_cases none = inl refl
split_cases (some (a, b)) = inr (a, b, refl)

-- A slice `bs[:n]` and what is behind it; `none` is the panic on a slice that is too short.
unfoldable pub split_at : ℕ → Bytes → Option (Bytes × Bytes)
split_at zero bs = some ([], bs)
split_at (suc n) [] = none
split_at (suc n) (b ∷ bs) = elim (split_at n bs) [
  | none ↦ none
  | some (front, rest) ↦ some (b ∷ front, rest)
]

pub split_at-append :
    (front rest : Bytes) → split_at (length front) (front ++ rest) ≡ some (front, rest)
unfolding split_at
split_at-append [] rest = refl
split_at-append (b ∷ front) rest = ground (arith, split_at-append front rest)

pub length-split_at :
    (n : ℕ) (bs front rest : Bytes)
    → split_at n bs ≡ some (front, rest)
    → length bs ≡ n + length rest
unfolding split_at
length-split_at zero bs front rest e = ground arith
length-split_at (suc n) [] front rest e = cc
length-split_at (suc n) (b ∷ bs) front rest e = elim (split_cases (split_at n bs)) [
  | inl p ↦ ground arith
  | inr (f, r, p) ↦ ground (arith, length-split_at n bs f r p)
]

pub length-get_le :
    (k : ℕ) (bs : Bytes) (v : ℕ) (rest : Bytes)
    → get_le k bs ≡ some (v, rest)
    → length bs ≡ k + length rest
unfolding get_le
length-get_le zero bs v rest e = ground arith
length-get_le (suc k) [] v rest e = cc
length-get_le (suc k) (b ∷ bs) v rest e = elim (split_cases (get_le k bs)) [
  | inl p ↦ ground arith
  | inr (f, r, p) ↦ ground (arith, length-get_le k bs f r p)
]
