-- ===== src/RocksDb/BloomBits.antt =====
-- A reader of a filter's bits, and the bits that the builder sets.
use unistore.Base.{
  [], ◌∷◌, some, ◌+◌, zero, suc, ◌&&◌, ◌==◌, true, Bytes, ℕ, Bool, ◌≤◌, ◌%◌, ◌≡◌, ◌∙◌, length, ◌<◌,
  ◌*◌, ◌^◌, ◌/◌, arith, refl, ap, List, All,
}
use unistore.RocksDb.Bloom.{
  set_bit, byte_at, or_at, add_probes, add_hash, add_hashes, bit_pos, line_base, probe_delta,
}

unfoldable pub bit_at : ℕ → ℕ → ℕ
bit_at zero v = v % 2
bit_at (suc k) v = bit_at k (v / 2)

-- The bit at a position of a buffer.
unfoldable pub buffer_bit : Bytes → ℕ → ℕ
unfolding byte_at bit_at
buffer_bit buf pos = bit_at (pos % 8) (byte_at buf (pos / 8))

-- Whether the bits of all probes are set.
unfoldable pub probes_match : ℕ → ℕ → ℕ → ℕ → Bytes → Bool
unfolding buffer_bit
probes_match zero hash delta base buf = true
probes_match (suc n) hash delta base buf =
    (buffer_bit buf (bit_pos base hash) == 1)
    && probes_match n ((hash + delta) % 2 ^ 32) delta base buf

bit_at-set_bit_same : (k v : ℕ) → bit_at k (set_bit k v) ≡ 1
unfolding bit_at set_bit
bit_at-set_bit_same zero v = omega arith
bit_at-set_bit_same (suc k) v =
    let e : (set_bit k (v / 2) * 2 + v % 2) / 2 ≡ set_bit k (v / 2) = omega arith in
    ap (bit_at k) e ∙ bit_at-set_bit_same k (v / 2)

bit_at-set_bit : (j k v : ℕ) → bit_at j v ≡ 1 → bit_at j (set_bit k v) ≡ 1
unfolding bit_at set_bit
bit_at-set_bit zero zero v h = omega arith
bit_at-set_bit zero (suc k) v h = omega arith
bit_at-set_bit (suc j) zero v h =
    let e : (v / 2 * 2 + 1) / 2 ≡ v / 2 = omega arith in ap (bit_at j) e ∙ h
bit_at-set_bit (suc j) (suc k) v h =
    let e : (set_bit k (v / 2) * 2 + v % 2) / 2 ≡ set_bit k (v / 2) = omega arith in
    ap (bit_at j) e ∙ bit_at-set_bit j k (v / 2) h

-- A buffer has the bits of another one below a limit, and its length.
abbrev pub Grows : ℕ → Bytes → Bytes → Type 0
Grows limit buf buf' =
    (length buf' ≡ length buf)
    × ((pos : ℕ) → pos < limit → buffer_bit buf pos ≡ 1 → buffer_bit buf' pos ≡ 1)

pub Grows-trans : (limit : ℕ) (a b c : Bytes) → Grows limit a b → Grows limit b c → Grows limit a c
Grows-trans limit a b c (l, h) (m, g) = (m ∙ l, λ pos p e. g pos p (h pos p e))

or_at_lem :
    (i k : ℕ) (buf : Bytes)
    → i < length buf
    → (buf' : Bytes) × (or_at i k buf ≡ some buf')
      × (length buf' ≡ length buf)
      × (bit_at k (byte_at buf' i) ≡ 1)
      × ((j l : ℕ) → bit_at l (byte_at buf j) ≡ 1 → bit_at l (byte_at buf' j) ≡ 1)
unfolding or_at byte_at
or_at_lem i k [] h = absurd (omega arith)
or_at_lem zero k (x ∷ xs) h = (set_bit k x ∷ xs, refl, refl, bit_at-set_bit_same k x, keeps)
  where
    keeps :
        (j l : ℕ) → bit_at l (byte_at (x ∷ xs) j) ≡ 1 → bit_at l (byte_at (set_bit k x ∷ xs) j) ≡ 1
    keeps zero l e = bit_at-set_bit l k x e
    keeps (suc j) l e = e
or_at_lem (suc i) k (x ∷ xs) h =
    let (ys, e, l, b, g) = or_at_lem i k xs (omega arith) in
    (x ∷ ys, rw e refl, ap suc l, b, keeps ys g)
  where
    keeps :
        (ys : Bytes)
        → ((j l : ℕ) → bit_at l (byte_at xs j) ≡ 1 → bit_at l (byte_at ys j) ≡ 1)
        → (j l : ℕ) → bit_at l (byte_at (x ∷ xs) j) ≡ 1
        → bit_at l (byte_at (x ∷ ys) j) ≡ 1
    keeps ys g zero l e = e
    keeps ys g (suc j) l e = g j l e

pub probes_match-Grows :
    (limit : ℕ) (buf buf' : Bytes)
    → Grows limit buf buf'
    → (n hash delta base : ℕ) → base + 512 ≤ limit
    → probes_match n hash delta base buf ≡ true
    → probes_match n hash delta base buf' ≡ true
unfolding probes_match
probes_match-Grows limit buf buf' g zero hash delta base h e = refl
probes_match-Grows limit buf buf' g (suc n) hash delta base h e =
    let pos = bit_pos base hash in
    let (b, r) =
      both (buffer_bit buf pos) (probes_match n ((hash + delta) % 2 ^ 32) delta base buf) e in
    let ih = probes_match-Grows limit buf buf' g n ((hash + delta) % 2 ^ 32) delta base h r in
    let here = g.1 pos (omega arith) b in ground arith
  where
    both : (x : ℕ) (y : Bool) → ((x == 1) && y) ≡ true → (x ≡ 1) × (y ≡ true)
    both x y e = ground arith

add_probes-suc :
    (n hash delta base : ℕ) (buf buf1 : Bytes)
    → or_at (bit_pos base hash / 8) (bit_pos base hash % 8) buf ≡ some buf1
    → add_probes (suc n) hash delta base buf
      ≡ add_probes n ((hash + delta) % 2 ^ 32) delta base buf1
unfolding add_probes
add_probes-suc n hash delta base buf buf1 e = rw (e, add_probes) refl

pub add_probes_lem :
    (n hash delta base : ℕ) (buf : Bytes)
    → base + 512 ≤ 8 * length buf
    → (buf' : Bytes) × (add_probes n hash delta base buf ≡ some buf')
      × Grows (8 * length buf) buf buf'
      × (probes_match n hash delta base buf' ≡ true)
unfolding add_probes probes_match
add_probes_lem zero hash delta base buf h = (buf, refl, (refl, λ pos p e. e), refl)
add_probes_lem (suc n) hash delta base buf h =
    let pos = bit_pos base hash in
    let (buf1, e, l, b, g) = or_at_lem (pos / 8) (pos % 8) buf (omega arith) in
    let limit = 8 * length buf in
    let h1 : base + 512 ≤ 8 * length buf1 = omega arith in
    let (buf2, e2, (l2, g2), m) = add_probes_lem n ((hash + delta) % 2 ^ 32) delta base buf1 h1 in
    let g1 : Grows limit buf buf1 = unfold buffer_bit in (l, λ pos p e. g (pos / 8) (pos % 8) e) in
    let g3 : Grows limit buf1 buf2 = (l2, λ pos p e. g2 pos (omega arith) e) in
    let bit1 : buffer_bit buf1 pos ≡ 1 = unfold buffer_bit in b in
    let bit2 : buffer_bit buf2 pos ≡ 1 = g3.1 pos (omega arith) bit1 in
    (
      buf2,
      add_probes-suc n hash delta base buf buf1 e ∙ e2,
      Grows-trans limit buf buf1 buf2 g1 g3,
      ground arith,
    )

-- The bits of a filter with a number of lines match a hash.
unfoldable pub hash_matches : ℕ → ℕ → ℕ → Bytes → Bool
unfolding probes_match
hash_matches num_probes num_lines hash buf =
    probes_match num_probes hash (probe_delta hash) (line_base hash num_lines) buf

line_base_le :
    (hash num_lines : ℕ)
    → 0 < num_lines
    → num_lines * 512 < 2 ^ 32
    → line_base hash num_lines + 512 ≤ num_lines * 512
line_base_le hash num_lines p h = let l : hash % num_lines < num_lines = grind arith in omega arith

pub hash_matches-Grows :
    (num_probes num_lines hash : ℕ) (buf buf' : Bytes)
    → 0 < num_lines
    → num_lines * 512 < 2 ^ 32
    → Grows (num_lines * 512) buf buf'
    → hash_matches num_probes num_lines hash buf ≡ true
    → hash_matches num_probes num_lines hash buf' ≡ true
unfolding hash_matches
hash_matches-Grows num_probes num_lines hash buf buf' p l g e =
    probes_match-Grows (num_lines * 512) buf buf' g num_probes hash (probe_delta hash)
      (line_base hash num_lines) (line_base_le hash num_lines p l) e

add_hashes-cons :
    (num_probes num_lines x : ℕ) (hs : List ℕ) (buf buf1 : Bytes)
    → add_hash num_probes num_lines x buf ≡ some buf1
    → add_hashes num_probes num_lines (x ∷ hs) buf ≡ add_hashes num_probes num_lines hs buf1
unfolding add_hashes
add_hashes-cons num_probes num_lines x hs buf buf1 e = rw (e, add_hashes) refl

-- All hashes match once they are added.
pub add_hashes_lem :
    (num_probes num_lines : ℕ) (hs : List ℕ) (buf : Bytes)
    → 0 < num_lines
    → num_lines * 512 < 2 ^ 32
    → num_lines * 512 ≤ 8 * length buf
    → (buf' : Bytes) × (add_hashes num_probes num_lines hs buf ≡ some buf')
      × Grows (num_lines * 512) buf buf'
      × All (λ h. hash_matches num_probes num_lines h buf' ≡ true) hs
unfolding add_hashes add_hash hash_matches
add_hashes_lem num_probes num_lines [] buf p l h = (buf, refl, (refl, λ pos q e. e), tt)
add_hashes_lem num_probes num_lines (x ∷ hs) buf p l h =
    let bl = line_base_le x num_lines p l in
    let (buf1, e1, (l1, g1), m1) =
      add_probes_lem num_probes x (probe_delta x) (line_base x num_lines) buf (omega arith) in
    let (buf2, e2, (l2, g2), m2) = add_hashes_lem num_probes num_lines hs buf1 p l (omega arith) in
    let limit = num_lines * 512 in
    let g : Grows limit buf buf1 = (l1, λ pos q e. g1 pos (omega arith) e) in
    (
      buf2,
      add_hashes-cons num_probes num_lines x hs buf buf1 e1 ∙ e2,
      Grows-trans limit buf buf1 buf2 g (l2, g2),
      (hash_matches-Grows num_probes num_lines x buf1 buf2 p l (l2, g2) m1, m2),
    )
