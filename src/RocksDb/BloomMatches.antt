-- ===== src/RocksDb/BloomMatches.antt =====
-- A filter matches every hash that it was built from.
use unistore.Base.{
  [], ◌∷◌, some, none, ◌+◌, zero, suc, ◌&&◌, ◌==◌, not, true, false, Bytes, length, ℕ, ◌*◌, Bool,
  ◌++◌, ◌≡◌, ◌<◌, ◌^◌, refl, ◌-◌, take, ◌≤◌, drop, All, arith, get_le, ◌%◌, length-append,
  length-take, put_le, ◌∙◌, take-length_append, length-put_le, ap₂, length-drop, ap, sym,
  append_assoc, take-append-drop, append-nil, drop-length_append, get_le-put_le, ◌/◌, replicate,
  if◌then◌else◌, All-map,
}
use unistore.RocksDb.Bloom.{
  FullFilterBitsBuilder, byte_at, put_at, finish_bits, add_hashes, prepare_filter_buffer,
  optimize_bits_for_locality,
}
use unistore.RocksDb.BloomBits.{
  buffer_bit, hash_matches, Grows, hash_matches-Grows, add_hashes_lem, bit_at,
}

-- RocksDB's reader of such a filter: the bits, the number of probes and that of lines.
unfoldable pub may_match : Bytes → ℕ → Bool
unfolding byte_at hash_matches
may_match filter hash =
    let bits = length filter - 5 in
    elim (get_le 4 (drop (bits + 1) filter)) [
      | none ↦ false
      | some (num_lines, rest) ↦
          not (num_lines == 0) && hash_matches (byte_at filter bits) num_lines hash filter
    ]

put_at_lem :
    (front mid tail bytes : Bytes)
    → length bytes ≡ length mid
    → put_at (length front) bytes (front ++ (mid ++ tail)) ≡ some (front ++ (bytes ++ tail))
unfolding put_at
put_at_lem front mid tail bytes h =
    let whole = front ++ (mid ++ tail) in
    let l : length front + length bytes ≤ length whole =
      omega (arith, length-append front (mid ++ tail), length-append mid tail) in
    let t = take-length_append front (mid ++ tail) in
    let n : length front + length bytes ≡ length (front ++ mid) =
      omega (arith, length-append front mid) in
    let d : drop (length front + length bytes) whole ≡ tail =
      ap₂ drop n (sym (append_assoc front mid tail)) ∙ drop-length_append (front ++ mid) tail in
    ground arith

-- The trailer is written behind the bits.
put_trailer :
    (i p : ℕ) (q buf : Bytes)
    → length buf ≡ i + 1 + length q
    → (mid : Bytes) × (put_at i (p ∷ []) buf ≡ some mid)
      × (put_at (i + 1) q mid ≡ some (take i buf ++ (p ∷ q)))
put_trailer i p q buf h =
    let front = take i buf in
    let rest = drop i buf in
    let lf : length front ≡ i = length-take i buf ∙ omega arith in
    let lr : length rest ≡ suc (length q) = length-drop i buf ∙ omega arith in
    let l1 : length (take 1 rest) ≡ 1 = length-take 1 rest ∙ omega arith in
    let l2 : length (drop 1 rest) ≡ length q = length-drop 1 rest ∙ omega arith in
    let whole : front ++ (take 1 rest ++ drop 1 rest) ≡ buf =
      ap (λ x. front ++ x) (take-append-drop 1 rest) ∙ take-append-drop i buf in
    let w1 : put_at i (p ∷ []) buf ≡ some (front ++ ((p ∷ []) ++ drop 1 rest)) =
      ap₂ (λ n x. put_at n (p ∷ []) x) (sym lf) (sym whole)
      ∙ put_at_lem front (take 1 rest) (drop 1 rest) (p ∷ []) (sym l1) in
    let front1 = front ++ (p ∷ []) in
    let lf1 : length front1 ≡ i + 1 = omega (arith, length-append front (p ∷ [])) in
    let w2 : put_at (i + 1) q (front ++ (p ∷ drop 1 rest)) ≡ some (front1 ++ (q ++ [])) =
      ap₂ (λ n x. put_at n q x) (sym lf1) (simp (append_assoc, append-nil))
      ∙ put_at_lem front1 (drop 1 rest) [] q (sym l2) in
    (front ++ (p ∷ drop 1 rest), w1, w2 ∙ ap some (simp (append_assoc, append-nil)))

byte_at-take_append :
    (i j : ℕ) (buf ys : Bytes)
    → j < i
    → i ≤ length buf
    → byte_at (take i buf ++ ys) j ≡ byte_at buf j
unfolding byte_at
byte_at-take_append zero j buf ys h l = absurd (omega arith)
byte_at-take_append (suc i) j [] ys h l = absurd (omega arith)
byte_at-take_append (suc i) zero (x ∷ buf) ys h l = refl
byte_at-take_append (suc i) (suc j) (x ∷ buf) ys h l =
    byte_at-take_append i j buf ys (omega arith) (omega arith)

byte_at-length_append : (xs ys : Bytes) (y : ℕ) → byte_at (xs ++ (y ∷ ys)) (length xs) ≡ y
unfolding byte_at
byte_at-length_append [] ys y = refl
byte_at-length_append (x ∷ xs) ys y = byte_at-length_append xs ys y

-- The reader finds the numbers in the trailer and the bits in front of it.
may_match-trailer :
    (num_probes num_lines hash : ℕ) (buf : Bytes)
    → num_probes < 256
    → 0 < num_lines
    → num_lines * 512 < 2 ^ 32
    → length buf ≡ num_lines * 64 + 5
    → hash_matches num_probes num_lines hash buf ≡ true
    → may_match (take (num_lines * 64) buf ++ (num_probes % 256 ∷ put_le 4 num_lines [])) hash
      ≡ true
unfolding may_match
may_match-trailer num_probes num_lines hash buf hp hl hw len e =
    let i = num_lines * 64 in
    let p = num_probes % 256 in
    let q = put_le 4 num_lines [] in
    let front = take i buf in
    let filter = front ++ (p ∷ q) in
    let lf : length front ≡ i = length-take i buf ∙ omega arith in
    let lq : length q ≡ 4 = length-put_le 4 num_lines [] in
    let ll : length filter ≡ i + 5 = omega (arith, length-append front (p ∷ q), lf, lq) in
    let bits : length filter - 5 ≡ length front = omega arith in
    let n : length filter - 5 + 1 ≡ length (front ++ (p ∷ [])) =
      omega (arith, length-append front (p ∷ [])) in
    let d : drop (length filter - 5 + 1) filter ≡ q =
      ap₂ drop n (sym (append_assoc front (p ∷ []) q)) ∙ drop-length_append (front ++ (p ∷ [])) q in
    let g : get_le 4 (drop (length filter - 5 + 1) filter) ≡ some (num_lines, []) =
      ap (get_le 4) d ∙ get_le-put_le 4 num_lines [] (omega arith) in
    let b : byte_at filter (length filter - 5) ≡ num_probes =
      ap (byte_at filter) bits ∙ byte_at-length_append front q p ∙ omega arith in
    let grows : Grows (num_lines * 512) buf filter = (
      ll ∙ sym len,
      unfold buffer_bit in
          (λ pos h x.
            ap (bit_at (pos % 8))
              (byte_at-take_append i (pos / 8) buf (p ∷ q) (omega arith) (omega arith))
            ∙ x),
    ) in
    let m = hash_matches-Grows num_probes num_lines hash buf filter hl hw grows e in ground arith

length-replicate : (n : ℕ) → length (replicate n zero) ≡ n
length-replicate zero = refl
length-replicate (suc n) = ap suc (length-replicate n)

prepare_filter_buffer_lem :
    (b : FullFilterBitsBuilder)
    → 0 < length b.hash_entries
    → length b.hash_entries * b.bits_per_key < 2 ^ 32 - 1024
    → (n : ℕ) × (0 < n)
      × (n * 512 < 2 ^ 32)
      × (prepare_filter_buffer b ≡ (replicate (n * 64 + 5) 0, n * 512, n))
unfolding prepare_filter_buffer optimize_bits_for_locality
prepare_filter_buffer_lem b p h =
    let bits = length b.hash_entries * b.bits_per_key in
    let lines = (bits % 2 ^ 32 + 511) % 2 ^ 32 / 512 in
    let n = if lines % 2 == 0 then lines + 1 else lines in
    let small : n * 512 < 2 ^ 32 = ground arith in
    let e : n * 512 % 2 ^ 32 ≡ n * 512 = omega arith in
    let e2 : n * 512 / 8 ≡ n * 64 = omega arith in (n, ground arith, small, ground (arith, e, e2))

finish_bits_lines :
    (b : FullFilterBitsBuilder) (n : ℕ) (buf : Bytes)
    → 0 < n
    → prepare_filter_buffer b ≡ (replicate (n * 64 + 5) 0, n * 512, n)
    → add_hashes b.num_probes n b.hash_entries (replicate (n * 64 + 5) 0) ≡ some buf
    → length buf ≡ n * 64 + 5
    → finish_bits b ≡ some (take (n * 64) buf ++ (b.num_probes % 256 ∷ put_le 4 n []))
unfolding finish_bits
finish_bits_lines b n buf p e a l =
    let (mid, w1, w2) =
      put_trailer (n * 64) (b.num_probes % 256) (put_le 4 n []) buf
        (omega (arith, length-put_le 4 n [])) in
    let e2 : n * 512 / 8 ≡ n * 64 = omega arith in
    let buf_of = ap (λ r. r.0) e in
    let bits_of = ap (λ r. r.1) e in
    let lines_of = ap (λ r. r.2) e in ground (arith, e2, a, w1, w2, buf_of, bits_of, lines_of)

-- main
pub finish_bits-may_match :
    (b : FullFilterBitsBuilder)
    → 0 < length b.hash_entries
    → length b.hash_entries * b.bits_per_key < 2 ^ 32 - 1024
    → b.num_probes < 256
    → (filter : Bytes) × (finish_bits b ≡ some filter)
      × All (λ h. may_match filter h ≡ true) b.hash_entries
finish_bits-may_match b p h hp =
    let (n, pos, small, e) = prepare_filter_buffer_lem b p h in
    let empty = replicate (n * 64 + 5) 0 in
    let le : length empty ≡ n * 64 + 5 = length-replicate (n * 64 + 5) in
    let (buf, a, g, m) =
      add_hashes_lem b.num_probes n b.hash_entries empty pos small (omega (arith, le)) in
    let lb : length buf ≡ n * 64 + 5 = g.0 ∙ le in
    (
      take (n * 64) buf ++ (b.num_probes % 256 ∷ put_le 4 n []),
      finish_bits_lines b n buf pos e a lb,
      All-map _ (λ hash x. may_match-trailer b.num_probes n hash buf hp pos small lb x)
          b.hash_entries m,
    )
