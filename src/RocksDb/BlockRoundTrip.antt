-- ===== src/RocksDb/BlockRoundTrip.antt =====
-- The entries that were added to a block are the entries that an iterator on it shows.
use unistore.Base.{
  List, Bytes, length, ◌≤◌, ◌≡◌, ◌++◌, take, refl, ◌<◌, append-nil, ◌%◌, ◌^◌, Bool-cases, inl,
  arith, inr, suc, ◌∙◌, ◌*◌, ap, sym, put_le, length-put_le, append_assoc, ◌+◌, subst,
  length-append, ◌-◌, drop, drop-length_append, get_le, get_le-put_le, ap₂, take-length_append,
  ◌==◌,
}
use unistore.RocksDb.Block.{
  BlockBuilder, BlockIterator, shared_prefix, add_block_entry, collect_entries, difference_offset,
  is_restart, reset_block_builder, put_restarts, finish_block, add_all_to_block, read_whole_block,
  add_to_block, reset_block_iterator, next_entry,
}
use unistore.Base.{[], ◌∷◌, some, List, Bytes, ℕ, true, false}
use unistore.RocksDb.BlockReads.{At, entry_bytes, append_block_entry_lem, next_entry-entry_bytes}

difference_offset_le :
    (a b : Bytes)
    → (difference_offset a b ≤ length a)
      × (difference_offset a b ≤ length b)
      × (take (difference_offset a b) b ≡ take (difference_offset a b) a)
unfolding difference_offset
difference_offset_le [] [] = (omega arith, omega arith, refl)
difference_offset_le [] (b ∷ bs) = (omega arith, omega arith, refl)
difference_offset_le (a ∷ as') [] = (omega arith, omega arith, refl)
difference_offset_le (a ∷ as') (b ∷ bs) =
    let (l, r, t) = difference_offset_le as' bs in
    let d = difference_offset as' bs in
    elim (Bool-cases (a == b)) [
      | inl e ↦
          let s : take (suc d) (b ∷ bs) ≡ take (suc d) (a ∷ as') = ap₂ ◌∷◌ (ground (arith, e)) t in
          let n : difference_offset (a ∷ as') (b ∷ bs) ≡ suc d = ground arith in
          rw n (omega arith, omega arith, s)
      | inr e ↦ rw e (omega arith, omega arith, refl)
    ]

length-put_restarts : (rs : List ℕ) → length (put_restarts rs) ≡ length rs * 4
unfolding put_restarts
length-put_restarts [] = refl
length-put_restarts (r ∷ rs) =
    let ih = length-put_restarts rs in omega (arith, length-put_le 4 r (put_restarts rs))

-- What the iterator relies on: the shared prefix is one of the key and the key before it.
shared_prefix_lem :
    (b : BlockBuilder) (key : Bytes)
    → length key < 2 ^ 32
    → let p = shared_prefix b key % 2 ^ 32 in
      (p ≤ length b.last_key) × (p ≤ length key) × (take p b.last_key ≡ take p key)
unfolding shared_prefix
shared_prefix_lem b key h =
    let (d1, d2, d3) = difference_offset_le key b.last_key in
    elim (Bool-cases (is_restart b)) [
      | inl e ↦ rw e (omega arith, omega arith, refl)
      | inr e ↦
          let m : difference_offset key b.last_key % 2 ^ 32 ≡ difference_offset key b.last_key =
            omega (arith, d1) in
          rw (e, m) (d2, d1, d3)
    ]

-- The entries as the builder writes them.
unfoldable encode_all : BlockBuilder → List (Bytes × Bytes) → Bytes
encode_all b [] = []
encode_all b ((key, value) ∷ es) =
    entry_bytes (shared_prefix b key % 2 ^ 32) key value
    ++ encode_all (add_block_entry b key value) es

-- The builder after the entries.
unfoldable pub add_entries : BlockBuilder → List (Bytes × Bytes) → BlockBuilder
add_entries b [] = b
add_entries b ((key, value) ∷ es) = add_entries (add_block_entry b key value) es

buf-add_block_entry :
    (b : BlockBuilder) (key value : Bytes)
    → (add_block_entry b key value).buf
      ≡ b.buf ++ entry_bytes (shared_prefix b key % 2 ^ 32) key value
unfolding add_block_entry
buf-add_block_entry b key value =
    append_block_entry_lem b.buf (shared_prefix b key % 2 ^ 32) key value

last_key-add_block_entry :
    (b : BlockBuilder) (key value : Bytes) → (add_block_entry b key value).last_key ≡ key
unfolding add_block_entry
last_key-add_block_entry b key value = refl

buf-add_entries :
    (b : BlockBuilder) (es : List (Bytes × Bytes))
    → (add_entries b es).buf ≡ b.buf ++ encode_all b es
unfolding add_entries encode_all
buf-add_entries b [] = simp (append-nil)
buf-add_entries b ((key, value) ∷ es) =
    buf-add_entries (add_block_entry b key value) es
    ∙ ap (λ x. x ++ encode_all (add_block_entry b key value) es) (buf-add_block_entry b key value)
    ∙ append_assoc b.buf (entry_bytes (shared_prefix b key % 2 ^ 32) key value)
        (encode_all (add_block_entry b key value) es)

-- The key and the value of every entry have lengths of 32 bits.
unfoldable pub AreShort : List (Bytes × Bytes) → Type 0
AreShort [] = Unit
AreShort ((key, value) ∷ es) = (length key < 2 ^ 32) × (length value < 2 ^ 32) × AreShort es

-- An iterator in front of the entries.
collect_entries-encode_all :
    (b : BlockBuilder) (es : List (Bytes × Bytes)) (it : BlockIterator) (pre : Bytes)
    → AreShort es
    → At it pre (encode_all b es)
    → it.key_buf ≡ b.last_key
    → it.invalid ≡ false
    → collect_entries (suc (length es)) it ≡ some es
unfolding encode_all AreShort collect_entries
collect_entries-encode_all b [] it pre h (e, c) hk hi =
    let len : it.cursor ≡ length it.content = c ∙ sym (ap length (e ∙ append-nil pre)) in
    let n : next_entry it ≡ some (record it { invalid = true }) =
      unfold next_entry in ground arith in
    ground arith
collect_entries-encode_all b ((key, value) ∷ es) it pre (lk, lv, h) (e, c) hk hi =
    let p = shared_prefix b key % 2 ^ 32 in
    let (p1, p2, p3) = shared_prefix_lem b key lk in
    let rest = encode_all (add_block_entry b key value) es in
    let n =
      next_entry-entry_bytes it pre rest key value p (e, c) (subst (λ x. p ≤ length x) (sym hk) p1)
        p2 (ap (take p) hk ∙ p3) lk lv in
    let front = pre ++ entry_bytes p key value in
    let it' = record it { key_buf = key; value_buf = value; cursor = length front } in
    let ih =
      collect_entries-encode_all (add_block_entry b key value) es it' front h
        (e ∙ sym (append_assoc pre (entry_bytes p key value) rest), refl)
        (sym (last_key-add_block_entry b key value)) hi in
    ground arith

reset_block_iterator-finish_block :
    (b : BlockBuilder)
    → length (finish_block b) < 2 ^ 32
    → reset_block_iterator (finish_block b)
      ≡ some (record { content = b.buf; cursor = 0; invalid = false; key_buf = []; value_buf = [] })
unfolding finish_block reset_block_iterator
reset_block_iterator-finish_block b h =
    let rs = put_restarts b.restarts in
    let n = length b.restarts in
    let front = b.buf ++ rs in
    let trailer = put_le 4 (n % 2 ^ 32) [] in
    let lt : length trailer ≡ 4 = length-put_le 4 (n % 2 ^ 32) [] in
    let lr : length rs ≡ n * 4 = length-put_restarts b.restarts in
    let lb : length front ≡ length b.buf + length rs = length-append b.buf rs in
    let lf : length (front ++ trailer) ≡ length front + 4 =
      length-append front trailer ∙ ap (λ x. length front + x) lt in
    let i1 : length (front ++ trailer) - 4 ≡ length front = omega arith in
    let d1 : drop (length (front ++ trailer) - 4) (front ++ trailer) ≡ trailer =
      ap (λ i. drop i (front ++ trailer)) i1 ∙ drop-length_append front trailer in
    let g1 : get_le 4 trailer ≡ some (n % 2 ^ 32, []) =
      get_le-put_le 4 (n % 2 ^ 32) [] (omega arith) in
    let i2 : length (front ++ trailer) - (n % 2 ^ 32 * 4 + 4) % 2 ^ 32 ≡ length b.buf =
      omega arith in
    let t1 : take (length (front ++ trailer) - (n % 2 ^ 32 * 4 + 4) % 2 ^ 32) (front ++ trailer)
        ≡ b.buf =
      ap₂ take i2 (append_assoc b.buf rs trailer) ∙ take-length_append b.buf (rs ++ trailer) in
    ground (arith, ap (get_le 4) d1 ∙ g1)

-- The assertion on the counter holds at every entry.
add_all_to_block-add_entries :
    (b : BlockBuilder) (es : List (Bytes × Bytes))
    → 0 < b.restart_interval
    → b.counter ≤ b.restart_interval
    → add_all_to_block b es ≡ some (add_entries b es)
unfolding add_all_to_block add_entries add_to_block add_block_entry
add_all_to_block-add_entries b [] h c = refl
add_all_to_block-add_entries b ((key, value) ∷ es) h c =
    let ih = add_all_to_block-add_entries (add_block_entry b key value) es h (ground arith) in
    ground arith

-- For a builder with a restart interval that is not 0, whatever blocks it has built, a reset and
-- entries with keys and values of 32-bit lengths: no addition panics, and if the finished block
-- is shorter than 2^32 bytes an iterator on it shows exactly the entries in order and then is not
-- valid.
pub read_whole_block-finish_block :
    (b : BlockBuilder) (es : List (Bytes × Bytes))
    → 0 < b.restart_interval
    → AreShort es
    → length (finish_block (add_entries (reset_block_builder b) es)) < 2 ^ 32
    → (add_all_to_block (reset_block_builder b) es ≡ some (add_entries (reset_block_builder b) es))
      × (read_whole_block (suc (length es)) (finish_block (add_entries (reset_block_builder b) es))
          ≡ some es)
unfolding reset_block_builder read_whole_block
read_whole_block-finish_block b es h s l =
    let b0 = reset_block_builder b in
    let made = add_entries b0 es in
    let it : BlockIterator = record {
      content = made.buf;
      cursor = 0;
      invalid = false;
      key_buf = [];
      value_buf = [];
    } in
    let r : reset_block_iterator (finish_block made) ≡ some it =
      reset_block_iterator-finish_block made l in
    let c : collect_entries (suc (length es)) it ≡ some es =
      collect_entries-encode_all b0 es it [] s (buf-add_entries b0 es, refl) refl refl in
    (add_all_to_block-add_entries b0 es h (omega arith), ground (arith, r, c))
