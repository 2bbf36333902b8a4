-- ===== src/RocksDb/Block.antt =====
-- rocksdb/block_builder.go, rocksdb/block_iter.go: blocks of entries whose keys share prefixes with
-- the keys before them.
use unistore.Base.{
  List, Option, ℕ, true, Bool, [], Bytes, drop, ◌∷◌, ◌%◌, ◌+◌, length, leb, none, take, ◌++◌,
  if◌then◌else◌, ◌^◌, some, ltb, ◌&&◌, ◌-◌, put_le, suc, ◌==◌, zero, get_le, ◌*◌, false,
}
use unistore.RocksDb.Varint.{append_varint32, decode_varint32}

pub record BlockBuilder : Type 0 where
  pub restart_interval : ℕ
  pub counter : ℕ
  pub estimate : ℕ
  pub restarts : List ℕ
  pub buf : Bytes
  pub last_key : Bytes

unfoldable pub new_block_builder : ℕ → BlockBuilder
new_block_builder restart_interval = record {
  restart_interval = restart_interval;
  counter = 0;
  estimate = 0;
  restarts = 0 ∷ [];
  buf = [];
  last_key = [];
}

unfoldable pub reset_block_builder : BlockBuilder → BlockBuilder
reset_block_builder b = record b {
  counter = 0;
  estimate = 0;
  buf = [];
  restarts = take 1 b.restarts;
  last_key = [];
}

-- The length of the common prefix.
unfoldable pub difference_offset : Bytes → Bytes → ℕ
difference_offset [] rhs = 0
difference_offset (a ∷ as') [] = 0
difference_offset (a ∷ as') (b ∷ bs) =
    let rest = difference_offset as' bs in if a == b then rest + 1 else 0

-- Whether an entry begins a run of keys of its own.
abbrev pub is_restart : BlockBuilder → Bool
is_restart b = leb b.restart_interval b.counter

unfoldable pub shared_prefix : BlockBuilder → Bytes → ℕ
unfolding difference_offset
shared_prefix b key = if is_restart b then 0 else difference_offset key b.last_key

-- The bytes of an entry with a key of which a prefix is shared.
unfoldable pub append_block_entry : Bytes → ℕ → Bytes → Bytes → Bytes
unfolding append_varint32
append_block_entry buf prefix_len key value =
    let key_len = (length key % 2 ^ 32 + (2 ^ 32 - prefix_len)) % 2 ^ 32 in
    (append_varint32 (append_varint32 (append_varint32 buf prefix_len) key_len)
        (length value % 2 ^ 32)
      ++ drop prefix_len key)
    ++ value

unfoldable pub add_block_entry : BlockBuilder → Bytes → Bytes → BlockBuilder
unfolding shared_prefix append_block_entry
add_block_entry b key value =
    let buf = append_block_entry b.buf (shared_prefix b key % 2 ^ 32) key value in
    record b {
      counter = (if is_restart b then 0 else b.counter) + 1;
      estimate = b.estimate + (length buf - length b.buf);
      restarts = if is_restart b then b.restarts ++ ((length b.buf % 2 ^ 32) ∷ []) else b.restarts;
      buf = buf;
      last_key = key;
    }

-- `none` is the failed assertion on the counter.
unfoldable pub add_to_block : BlockBuilder → Bytes → Bytes → Option BlockBuilder
unfolding add_block_entry
add_to_block b key value =
    if leb b.counter b.restart_interval then some (add_block_entry b key value) else none

unfoldable pub put_restarts : List ℕ → Bytes
put_restarts [] = []
put_restarts (r ∷ rs) = put_le 4 r (put_restarts rs)

unfoldable pub finish_block : BlockBuilder → Bytes
unfolding put_restarts
finish_block b = b.buf ++ put_restarts b.restarts ++ put_le 4 (length b.restarts % 2 ^ 32) []

unfoldable pub estimate_size_after_kv : BlockBuilder → Bytes → Bytes → ℕ
estimate_size_after_kv b key value =
    b.estimate + (length key + length value) + (if is_restart b then 4 else 0) + (4 + 4 + 4)

pub record BlockIterator : Type 0 where
  pub content : Bytes
  pub cursor : ℕ
  pub invalid : Bool
  pub key_buf : Bytes
  pub value_buf : Bytes

abbrev curr_data : BlockIterator → Bytes
curr_data it = drop it.cursor it.content

-- `none` is the panic on a block that is shorter than its trailer says.
unfoldable pub reset_block_iterator : Bytes → Option BlockIterator
reset_block_iterator block =
    if ltb (length block) 4 then none else elim (get_le 4 (drop (length block - 4) block)) [
      | none ↦ none
      | some (num_restarts, rest) ↦
          let restarts_size = (num_restarts * 4 + 4) % 2 ^ 32 in
          if ltb (length block) restarts_size
          then none
          else some (record {
            content = take (length block - restarts_size) block;
            cursor = 0;
            invalid = false;
            key_buf = [];
            value_buf = [];
          })
    ]

abbrev invalidate : BlockIterator → BlockIterator
invalidate it = record it { invalid = true }

-- A number at the cursor, if there is one, and the iterator past it; `none` is a panic.
unfoldable pub read_number : BlockIterator → Option (BlockIterator × Option ℕ)
unfolding decode_varint32
read_number it = elim (decode_varint32 (curr_data it)) [
  | none ↦ none
  | some (v, n) ↦
      some (if n == 0 then (it, none) else (record it { cursor = it.cursor + n }, some v))
]

-- The three numbers of an entry: the lengths of the prefix, the rest of the key and the value.
unfoldable pub read_numbers : BlockIterator → Option (BlockIterator × Option (ℕ × ℕ × ℕ))
unfolding read_number
read_numbers it = elim (read_number it) [
  | none ↦ none
  | some (it1, none) ↦ some (it1, none)
  | some (it1, some prefix_len) ↦ elim (read_number it1) [
    | none ↦ none
    | some (it2, none) ↦ some (it2, none)
    | some (it2, some key_len) ↦ elim (read_number it2) [
      | none ↦ none
      | some (it3, none) ↦ some (it3, none)
      | some (it3, some value_len) ↦ some (it3, some (prefix_len, key_len, value_len))
    ]
  ]
]

-- A slice past the data or the key panics here; Go lets it reach into the capacity behind them.
unfoldable pub read_entry : ℕ → ℕ → ℕ → BlockIterator → Option BlockIterator
read_entry prefix_len key_len value_len it =
    let value_at = it.cursor + key_len in
    if leb prefix_len (length it.key_buf) && leb (value_at + value_len) (length it.content)
    then some (record it {
      key_buf = take prefix_len it.key_buf ++ take key_len (curr_data it);
      value_buf = take value_len (drop value_at it.content);
      cursor = value_at + value_len;
    })
    else none

unfoldable pub next_entry : BlockIterator → Option BlockIterator
unfolding read_numbers read_entry
next_entry it =
    if it.cursor == length it.content then some (invalidate it) else elim (read_numbers it) [
      | none ↦ none
      | some (it', none) ↦ some (invalidate it')
      | some (it', some (prefix_len, key_len, value_len)) ↦
          read_entry prefix_len key_len value_len it'
    ]

-- A client's loop: `Next` until the iterator is not valid, with the entries that it shows.
unfoldable pub collect_entries : ℕ → BlockIterator → Option (List (Bytes × Bytes))
unfolding next_entry
collect_entries zero it = none
collect_entries (suc f) it = elim (next_entry it) [
  | none ↦ none
  | some it' ↦ elim it'.invalid [
    | true ↦ some []
    | false ↦ elim (collect_entries f it') [
      | none ↦ none
      | some es ↦ some ((it'.key_buf, it'.value_buf) ∷ es)
    ]
  ]
]

-- A client's loop: `Add` for each entry.
unfoldable pub add_all_to_block : BlockBuilder → List (Bytes × Bytes) → Option BlockBuilder
unfolding add_to_block
add_all_to_block b [] = some b
add_all_to_block b ((key, value) ∷ es) = elim (add_to_block b key value) [
  | none ↦ none
  | some b' ↦ add_all_to_block b' es
]

-- `newBlockIterator` and the loop on it.
unfoldable pub read_whole_block : ℕ → Bytes → Option (List (Bytes × Bytes))
unfolding reset_block_iterator collect_entries
read_whole_block f block = elim (reset_block_iterator block) [
  | none ↦ none
  | some it ↦ collect_entries f it
]
