-- ===== src/Raftlog.antt =====
-- raftstore/raftlog/custom.go: the raft log format of prewrites, commits and locks.
-- The header is a Go struct that is copied as memory: five words in the order of the fields, lowest
-- byte first, as on the machines that the store runs on. A slice's capacity is its length.
pub mod Loop
pub mod RoundTrip
pub mod Ends
use unistore.Base.{
  ℕ, zero, suc, ◌+◌, ◌*◌, ◌%◌, ◌^◌, ltb, Bool, true, false, if◌then◌else◌, List, [], ◌∷◌, ◌++◌,
  length, get_elem?, drop, Bytes, put_le, get_le, split_at, Outcome, ok, err, panic, Option, none,
  some,
}
use unistore.Base.Partial.{◌>>=◌}

pub record Epoch : Type 0 where
  pub ver : ℕ
  pub conf_ver : ℕ

-- The fields are uint32.
unfoldable pub new_epoch : ℕ → ℕ → Epoch
new_epoch ver conf_ver = record { ver = ver % 2 ^ 32; conf_ver = conf_ver % 2 ^ 32 }

pub record CustomHeader : Type 0 where
  pub region_id : ℕ
  pub epoch : Epoch
  pub peer_id : ℕ
  pub store_id : ℕ
  pub term : ℕ

abbrev pub header_size : ℕ
header_size = 40

unfoldable pub marshal_header : CustomHeader → Bytes
marshal_header h = put_le 8 h.region_id (
    put_le 4 h.epoch.ver
      (put_le 4 h.epoch.conf_ver (put_le 8 h.peer_id (put_le 8 h.store_id (put_le 8 h.term [])))))

-- The pointer into the data, read as a header.
unfoldable pub read_header : Bytes → Option CustomHeader
read_header bs = do
  (region_id, bs1) ← get_le 8 bs
  (ver, bs2) ← get_le 4 bs1
  (conf_ver, bs3) ← get_le 4 bs2
  (peer_id, bs4) ← get_le 8 bs3
  (store_id, bs5) ← get_le 8 bs4
  (term, _) ← get_le 8 bs5
  some (record {
    region_id = region_id;
    epoch = record { ver = ver; conf_ver = conf_ver };
    peer_id = peer_id;
    store_id = store_id;
    term = term;
  })

pub record CustomRaftLog : Type 0 where
  pub header : CustomHeader
  pub content : Bytes

unfoldable pub new_custom : Bytes → Option CustomRaftLog
unfolding read_header
new_custom content = do
  header ← read_header (drop 4 content)
  some (record { header = header; content = content })

abbrev pub custom_raft_log_flag : ℕ
custom_raft_log_flag = 64

-- `CustomRaftLogType`.
abbrev pub type_prewrite : ℕ
type_prewrite = 1

abbrev pub type_commit : ℕ
type_commit = 2

abbrev pub type_rollback : ℕ
type_rollback = 3

abbrev pub type_pessimistic_lock : ℕ
type_pessimistic_lock = 4

abbrev pub type_pessimistic_rollback : ℕ
type_pessimistic_rollback = 5

unfoldable pub log_type : CustomRaftLog → Option ℕ
log_type c = get_elem? c.content 1

-- A length of `k` bytes and then as many bytes.
unfoldable pub read_block : ℕ → Bytes → Option (Bytes × Bytes)
read_block k bs = do (len, rest) ← get_le k bs; split_at len rest

unfoldable pub write_block : ℕ → Bytes → Bytes → Bytes
write_block k block rest = put_le k (length block % 256 ^ k) (block ++ rest)

pub record Commit : Type 0 where
  pub key : Bytes
  pub val : Bytes
  pub commit_ts : ℕ

pub record Rollback : Type 0 where
  pub key : Bytes
  pub start_ts : ℕ
  pub delete_lock : Bool

-- One round of each loop: the entry that the visitor is called with, and the rest of the data.
unfoldable pub read_lock : Bytes → Option ((Bytes × Bytes) × Bytes)
read_lock bs = do
  (key, bs1) ← read_block 2 bs
  (val, bs2) ← read_block 4 bs1
  some ((key, val), bs2)

unfoldable pub read_commit : Bytes → Option (Commit × Bytes)
read_commit bs = do
  (key, bs1) ← read_block 2 bs
  (val, bs2) ← read_block 4 bs1
  (ts, bs3) ← get_le 8 bs2
  some (record { key = key; val = val; commit_ts = ts }, bs3)

unfoldable pub read_rollback : Bytes → Option (Rollback × Bytes)
read_rollback bs = do
  (key, bs1) ← read_block 2 bs
  (ts, bs2) ← get_le 8 bs1
  (del, bs3) ← get_le 1 bs2
  some (record { key = key; start_ts = ts; delete_lock = ltb 0 del }, bs3)

unfoldable pub read_pessimistic_rollback : Bytes → Option (Bytes × Bytes)
read_pessimistic_rollback bs = read_block 2 bs

-- The calls that a loop makes; `out_of_fuel` is no behaviour of the code.
pub data Stuck : Type 0 where
  out_of_fuel : Stuck

module _ {ℓ} {A : Type ℓ} where
  unfoldable pub iterate : (Bytes → Option (A × Bytes)) → ℕ → Bytes → Outcome Stuck (List A)
  iterate read fuel [] = ok []
  iterate read zero (b ∷ bs) = err out_of_fuel
  iterate read (suc fuel) (b ∷ bs) = elim (read (b ∷ bs)) [
    | none ↦ panic
    | some (entry, rest) ↦ elim (iterate read fuel rest) [
      | ok entries ↦ ok (entry ∷ entries)
      | err e ↦ err e
      | panic ↦ panic
    ]
  ]

  -- The entries stand behind the flag, the type, the version and the header.
  unfoldable pub visits : (Bytes → Option (A × Bytes)) → CustomRaftLog → Outcome Stuck (List A)
  unfolding iterate
  visits read c = let rest = drop (4 + header_size) c.content in iterate read (length rest) rest

unfoldable pub iterate_lock : CustomRaftLog → Outcome Stuck (List (Bytes × Bytes))
iterate_lock = visits read_lock

unfoldable pub iterate_commit : CustomRaftLog → Outcome Stuck (List Commit)
iterate_commit = visits read_commit

unfoldable pub iterate_rollback : CustomRaftLog → Outcome Stuck (List Rollback)
iterate_rollback = visits read_rollback

unfoldable pub iterate_pessimistic_rollback : CustomRaftLog → Outcome Stuck (List Bytes)
iterate_pessimistic_rollback = visits read_pessimistic_rollback

pub record CustomBuilder : Type 0 where
  pub content : Bytes
  pub cnt : ℕ

unfoldable pub new_builder : CustomHeader → CustomBuilder
unfolding marshal_header
new_builder h = record { content = custom_raft_log_flag ∷ 0 ∷ 0 ∷ 0 ∷ marshal_header h; cnt = 0 }

-- The `append` of the bytes of one more entry.
abbrev append_entry : CustomBuilder → Bytes → CustomBuilder
append_entry b entry = record { content = b.content ++ entry; cnt = b.cnt + 1 }

unfoldable pub append_lock : CustomBuilder → Bytes × Bytes → CustomBuilder
append_lock b (key, value) = append_entry b (write_block 2 key (write_block 4 value []))

unfoldable pub append_commit : CustomBuilder → Commit → CustomBuilder
append_commit b c =
    append_entry b (write_block 2 c.key (write_block 4 c.val (put_le 8 c.commit_ts [])))

unfoldable pub append_rollback : CustomBuilder → Rollback → CustomBuilder
append_rollback b r =
    append_entry b
      (write_block 2 r.key (put_le 8 r.start_ts ((if r.delete_lock then 1 else 0) ∷ [])))

unfoldable pub append_pessimistic_rollback : CustomBuilder → Bytes → CustomBuilder
append_pessimistic_rollback b key = append_entry b (write_block 2 key [])

-- `b.data[1] = byte(tp)`; the data of a builder is never shorter than the header.
abbrev pub set_second : ℕ → Bytes → Bytes
set_second v [] = []
set_second v (a ∷ []) = a ∷ []
set_second v (a ∷ b ∷ rest) = a ∷ v ∷ rest

unfoldable pub set_type : CustomBuilder → ℕ → CustomBuilder
set_type b tp = record b { content = set_second tp b.content }

unfoldable pub build : CustomBuilder → Option CustomRaftLog
unfolding new_custom
build b = new_custom b.content
