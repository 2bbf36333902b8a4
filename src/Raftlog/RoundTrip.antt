-- ===== src/Raftlog/RoundTrip.antt =====
-- What a builder wrote is what the visitors of the raft log see.
use mathlib.Core.List.{foldl}
use native.Mathlib.Nat.{mod-eq_of_lt}
use unistore.Base.{
  ℕ, ◌+◌, ◌<◌, ◌^◌, ◌%◌, ◌≡◌, refl, sym, ap, ◌∙◌, Bool, List, [], ◌∷◌, ◌++◌, append_assoc,
  append-nil, All, length, length-append, drop, Bytes, IsU16, IsU32, IsU64, put_le, ltb,
  get_le-put_le, put_le-append, length-put_le, split_at-append, Outcome, ok, Option, some, arith,
  if◌then◌else◌, All-map,
}
use unistore.Raftlog.{
  CustomHeader, CustomRaftLog, CustomBuilder, Commit, Rollback, Stuck, marshal_header, read_header,
  new_custom, build, new_builder, set_type, log_type, iterate, visits, iterate_lock, iterate_commit,
  iterate_rollback, iterate_pessimistic_rollback, read_block, write_block, read_lock, read_commit,
  read_rollback, read_pessimistic_rollback, append_lock, append_commit, custom_raft_log_flag,
  header_size, set_second, append_rollback, append_pessimistic_rollback,
}
use unistore.Raftlog.Loop.{Reads, written, iterate-written}
use unistore.Base.Partial.{◌>>=◌}

abbrev pub IsHeaderRange : CustomHeader → Type 0
IsHeaderRange h =
    IsU64 h.region_id
    × IsU32 h.epoch.ver
    × IsU32 h.epoch.conf_ver
    × IsU64 h.peer_id
    × IsU64 h.store_id
    × IsU64 h.term

read_header-marshal_header :
    (h : CustomHeader) (rest : Bytes)
    → IsHeaderRange h
    → read_header (marshal_header h ++ rest) ≡ some h
unfolding read_header marshal_header
read_header-marshal_header h rest r =
    simp (put_le-append, get_le-put_le, r.0, r.1, r.2, r.3, r.4, r.5)

read_block-write_block :
    (k : ℕ) (block rest : Bytes)
    → length block < 256 ^ k
    → read_block k (write_block k block rest) ≡ some (block, rest)
unfolding read_block write_block
read_block-write_block k block rest h =
    rw (mod-eq_of_lt h, get_le-put_le k (length block) (block ++ rest) h)
      (split_at-append block rest)

length-write_block :
    (k : ℕ) (block rest : Bytes)
    → length (write_block k block rest) ≡ k + length block + length rest
unfolding write_block
length-write_block k block rest =
    omega
      (arith, length-put_le k (length block % 256 ^ k) (block ++ rest), length-append block rest)

write_block-append :
    (k : ℕ) (block r s : Bytes) → write_block k block r ++ s ≡ write_block k block (r ++ s)
unfolding write_block
write_block-append k block r s =
    put_le-append k _ (block ++ r) s
    ∙ ap (put_le k (length block % 256 ^ k)) (append_assoc block r s)

-- One entry of each kind, in front of the rest.
abbrev write_lock : Bytes × Bytes → Bytes → Bytes
write_lock (key, value) rest = write_block 2 key (write_block 4 value rest)

abbrev write_commit : Commit → Bytes → Bytes
write_commit c rest = write_block 2 c.key (write_block 4 c.val (put_le 8 c.commit_ts rest))

abbrev bool_byte : Bool → ℕ
bool_byte b = if b then 1 else 0

abbrev write_rollback : Rollback → Bytes → Bytes
write_rollback r rest =
    write_block 2 r.key (put_le 8 r.start_ts (put_le 1 (bool_byte r.delete_lock) rest))

abbrev write_pessimistic_rollback : Bytes → Bytes → Bytes
write_pessimistic_rollback key rest = write_block 2 key rest

abbrev pub IsLock : Bytes × Bytes → Type 0
IsLock (key, value) = IsU16 (length key) × IsU32 (length value)

abbrev pub IsCommit : Commit → Type 0
IsCommit c = IsU16 (length c.key) × IsU32 (length c.val) × IsU64 c.commit_ts

abbrev pub IsRollback : Rollback → Type 0
IsRollback r = IsU16 (length r.key) × IsU64 r.start_ts

lock-Reads : (a : Bytes × Bytes) → IsLock a → Reads read_lock write_lock a
unfolding read_lock
lock-Reads (key, value) (hk, hv) rest =
    (simp (read_block-write_block, hk, hv), simp length-write_block (omega arith))

commit-Reads : (c : Commit) → IsCommit c → Reads read_commit write_commit c
unfolding read_commit
commit-Reads c h rest = (
  simp (read_block-write_block, get_le-put_le, h.0, h.1, h.2),
  simp (length-write_block, length-put_le) (omega arith),
)

bool_byte-lt : (b : Bool) → bool_byte b < 256 ^ 1
bool_byte-lt b = ground arith

bool_byte-ltb : (b : Bool) → ltb 0 (bool_byte b) ≡ b
bool_byte-ltb b = ground arith

rollback-Reads : (r : Rollback) → IsRollback r → Reads read_rollback write_rollback r
unfolding read_rollback
rollback-Reads r h rest = (
  simp (read_block-write_block, get_le-put_le, h.0, h.1, bool_byte-lt r.delete_lock)
      (ap (λ d. some (record r { delete_lock = d }, rest)) (bool_byte-ltb r.delete_lock)),
  simp (length-write_block, length-put_le) (omega arith),
)

pessimistic_rollback-Reads :
    (key : Bytes)
    → IsU16 (length key)
    → Reads read_pessimistic_rollback write_pessimistic_rollback key
unfolding read_pessimistic_rollback
pessimistic_rollback-Reads key h rest =
    (simp (read_block-write_block, h), simp length-write_block (omega arith))

abbrev log_content : CustomHeader → ℕ → Bytes → Bytes
log_content h tp rest = custom_raft_log_flag ∷ tp ∷ 0 ∷ 0 ∷ (marshal_header h ++ rest)

drop_header :
    (h : CustomHeader) (tp : ℕ) (rest : Bytes)
    → drop (4 + header_size) (log_content h tp rest) ≡ rest
unfolding marshal_header put_le
drop_header h tp rest = refl

-- The builder makes a raft log with the header, the type and the entries, and counts the entries.
abbrev pub Builds {ℓ} :
    {A : Type ℓ}
    → CustomBuilder
    → CustomHeader
    → ℕ
    → (CustomRaftLog → Outcome Stuck (List A))
    → List A
    → Type ℓ
Builds b h tp visit es =
    (c : CustomRaftLog) × (build b ≡ some c)
    × (c.header ≡ h)
    × (log_type c ≡ some tp)
    × (visit c ≡ ok es)
    × (b.cnt ≡ length es)

append_rollback_bytes :
    (b : CustomBuilder) (r : Rollback)
    → (append_rollback b r).content ≡ b.content ++ write_rollback r []
unfolding append_rollback put_le
append_rollback_bytes b r = ground arith

-- The four kinds of builder loops, over how one entry is appended, written and read.
module _ {ℓ} {A : Type ℓ} (append : CustomBuilder → A → CustomBuilder) (write : A → Bytes → Bytes)
    (read : Bytes → Option (A × Bytes))
    (appends : (b : CustomBuilder) (a : A) → (append b a).content ≡ b.content ++ write a [])
    (counts : (b : CustomBuilder) (a : A) → (append b a).cnt ≡ b.cnt + 1)
    (writes : (a : A) (r s : Bytes) → write a r ++ s ≡ write a (r ++ s)) where
  foldl-written :
      (b : CustomBuilder) (es : List A)
      → ((foldl append b es).content ≡ b.content ++ written read write es)
        × ((foldl append b es).cnt ≡ b.cnt + length es)
  foldl-written b [] = (sym (append-nil b.content), omega arith)
  foldl-written b (a ∷ es) =
      let (p, q) = foldl-written (append b a) es in
      (
        p
            ∙ rw (appends b a) (append_assoc b.content (write a []) (written read write es))
            ∙ ap (λ t. b.content ++ t) (writes a [] (written read write es)),
        omega (arith, q, counts b a),
      )

  -- The type is set once all entries are appended.
  abbrev built_by : CustomHeader → ℕ → List A → CustomBuilder
  built_by h tp es = set_type (foldl append (new_builder h) es) tp

  built_content :
      (h : CustomHeader) (tp : ℕ) (es : List A)
      → (built_by h tp es).content ≡ log_content h tp (written read write es)
  unfolding set_type new_builder
  built_content h tp es = ap (set_second tp) (foldl-written (new_builder h) es).0

  built :
      (h : CustomHeader) (tp : ℕ) (es : List A)
      → IsHeaderRange h
      → All (Reads read write) es
      → Builds (built_by h tp es) h tp (visits read) es
  unfolding build new_custom set_type new_builder log_type visits
  built h tp es r reads = (
    record { header = h; content = log_content h tp W },
    ap build_content (built_content h tp es)
        ∙ ap (λ o. o >>= λ header. some (record { header = header; content = log_content h tp W }))
            (read_header-marshal_header h W r),
    refl,
    refl,
    ap (λ t. iterate read (length t) t) (drop_header h tp W)
        ∙ iterate-written read write es (length W) reads (omega arith),
    omega (arith, (foldl-written (new_builder h) es).1),
  )
    where
      W : Bytes
      W = written read write es

      build_content : Bytes → Option CustomRaftLog
      build_content = new_custom

-- A builder given a header, locks with lengths in range and a type builds a raft log with that
-- header and type whose visitor is called with exactly those locks.
build-append_lock :
    (h : CustomHeader) (tp : ℕ) (locks : List (Bytes × Bytes))
    → IsHeaderRange h
    → All IsLock locks
    → Builds (set_type (foldl append_lock (new_builder h) locks) tp) h tp iterate_lock locks
unfolding iterate_lock append_lock
build-append_lock h tp locks r p =
    built append_lock write_lock read_lock (λ b a. refl) (λ b a. refl)
      (λ a r s. simp write_block-append) h tp locks r (All-map IsLock lock-Reads locks p)

-- A builder given a header, commits with lengths and timestamps in range and a type builds a raft
-- log with that header and type whose visitor is called with exactly those commits.
pub build-append_commit :
    (h : CustomHeader) (tp : ℕ) (commits : List Commit)
    → IsHeaderRange h
    → All IsCommit commits
    → Builds (set_type (foldl append_commit (new_builder h) commits) tp) h tp iterate_commit commits
unfolding iterate_commit append_commit
build-append_commit h tp commits r p =
    built append_commit write_commit read_commit (λ b a. refl) (λ b a. refl)
      (λ a r s. simp (write_block-append, put_le-append)) h tp commits r
      (All-map IsCommit commit-Reads commits p)

-- A builder given a header, rollbacks in range and a type builds a raft log with that header and
-- type whose visitor is called with exactly those rollbacks, flags included.
pub build-append_rollback :
    (h : CustomHeader) (tp : ℕ) (rollbacks : List Rollback)
    → IsHeaderRange h
    → All IsRollback rollbacks
    → Builds
        (set_type (foldl append_rollback (new_builder h) rollbacks) tp)
        h
        tp
        iterate_rollback
        rollbacks
unfolding iterate_rollback append_rollback
build-append_rollback h tp rollbacks r p =
    built append_rollback write_rollback read_rollback (λ b a. append_rollback_bytes b a)
      (λ b a. refl) (λ a r s. simp (write_block-append, put_le-append)) h tp rollbacks r
      (All-map IsRollback rollback-Reads rollbacks p)

-- A builder given a header, keys with lengths in range and a type builds a raft log with that
-- header and type whose visitor is called with exactly those keys.
pub build-append_pessimistic_rollback :
    (h : CustomHeader) (tp : ℕ) (keys : List Bytes)
    → IsHeaderRange h
    → All (λ key. IsU16 (length key)) keys
    → Builds
        (set_type (foldl append_pessimistic_rollback (new_builder h) keys) tp)
        h
        tp
        iterate_pessimistic_rollback
        keys
unfolding iterate_pessimistic_rollback append_pessimistic_rollback
build-append_pessimistic_rollback h tp keys r p =
    built append_pessimistic_rollback write_pessimistic_rollback read_pessimistic_rollback
      (λ b a. refl) (λ b a. refl) (λ a r s. simp write_block-append) h tp keys r
      (All-map (λ key. IsU16 (length key)) pessimistic_rollback-Reads keys p)
