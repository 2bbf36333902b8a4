-- ===== src/PeerStorage/Ready.antt =====
-- raftstore/peer_storage.go: what a ready state of the raft library writes, and the state after it.
-- The region of a snapshot's data is decoded by protobuf, which is a parameter. A write of the raft
-- batch is the entry, the index or the state that its key stands for; `run_writes` is the engine
-- after the batch was written.
use unistore.Base.{
  ℕ, zero, suc, ◌+◌, ◌-◌, ltb, ◌==◌, Bool, if◌then◌else◌, not, ◌&&◌, List, [], ◌∷◌, ◌++◌, map,
  get_last_or, Bytes, Outcome, ok, err, panic, Option, none, some,
}
use unistore.State.{ApplyState, RaftState}
use unistore.Region.{Region}
use unistore.EntryCache.{Entry, append_entries}
use unistore.PeerStorage.{PeerStorage, HardState, Engine, is_initialized}

pub data RaftWrite : Type 0 where
  put_entry : Entry → RaftWrite
  delete_entry : ℕ → RaftWrite
  put_raft_state : RaftState → RaftWrite
  delete_raft_state : RaftWrite

pub data KvWrite : Type 0 where
  put_applying_region : Region → KvWrite
  put_apply_state : ApplyState → KvWrite
  put_snapshot_raft_state : RaftState → KvWrite
  delete_region_state delete_apply_state : KvWrite

pub record InvokeContext : Type 0 where
  pub raft_state : RaftState
  pub apply_state : ApplyState
  pub last_term : ℕ
  pub snap_region : Option Region

unfoldable pub new_invoke_context : PeerStorage → InvokeContext
new_invoke_context ps = record {
  raft_state = ps.raft_state;
  apply_state = ps.apply_state;
  last_term = ps.last_term;
  snap_region = none;
}

-- The deletions of `n` indexes from `i` on.
abbrev pub delete_from : ℕ → ℕ → List RaftWrite
delete_from i zero = []
delete_from i (suc n) = delete_entry i ∷ delete_from (suc i) n

abbrev pub append_context : InvokeContext → Entry → InvokeContext
append_context ctx last = record ctx {
  raft_state = record ctx.raft_state { last_index = last.index };
  last_term = last.term;
}

abbrev pub append_writes : ℕ → Entry → List Entry → List RaftWrite
append_writes prev_last last entries =
    map put_entry entries ++ delete_from (last.index + 1) (prev_last - last.index)

abbrev pub with_cache :
    PeerStorage
    → InvokeContext
    → List RaftWrite
    → Option (List Entry)
    → Option (PeerStorage × InvokeContext × List RaftWrite)
with_cache ps ctx writes none = none
with_cache ps ctx writes (some cache) = some (record ps { cache = cache }, ctx, writes)

-- `Append`; `none` is the panic of the cache.
unfoldable pub append_log :
    PeerStorage → InvokeContext → List Entry → Option (PeerStorage × InvokeContext × List RaftWrite)
unfolding append_entries
append_log ps ctx [] = some (ps, ctx, [])
append_log ps ctx (e ∷ es) =
    let last = get_last_or e es in
    with_cache ps (append_context ctx last) (append_writes ctx.raft_state.last_index last (e ∷ es))
      (append_entries ps.cache (e ∷ es))

-- The first index from `i` on that the engine holds, among `n`; `i + n` if there is none.
unfoldable pub first_stored : Engine → ℕ → ℕ → ℕ
first_stored engine i zero = i
first_stored engine i (suc n) = elim (engine i) [
  | some e ↦ i
  | none ↦ first_stored engine (suc i) n
]

unfoldable pub clear_meta : Engine → ℕ → List KvWrite × List RaftWrite
unfolding first_stored
clear_meta engine last_index =
    let first = first_stored engine 0 (last_index + 1) in
    (
      delete_region_state ∷ delete_apply_state ∷ [],
      delete_from first (last_index + 1 - first) ++ (delete_raft_state ∷ []),
    )

pub record Snapshot : Type 0 where
  pub index : ℕ
  pub term : ℕ
  pub content : Bytes

pub data SnapshotError : Type 0 where
  bad_content : SnapshotError
  mismatch_region : ℕ → ℕ → SnapshotError

abbrev pub snapshot_context : InvokeContext → Snapshot → Region → InvokeContext
snapshot_context ctx snap region = record ctx {
  raft_state = record ctx.raft_state { last_index = snap.index };
  last_term = snap.term;
  apply_state = record {
    applied_index = snap.index;
    truncated_index = snap.index;
    truncated_term = snap.term;
  };
  snap_region = some region;
}

pub record Ready : Type 0 where
  -- `none` is the empty snapshot.
  pub snapshot : Option Snapshot
  pub entries : List Entry
  pub hard_state : HardState

abbrev pub is_empty_hard_state : HardState → Bool
is_empty_hard_state h = h.term == 0 && h.vote == 0 && h.commit == 0

-- The hard state is kept once the peer has a log.
abbrev pub set_hard_state : InvokeContext → HardState → InvokeContext
set_hard_state ctx h =
    if ltb 0 ctx.raft_state.last_index && not (is_empty_hard_state h)
    then record ctx {
      raft_state = record ctx.raft_state { commit = h.commit; term = h.term; vote = h.vote };
    }
    else ctx

abbrev pub same_raft_state : RaftState → RaftState → Bool
same_raft_state s t =
    s.term == t.term && s.vote == t.vote && s.commit == t.commit && s.last_index == t.last_index

abbrev pub same_apply_state : ApplyState → ApplyState → Bool
same_apply_state s t =
    s.applied_index == t.applied_index
    && s.truncated_index == t.truncated_index
    && s.truncated_term == t.truncated_term

abbrev pub snapshot_raft_state : RaftState → ℕ → RaftState
snapshot_raft_state s index = record s { commit = index; last_index = index }

-- The storage, whose cache has changed, the context, and the two batches.
pub record Saved : Type 0 where
  pub storage : PeerStorage
  pub context : InvokeContext
  pub kv_writes : List KvWrite
  pub raft_writes : List RaftWrite

-- The part after the snapshot and the entries.
unfoldable pub save_states : PeerStorage → ℕ → HardState → Saved → Saved
save_states before snapshot_index h s =
    let ctx = set_hard_state s.context h in
    let raft_changed = not (same_raft_state ctx.raft_state before.raft_state) in
    let apply_changed = not (same_apply_state ctx.apply_state before.apply_state) in
    record s {
      context = ctx;
      raft_writes =
          s.raft_writes ++ (if raft_changed then put_raft_state ctx.raft_state ∷ [] else []);
      kv_writes =
          s.kv_writes
          ++ (if raft_changed && ltb 0 snapshot_index
              then put_snapshot_raft_state (snapshot_raft_state ctx.raft_state snapshot_index) ∷ []
              else [])
          ++ (if apply_changed then put_apply_state ctx.apply_state ∷ [] else []);
    }

abbrev pub save_entries :
    PeerStorage
    → ℕ
    → HardState
    → List KvWrite
    → List RaftWrite
    → Option (PeerStorage × InvokeContext × List RaftWrite)
    → Outcome SnapshotError Saved
save_entries before snapshot_index h kv raft none = panic
save_entries before snapshot_index h kv raft (some (ps, ctx, writes)) = ok (
    save_states before snapshot_index h
      (record { storage = ps; context = ctx; kv_writes = kv; raft_writes = raft ++ writes }))

module _ (decode_region : Bytes → Option Region) where
  unfoldable pub apply_snapshot :
      PeerStorage
      → Engine
      → InvokeContext
      → Snapshot
      → Outcome SnapshotError (InvokeContext × List KvWrite × List RaftWrite)
  unfolding clear_meta
  apply_snapshot ps engine ctx snap = elim (decode_region snap.content) [
    | none ↦ err bad_content
    | some region ↦
        let (kv, raft) =
          if is_initialized ps.region
          then clear_meta engine ps.raft_state.last_index
          else ([], []) in
        if not (region.id == ps.region.id)
        then err (mismatch_region region.id ps.region.id)
        else ok (snapshot_context ctx snap region, kv ++ (put_applying_region region ∷ []), raft)
  ]

  abbrev pub after_snapshot :
      PeerStorage
      → Ready
      → Outcome SnapshotError (InvokeContext × List KvWrite × List RaftWrite)
      → Outcome SnapshotError Saved
  after_snapshot ps ready (err e) = err e
  after_snapshot ps ready panic = panic
  after_snapshot ps ready (ok (ctx, kv, raft)) =
      save_entries ps ctx.raft_state.last_index ready.hard_state kv raft
        (append_log ps ctx ready.entries)

  -- `SaveReadyState`.
  unfoldable pub save_ready_state : PeerStorage → Engine → Ready → Outcome SnapshotError Saved
  unfolding append_log new_invoke_context apply_snapshot save_states
  save_ready_state ps engine ready =
      let ctx = new_invoke_context ps in
      elim ready.snapshot [
        | none ↦ save_entries ps 0 ready.hard_state [] [] (append_log ps ctx ready.entries)
        | some snap ↦ after_snapshot ps ready (apply_snapshot ps engine ctx snap)
      ]

-- `PostReadyPersistent`: the region before and after a snapshot is applied, if one is.
unfoldable pub post_ready_persistent :
    PeerStorage → InvokeContext → PeerStorage × Option (Region × Region)
post_ready_persistent ps ctx =
    let ps' = record ps {
      raft_state = ctx.raft_state;
      apply_state = ctx.apply_state;
      last_term = ctx.last_term;
    } in
    elim ctx.snap_region [
      | none ↦ (ps', none)
      | some region ↦ (record ps' { region = region }, some (ps.region, region))
    ]

unfoldable pub run_write : Engine → RaftWrite → Engine
run_write engine (put_entry e) i = if i == e.index then some e else engine i
run_write engine (delete_entry j) i = if i == j then none else engine i
run_write engine (put_raft_state s) i = engine i
run_write engine delete_raft_state i = engine i

unfoldable pub run_writes : Engine → List RaftWrite → Engine
unfolding run_write
run_writes engine [] = engine
run_writes engine (w ∷ ws) = run_writes (run_write engine w) ws
