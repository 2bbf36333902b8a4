-- ===== src/PeerStorage/StaleCache.antt =====
-- A snapshot leaves the entry cache as it was.
use unistore.EntryCache.Append.{append_entries-eq-none_iff}
use unistore.PeerStorage.{PeerStorage, Engine, HardState, is_initialized}
use unistore.Region.{Region}
use unistore.PeerStorage.Ready.{
  apply_snapshot, save_ready_state, append_log, InvokeContext, Snapshot, KvWrite,
  new_invoke_context, RaftWrite, snapshot_context, clear_meta, put_applying_region,
}
use unistore.Base.{
  ℕ, ◌+◌, ◌≤◌, ◌≡◌, ◌≢◌, refl, if◌then◌else◌, List, [], ◌∷◌, length, Option, none, some, ok, panic,
  arith, Bytes, ◌++◌,
}
use unistore.EntryCache.{Entry, append_entries}
use unistore.EntryCache.Indexed.{From}

apply_snapshot_ok :
    (decode_region : Bytes → Option Region) (ps : PeerStorage) (engine : Engine)
    (ctx : InvokeContext) (snap : Snapshot) (region : Region)
    → decode_region snap.content ≡ some region
    → region.id ≡ ps.region.id
    → (kv : List KvWrite) × (raft : List RaftWrite) × (apply_snapshot decode_region ps engine ctx
          snap
        ≡ ok (snapshot_context ctx snap region, kv, raft))
unfolding apply_snapshot
apply_snapshot_ok decode_region ps engine ctx snap region d same =
    let cleared =
      if is_initialized ps.region then clear_meta engine ps.raft_state.last_index else ([], []) in
    (cleared.0 ++ (put_applying_region region ∷ []), cleared.1, ground (arith, d, same))

-- If the cache is not empty and its last entry is before the index of a snapshot of the peer's
-- region, then SaveReadyState on that snapshot with an entry that follows it panics.
pub save_ready_state_stale_cache :
    (decode_region : Bytes → Option Region) (ps : PeerStorage) (engine : Engine) (h : HardState)
    (snap : Snapshot) (region : Region) (n : ℕ) (e : Entry) (es : List Entry)
    → decode_region snap.content ≡ some region
    → region.id ≡ ps.region.id
    → ps.cache ≢ []
    → From n ps.cache
    → n + length ps.cache ≤ snap.index
    → e.index ≡ snap.index + 1
    → save_ready_state decode_region ps engine
        (record { snapshot = some snap; entries = e ∷ es; hard_state = h })
      ≡ panic
unfolding save_ready_state append_log
save_ready_state_stale_cache decode_region ps engine h snap region n e es d same some_cached f l
      next =
    let (kv, raft, a) =
      apply_snapshot_ok decode_region ps engine (new_invoke_context ps) snap region d same in
    let hole : append_entries ps.cache (e ∷ es) ≡ none =
      (append_entries-eq-none_iff n ps.cache e es f).1 (some_cached, omega arith) in
    rw (a, hole) refl
