-- ===== src/Tests/StorageRuns.antt =====
-- The entry cache and the peer storage at concrete inputs.
use unistore.PeerStorage.ReadyIsLog.{save_ready_state-IsLog}
use unistore.PeerStorage.ReadyLog.{appended}
use unistore.PeerStorage.StaleCache.{save_ready_state_stale_cache}
use unistore.PeerStorage.Ready.{
  Snapshot, Saved, save_ready_state, post_ready_persistent, run_writes,
}
use unistore.EntryCache.Append.{IsCache, append_entries-entry_at}
use unistore.PeerStorage.Limit.{limited, segment}
use unistore.EntryCache.Indexed.{entry_at}
use unistore.PeerStorage.Term.{HasTerms, term_lem}
use unistore.PeerStorage.Entries.{IsLog, entries-limited}
use unistore.PeerStorage.{PeerStorage, entries, term, compacted, out_of_bound, HardState}
use unistore.Region.{Region}
use unistore.EntryCache.{append_entries, Entry, entry_normal, max_cache_capacity}
use unistore.Base.{
  ℕ, ◌+◌, ◌<◌, ◌≡◌, inr, refl, ltb, leb, if◌then◌else◌, List, [], ◌∷◌, none, some, Option, ok, err,
  arith, Bytes, panic,
}

-- A log whose terms grow after index 8.
abbrev log_entry : ℕ → Entry
log_entry i = record {
  entry_type = entry_normal;
  term = if ltb i 9 then 5 else 6;
  index = i;
  content = [];
}

abbrev ten_bytes : Entry → ℕ
ten_bytes e = 10

abbrev sized : (e : Entry) → 0 < ten_bytes e
sized e = omega arith

abbrev own_index : (i : ℕ) → (log_entry i).index ≡ i
own_index i = refl

abbrev whole_log : ℕ → Option Entry
whole_log i = some (log_entry i)

abbrev nowhere : Region
nowhere = record {
  id = 7;
  start_key = [];
  end_key = [];
  region_epoch = record { conf_ver = 1; version = 1 };
  peers = [];
}

-- Truncated at 5, with entries up to 10, of which the last two are cached.
abbrev storage : PeerStorage
storage = record {
  region = nowhere;
  raft_state = record { term = 6; vote = 1; commit = 10; last_index = 10 };
  apply_state = record { applied_index = 10; truncated_index = 5; truncated_term = 5 };
  last_term = 6;
  cache = log_entry 9 ∷ log_entry 10 ∷ [];
  hit = 0;
  miss = 0;
}

storage-IsLog : IsLog storage whole_log log_entry
storage-IsLog = record {
  stored = λ j a b. refl;
  fits = omega arith;
  cached = inr (9, 1, refl, refl);
}

storage-HasTerms : HasTerms storage log_entry
storage-HasTerms = record {
  ordered = omega arith;
  truncated = refl;
  last = refl;
  grows = λ i j h. ground arith;
}

entries-limited_example :
    (entries ten_bytes whole_log 45 storage 6 11).1
    ≡ ok (limited ten_bytes 45 0 (segment log_entry 6 5))
entries-limited_example =
    entries-limited ten_bytes sized 45 log_entry own_index storage whole_log 6 11 storage-IsLog
      (omega arith) (omega arith) (omega arith)

term_lem_example : (term ten_bytes whole_log storage 9).1 ≡ (
    if ltb 9 5 then err compacted else if leb 9 10 then ok (log_entry 9).term else err out_of_bound)
term_lem_example =
    term_lem ten_bytes sized log_entry own_index storage whole_log 9 storage-IsLog storage-HasTerms
      (omega arith)

append_entries-entry_at_example :
    (result : List Entry) × (append_entries
        (log_entry 9 ∷ log_entry 10 ∷ [])
        (log_entry 10 ∷ log_entry 11 ∷ [])
      ≡ some result)
    × IsCache result
    × ((i : ℕ)
        → entry_at i result ≡ (
            if ltb (i + max_cache_capacity) 12
            then none
            else if ltb i 10
            then entry_at i (log_entry 9 ∷ log_entry 10 ∷ [])
            else entry_at i (log_entry 10 ∷ log_entry 11 ∷ [])))
append_entries-entry_at_example =
    append_entries-entry_at 9 (log_entry 9 ∷ log_entry 10 ∷ []) (log_entry 10) (log_entry 11 ∷ [])
      (refl, (refl, tt)) (refl, (refl, tt)) (inr (omega arith))

abbrev new_state : HardState
new_state = record { term = 7; vote = 1; commit = 10 }

abbrev eleven : Entry
eleven = record { entry_type = entry_normal; term = 7; index = 11; content = [] }

abbrev no_region : Bytes → Option Region
no_region bs = none

save_ready_state-IsLog_example :
    (s : Saved) × (save_ready_state no_region storage whole_log
        (record { snapshot = none; entries = eleven ∷ []; hard_state = new_state })
      ≡ ok s)
    × IsLog
        (post_ready_persistent s.storage s.context).0
        (run_writes whole_log s.raft_writes)
        (appended log_entry (eleven ∷ []))
    × ((i : ℕ) → (appended log_entry (eleven ∷ []) i).index ≡ i)
save_ready_state-IsLog_example =
    save_ready_state-IsLog log_entry own_index eleven [] (refl, tt) no_region storage whole_log
      new_state storage-IsLog (omega arith) (omega arith) (omega arith)

abbrev snapshot_twenty : Snapshot
snapshot_twenty = record { index = 20; term = 7; content = [] }

abbrev to_nowhere : Bytes → Option Region
to_nowhere bs = some nowhere

abbrev twenty_one : Entry
twenty_one = record { entry_type = entry_normal; term = 7; index = 21; content = [] }

save_ready_state_stale_cache_example :
    save_ready_state to_nowhere storage whole_log (record {
      snapshot = some snapshot_twenty;
      entries = twenty_one ∷ [];
      hard_state = new_state;
    })
    ≡ panic
save_ready_state_stale_cache_example =
    save_ready_state_stale_cache to_nowhere storage whole_log new_state snapshot_twenty nowhere 9
      twenty_one [] refl refl (λ p. cc) (refl, (refl, tt)) (omega arith) refl
