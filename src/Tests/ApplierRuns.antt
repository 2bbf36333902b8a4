-- ===== src/Tests/ApplierRuns.antt =====
-- The applier at concrete inputs.
use unistore.Raftlog.{new_epoch}
use unistore.Applier.SplitAccepts.{IsSplit, exec_batch_split-IsSplit}
use unistore.Applier.EntriesEnd.{handle_raft_committed_entries-ne-none}
use unistore.PeerStorage.{first_index}
use unistore.Applier.{Write, set_data}
use unistore.Applier.ConfChangePeers.{peer_after, exec_change_peer-find_peer}
use unistore.Applier.ConfChangeAccepts.{Accepts, exec_change_peer-Accepts}
use unistore.Applier.SplitResult.{exec_batch_split-owners}
use unistore.Applier.EntriesIndex.{Handled, handle_raft_committed_entries-Handled}
use unistore.EntryCache.{Entry, entry_normal}
use unistore.Applier.Entries.{
  ApplyContext, handle_raft_committed_entries, handle_entries, write_apply_state, handle_entry,
  handle_normal, handle_empty_entry, parse_log,
}
use unistore.Applier.Exec.{Applier}
use unistore.Applier.Compact.{
  CompactLog, exec_compact_log, exec_compact_log-truncated, compact_raft_log,
}
use unistore.State.{ApplyState}
use unistore.Applier.CommandsAnswered.{
  in_notices, in_queue, in_found, find_callback-Ordered, find_callback_conserves,
}
use unistore.Applier.Commands.{
  find_callback, PendingCmd, Proposal, PendingCmdQueue, notify_stale, stale, pop_stale,
}
use unistore.Region.Peers.{DistinctStores}
use unistore.Applier.ConfChange.{
  ChangePeerResult, exec_change_peer, changed, changed_peers, remove_node, with_peers,
  next_conf_ver,
}
use unistore.Applier.SplitRanges.{owners, in_region}
use unistore.Applier.Split.{
  exec_batch_split, SplitRegion, right_split, check_splits, next_epoch, split_at_keys, new_regions,
  new_region, new_peers,
}
use unistore.Request.{
  BatchSplitRequest, RaftLog, ChangePeerRequest, CompactLogRequest, ConfChangeType, RaftCmdRequest,
  epoch, request,
}
use unistore.Region.{Region, Peer, find_peer, voter, remove_peer, peer_equal, check_key_in_region}
use unistore.Base.{
  ℕ, ◌+◌, ◌≤◌, ◌≡◌, ◌≢◌, ◌↔◌, refl, Bool, true, false, if◌then◌else◌, List, [], ◌∷◌, length, none,
  some, Option, ok, panic, arith, Bytes, compare_bytes, inl,
}

abbrev peer_at : ℕ → ℕ → Peer
peer_at i s = record { id = i; store_id = s; role = voter }

abbrev b_to_f : Region
b_to_f = record {
  id = 7;
  start_key = 98 ∷ [];
  end_key = 102 ∷ [];
  region_epoch = record { conf_ver = 1; version = 2 };
  peers = peer_at 10 1 ∷ peer_at 11 2 ∷ [];
}

abbrev two_splits : BatchSplitRequest
two_splits = record {
  requests =
      record {
        split_key = 99 ∷ [];
        new_region_id = 8;
        new_peer_ids = 20 ∷ 21 ∷ [];
        right_derive = true;
      }
      ∷ record {
        split_key = 100 ∷ [];
        new_region_id = 9;
        new_peer_ids = 30 ∷ 31 ∷ [];
        right_derive = true;
      }
      ∷ [];
  right_derive = true;
}

abbrev part : ℕ → List ℕ → ℕ → ℕ → Region
part i ids a b = record {
  id = i;
  start_key = a ∷ [];
  end_key = b ∷ [];
  region_epoch = record { conf_ver = 1; version = 4 };
  peers = new_ids ids b_to_f.peers;
}
  where
    new_ids : List ℕ → List Peer → List Peer
    new_ids [] ps = []
    new_ids (i ∷ is) [] = []
    new_ids (i ∷ is) (p ∷ ps) = record p { id = i } ∷ new_ids is ps

abbrev three_parts : SplitRegion
three_parts =
    right_split (next_epoch b_to_f 2) ((99 ∷ []) ∷ (100 ∷ []) ∷ [])
      (part 8 (20 ∷ 21 ∷ []) 98 99 ∷ part 9 (30 ∷ 31 ∷ []) 99 100 ∷ [])

split_in_three : exec_batch_split b_to_f two_splits ≡ ok three_parts
unfolding exec_batch_split check_splits split_at_keys new_regions new_region new_peers
    check_key_in_region compare_bytes
split_in_three = refl

exec_batch_split-owners_example :
    (owners (100 ∷ 5 ∷ []) three_parts.regions ≡ (if in_region (100 ∷ 5 ∷ []) b_to_f then 1 else 0))
    × (length three_parts.regions ≡ 3)
exec_batch_split-owners_example =
    exec_batch_split-owners b_to_f two_splits three_parts (100 ∷ 5 ∷ []) split_in_three

abbrev remove_second : ChangePeerRequest
remove_second = record { change_type = ConfChangeType.remove_node; peer = peer_at 11 2 }

abbrev second_removed : ChangePeerResult
second_removed = changed 10 false b_to_f remove_second (peer_at 10 1 ∷ [])

removed_second : exec_change_peer 10 false b_to_f remove_second ≡ ok second_removed
unfolding exec_change_peer changed_peers remove_node remove_peer peer_equal
removed_second = refl

exec_change_peer-find_peer_example :
    DistinctStores second_removed.region.peers
    × ((s : ℕ)
        → find_peer second_removed.region.peers s
          ≡ peer_after b_to_f.peers ConfChangeType.remove_node (peer_at 11 2) s)
    × (second_removed.region ≡ with_peers (next_conf_ver b_to_f) (peer_at 10 1 ∷ []))
exec_change_peer-find_peer_example =
    exec_change_peer-find_peer 10 false b_to_f remove_second second_removed
      ((ground arith, tt), (tt, tt)) removed_second

exec_change_peer-Accepts_example :
    (((r : ChangePeerResult) × (exec_change_peer 10 false b_to_f remove_second ≡ ok r))
      ↔ Accepts b_to_f.peers ConfChangeType.remove_node (peer_at 11 2))
    × (exec_change_peer 10 false b_to_f remove_second ≢ panic)
exec_change_peer-Accepts_example =
    exec_change_peer-Accepts 10 false b_to_f remove_second ((ground arith, tt), (tt, tt))

abbrev cmd_at : ℕ → ℕ → PendingCmd
cmd_at i k = record { index = i; term = 6; cb = k }

abbrev two_pending : PendingCmdQueue
two_pending = record { normals = cmd_at 8 1 ∷ cmd_at 9 2 ∷ []; conf_change = some (cmd_at 5 3) }

find_callback_conserves_example :
    let (found, notices, q) = find_callback two_pending 9 6 false in
    in_found 1 found + in_notices 1 notices + in_queue 1 q ≡ in_queue 1 two_pending
find_callback_conserves_example = find_callback_conserves 1 two_pending 9 6 false

abbrev new_change : List Proposal
new_change = record { is_conf_change = true; index = 10; term = 6; cb = 4 } ∷ []

find_callback-Ordered_example :
    find_callback two_pending 9 6 false
    ≡ (some 2, notify_stale 6 (cmd_at 8 1 ∷ []), record two_pending { normals = [] })
find_callback-Ordered_example =
    find_callback-Ordered two_pending (cmd_at 8 1 ∷ []) [] (cmd_at 9 2) refl
      ((omega arith, omega arith, tt), (tt, tt))

abbrev at_ten : ApplyState
at_ten = record { applied_index = 10; truncated_index = 5; truncated_term = 5 }

abbrev at_eight : ApplyState
at_eight = record { applied_index = 10; truncated_index = 8; truncated_term = 6 }

abbrev to_eight : CompactLogRequest
to_eight = record { compact_index = 8; compact_term = 6 }

abbrev eight_compacted : Option CompactLog
eight_compacted = some (record { truncated_index = 8; first_index = 6 })

compacted_to_eight : exec_compact_log false at_ten to_eight ≡ ok (at_eight, eight_compacted)
unfolding exec_compact_log compact_raft_log first_index
compacted_to_eight = refl

exec_compact_log-truncated_example :
    (5 ≤ 8) × (8 ≤ 10) × (◌≡◌ {A = ℕ} 10 10) × ((eight_compacted ≡ none) ↔ (◌≡◌ {A = ℕ} 8 5))
exec_compact_log-truncated_example =
    exec_compact_log-truncated false at_ten at_eight to_eight eight_compacted (omega arith)
      compacted_to_eight

abbrev applier_at_ten : Applier
applier_at_ten = record {
  id = 10;
  term = 6;
  region = b_to_f;
  stopped = false;
  pending_remove = false;
  pending_cmds = two_pending;
  is_merging = false;
  last_merge_version = 0;
  apply_state = at_ten;
  applied_index_term = 6;
}

abbrev no_context : ApplyContext
no_context = record { wb = []; written = []; cbs = []; notices = []; last_applied_index = 0 }

abbrev no_write : RaftLog → Option (List Write × Bool)
no_write rlog = none

abbrev no_request : Bytes → Option RaftCmdRequest
no_request bs = none

abbrev empty_eleven : Entry
empty_eleven = record { entry_type = entry_normal; term = 7; index = 11; content = [] }

abbrev applier_at_eleven : Applier
applier_at_eleven = record applier_at_ten {
  pending_cmds = record { normals = []; conf_change = some (cmd_at 5 3) };
  apply_state = record at_ten { applied_index = 11 };
  applied_index_term = 7;
}

abbrev told_context : ApplyContext
told_context = record no_context {
  wb = write_apply_state applier_at_eleven ∷ [];
  notices = stale 7 1 ∷ stale 7 2 ∷ [];
  last_applied_index = 10;
}

handled_eleven :
    handle_raft_committed_entries no_write no_request no_request applier_at_ten no_context
      (empty_eleven ∷ [])
    ≡ some (applier_at_eleven, told_context, [])
unfolding handle_raft_committed_entries handle_entries handle_entry handle_normal handle_empty_entry
    pop_stale
handled_eleven = refl

handle_raft_committed_entries-Handled_example :
    Handled no_write no_request no_request applier_at_ten 1 applier_at_eleven
handle_raft_committed_entries-Handled_example =
    handle_raft_committed_entries-Handled no_write no_request no_request applier_at_ten no_context
      (empty_eleven ∷ []) applier_at_eleven told_context []
      (record { distinct = ((ground arith, tt), (tt, tt)); truncated = omega arith }) (refl, tt)
      handled_eleven

-- Requests that write, and write commands that add one entry to the batch.
abbrev one_write : RaftLog → Option (List Write × Bool)
one_write rlog = some (set_data (7 ∷ []) (8 ∷ []) ∷ [], false)

abbrev write_request : RaftCmdRequest
write_request = record {
  header = some (record {
    region_id = 1;
    peer = none;
    read_quorum = false;
    region_epoch = some b_to_f.region_epoch;
    term = 7;
    sync_log = false;
  });
  requests = [];
  admin_request = none;
}

abbrev some_request : Bytes → Option RaftCmdRequest
some_request bs = some write_request

abbrev write_twelve : Entry
write_twelve = record { entry_type = entry_normal; term = 7; index = 12; content = 1 ∷ [] }

handle_raft_committed_entries-ne-none_example :
    handle_raft_committed_entries one_write some_request no_request applier_at_ten no_context
      (empty_eleven ∷ write_twelve ∷ [])
    ≢ none
unfolding parse_log epoch new_epoch
handle_raft_committed_entries-ne-none_example =
    handle_raft_committed_entries-ne-none one_write some_request no_request applier_at_ten
      no_context (empty_eleven ∷ write_twelve ∷ [])
      (record { distinct = ((ground arith, tt), (tt, tt)); truncated = omega arith })
      (refl, (refl, tt))
      (omega arith, ((request write_request, refl, ((_, refl), inl (refl, λ e. absurd (cc)))), tt))

exec_batch_split-IsSplit_example :
    ((s : SplitRegion) × (exec_batch_split b_to_f two_splits ≡ ok s))
    ↔ IsSplit b_to_f two_splits.requests
exec_batch_split-IsSplit_example = exec_batch_split-IsSplit b_to_f two_splits
