-- ===== src/Tests/ProposeRuns.antt =====
-- The leader's decisions and the write batch at concrete inputs.
use unistore.Propose.ReadLocal.{IsRead, inspect_request-read_local}
use unistore.Propose.Healthy.{count_lagging, check_conf_change-majority}
use unistore.WriteBatch.SafePoint.{Add, sets, add_all, deletes_lock, rollback_to_safe_point-add_all}
use unistore.WriteBatch.{rollback_to_safe_point, WriteBatch, Key, set_safe_point}
use unistore.Propose.Reads.{ReadIndexQueue}
use unistore.Region.{Peer, voter}
use unistore.Propose.Membership.{
  group_after, check_conf_change, Tracked, lookup, delete, count_healthy_node,
}
use unistore.Request.{RaftCmdRequest, ConfChangeType, CmdType}
use unistore.Propose.Policy.{Inspector, inspect_request, read_local, wants_quorum}
use unistore.Base.{
  ℕ, ◌+◌, ◌<◌, ◌≡◌, ◌↔◌, refl, true, false, List, [], ◌∷◌, length, none, some, ok, arith, Bytes,
  All,
}
use unistore.Lease.{valid, Lease, inspect}

abbrev valid_lease : Lease
valid_lease = record {
  bound_suspect = none;
  bound_valid = some 100;
  max_lease = 9;
  max_drift = 3;
  last_update = 0;
  remote = none;
}

abbrev in_term_six : Inspector
in_term_six = record {
  applied_index_term = 6;
  term = 6;
  in_lease = true;
  leader_lease = valid_lease;
  memory = record { word = λ a. 0; next = 0 };
  now = 50;
}

abbrev get_request : RaftCmdRequest
get_request = record {
  header = none;
  requests = record { cmd_type = CmdType.get; delete_range = none; ingest_sst = none } ∷ [];
  admin_request = none;
}

inspect_request-read_local_example :
    (inspect_request in_term_six get_request ≡ ok (read_local, in_term_six)) ↔ (
      (get_request.admin_request ≡ none)
      × All IsRead get_request.requests
      × (wants_quorum get_request.header ≡ false)
      × (◌≡◌ {A = ℕ} 6 6)
      × (true ≡ true)
      × (inspect valid_lease 50 ≡ valid))
inspect_request-read_local_example = inspect_request-read_local in_term_six get_request

abbrev tracked : ℕ → ℕ → Tracked
tracked i m = record { id = i; progress = record { match_index = m; is_learner_node = false } }

abbrev three_nodes : List Tracked
three_nodes = tracked 1 10 ∷ tracked 2 10 ∷ tracked 3 2 ∷ []

abbrev node_three : Peer
node_three = record { id = 3; store_id = 3; role = voter }

removed_third :
    group_after ConfChangeType.remove_node node_three three_nodes
    ≡ some (tracked 1 10 ∷ tracked 2 10 ∷ [])
unfolding group_after lookup delete
removed_third = refl

check_conf_change-majority_example :
    (check_conf_change false 1 5 three_nodes ConfChangeType.remove_node node_three ≡ ok tt) ↔ (
      count_lagging 5 (tracked 1 10 ∷ tracked 2 10 ∷ [])
      < count_healthy_node 5 (tracked 1 10 ∷ tracked 2 10 ∷ []))
check_conf_change-majority_example =
    check_conf_change-majority false 1 5 three_nodes (tracked 1 10 ∷ tracked 2 10 ∷ [])
      ConfChangeType.remove_node node_three (ground arith) refl refl removed_third

abbrev two_reads : ReadIndexQueue
two_reads = record {
  id_allocator = 2;
  reads =
      record { id = 1; cmds = 7 ∷ []; renew_lease_time = none }
      ∷ record { id = 2; cmds = 8 ∷ 9 ∷ []; renew_lease_time = none }
      ∷ [];
  ready_cnt = 1;
}

abbrev one_entry : WriteBatch
one_entry = record {
  entries =
      record { key = record { user_key = 1 ∷ []; version = 4 }; value = 2 ∷ []; user_meta = [] }
      ∷ [];
  lock_entries = [];
  size = 10;
  safe_point = 0;
  safe_point_lock = 0;
  safe_point_size = 0;
  safe_point_undo = 0;
}

abbrev key_length : Key → ℕ
key_length k = length k.user_key + 8

abbrev status_key : Bytes → ℕ → Bytes
status_key bs v = v ∷ bs

abbrev user_meta_of : ℕ → ℕ → Bytes
user_meta_of s c = s ∷ c ∷ []

abbrev start_of : Bytes → ℕ
start_of bs = 0

abbrev two_adds : List Add
two_adds = sets (record { user_key = 3 ∷ []; version = 5 }) (6 ∷ []) ∷ deletes_lock (1 ∷ []) ∷ []

rollback_to_safe_point-add_all_example :
    rollback_to_safe_point (
      add_all key_length status_key user_meta_of start_of
        (0 ∷ [])
        (1 ∷ [])
        (set_safe_point one_entry)
        two_adds)
    ≡ some (set_safe_point one_entry)
rollback_to_safe_point-add_all_example =
    rollback_to_safe_point-add_all key_length status_key user_meta_of start_of (0 ∷ []) (1 ∷ [])
      one_entry two_adds
