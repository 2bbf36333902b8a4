-- ===== src/Tests/CodecRuns.antt =====
-- Keys, states and raft logs at concrete inputs.
use unistore.Raftlog.Ends.{iterate-ends}
use unistore.Raftlog.RoundTrip.{IsHeaderRange, Builds, build-append_commit}
use unistore.State.{RaftState, ApplyState}
use unistore.Raftlog.{
  iterate_lock, Rollback, CustomHeader, CustomRaftLog, Commit, out_of_fuel, set_type,
  iterate_commit, iterate_rollback, iterate_pessimistic_rollback, append_commit, new_builder,
  type_commit,
}
use mathlib.Core.List.{foldl}
use unistore.Base.{◌≢◌, [], ◌∷◌, err, arith, true}

abbrev header_of_seven : CustomHeader
header_of_seven = record {
  region_id = 7;
  epoch = record { ver = 3; conf_ver = 300 };
  peer_id = 9;
  store_id = 2;
  term = 6;
}

abbrev commit_ab : Commit
commit_ab = record { key = 97 ∷ 98 ∷ []; val = 1 ∷ []; commit_ts = 400 }

abbrev rollback_a : Rollback
rollback_a = record { key = 97 ∷ []; start_ts = 12; delete_lock = true }

abbrev applied_ten : ApplyState
applied_ten = record { applied_index = 10; truncated_index = 5; truncated_term = 5 }

abbrev raft_of_ten : RaftState
raft_of_ten = record { term = 6; vote = 2; commit = 10; last_index = 11 }

header_of_seven_range : IsHeaderRange header_of_seven
header_of_seven_range =
    (omega arith, omega arith, omega arith, omega arith, omega arith, omega arith)

build-append_commit_example :
    Builds
      (set_type
        (foldl append_commit (new_builder header_of_seven) (commit_ab ∷ commit_ab ∷ []))
        type_commit)
      header_of_seven
      type_commit
      iterate_commit
      (commit_ab ∷ commit_ab ∷ [])
build-append_commit_example =
    build-append_commit header_of_seven type_commit (commit_ab ∷ commit_ab ∷ [])
      header_of_seven_range
      ((omega arith, omega arith, omega arith), ((omega arith, omega arith, omega arith), tt))

abbrev short_log : CustomRaftLog
short_log = record { header = header_of_seven; content = 64 ∷ 1 ∷ [] }

iterate-ends_example :
    (iterate_lock short_log ≢ err out_of_fuel)
    × (iterate_commit short_log ≢ err out_of_fuel)
    × (iterate_rollback short_log ≢ err out_of_fuel)
    × (iterate_pessimistic_rollback short_log ≢ err out_of_fuel)
iterate-ends_example = iterate-ends short_log
