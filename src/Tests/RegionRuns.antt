-- ===== src/Tests/RegionRuns.antt =====
-- Regions and requests at concrete inputs.
use unistore.Request.EpochCheck.{
  Verdict, check_region_epoch-check_request_epoch, check_request_epoch-Matches,
  check_region_epoch_overflow,
}
use unistore.Region.Range.{InRange, check_key_in_region-InRange}
use unistore.Request.{
  RaftCmdRequest, check_request_epoch, check_region_epoch, request, AdminCmdType, RequestHeader,
}
use unistore.Region.{
  Region, check_key_in_region, Peer, RegionEpoch, voter, epoch_not_match, key_not_in_region,
}
use unistore.Base.{
  ℕ, ◌^◌, ◌≡◌, ◌↔◌, refl, true, false, if◌then◌else◌, [], ◌∷◌, none, some, ok, err, arith,
}

abbrev peer_on : ℕ → Peer
peer_on s = record { id = 10; store_id = s; role = voter }

abbrev b_to_d : Region
b_to_d = record {
  id = 7;
  start_key = 98 ∷ [];
  end_key = 100 ∷ [];
  region_epoch = record { conf_ver = 1; version = 2 };
  peers = peer_on 1 ∷ peer_on 2 ∷ [];
}

abbrev outgrown : Region
outgrown = record b_to_d { region_epoch = record { conf_ver = 1; version = 2 ^ 32 } }

abbrev header_at : RegionEpoch → RequestHeader
header_at e = record {
  region_id = 7;
  peer = some (peer_on 1);
  read_quorum = false;
  region_epoch = some e;
  term = 6;
  sync_log = false;
}

abbrev epoch_now : RegionEpoch
epoch_now = record { conf_ver = 1; version = 2 }

abbrev split_request : RaftCmdRequest
split_request = record {
  header = some (header_at epoch_now);
  requests = [];
  admin_request = some (record {
    cmd_type = AdminCmdType.split;
    change_peer = none;
    split = none;
    splits = none;
    compact_log = none;
    transfer_leader = none;
    verify_hash = none;
  });
}

check_key_in_region-InRange_example :
    ((check_key_in_region (99 ∷ []) b_to_d ≡ ok tt) ↔ InRange (99 ∷ []) b_to_d)
    × (¬ InRange (99 ∷ []) b_to_d
        → check_key_in_region (99 ∷ []) b_to_d ≡ err (key_not_in_region (99 ∷ []) b_to_d))
check_key_in_region-InRange_example = check_key_in_region-InRange (99 ∷ []) b_to_d

check_request_epoch-Matches_example :
    Verdict split_request outgrown true (check_request_epoch split_request outgrown true)
check_request_epoch-Matches_example = check_request_epoch-Matches split_request outgrown true

check_region_epoch-check_request_epoch_example :
    check_region_epoch (request split_request) b_to_d true
    ≡ check_request_epoch split_request b_to_d true
check_region_epoch-check_request_epoch_example =
    check_region_epoch-check_request_epoch split_request (header_at epoch_now) epoch_now b_to_d true
      refl refl (omega arith) (omega arith)

check_region_epoch_overflow_example :
    check_region_epoch (request split_request) outgrown false
    ≡ err (epoch_not_match (if false then outgrown ∷ [] else []))
check_region_epoch_overflow_example =
    check_region_epoch_overflow split_request (header_at epoch_now) outgrown false refl
      ((λ i. ground arith), ground arith) (omega arith)
