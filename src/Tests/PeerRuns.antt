-- ===== src/Tests/PeerRuns.antt =====
-- Runs of the handlers that create, split and destroy peers, and their theorems at concrete inputs.
use unistore.Base.{
  ℕ, true, Bool, ◌+◌, lookup, some, compare_bytes, none, false, inl, erase, insert, put_le, ◌≡◌,
  ◌∷◌, refl, get_le, ◌⊎◌, ap, [], sym, Bool-cases, arith, ◌==◌, ◌∙◌, inr, subst₂, ok,
}
use unistore.Region.{Region, RegionEpoch, is_epoch_stale, peer_equal, find_peer}
use unistore.RaftMessage.{RaftMessage, request_vote, no_message, is_vote_message, is_initial_msg}
use unistore.Store.{StoreMeta, region_id_to_bytes, region_id_from_bytes}
use unistore.Store.Create.{missing, on_raft_message, replicate_region, maybe_create_peer}
use unistore.Store.Create.{maybe_create_peer}
use unistore.Store.CreateSafe.{
  Has, AllowsCreate, IsClear, on_raft_message-creates, maybe_create_peer_no_end,
}
use unistore.Store.Effects.{
  peer_created, send, activate, register, start_peer, split_observed, peer_snapshot, close,
  peer_destroyed, apply_destroy, pd_destroy, peer_created,
}
use unistore.PeerFsm.{PeerFsm, destroy_peer}
use unistore.PeerFsm.Messages.{handle_gc_peer_msg, check_message}
use unistore.PeerFsm.Results.{on_ready_split_region, on_ready_apply_snapshot, last_region}
use unistore.PeerFsm.Consistent.{IsConsistent, region_id_from_bytes-to_bytes}
use unistore.PeerFsm.SplitConsistent.{on_ready_split_region-IsConsistent}
use unistore.PeerFsm.KeepsConsistent.{
  on_ready_apply_snapshot-IsConsistent, destroy_peer-IsConsistent,
}
use unistore.PeerFsm.Stale.{handle_gc_peer_msg_applying, check_message_stale_vote}
use unistore.Tests.MemTable.{Entries, mem_table, get, erase_key, seek, place}
use unistore.Tests.StoreRuns.{peer_on, region_of, two_regions, entry_cases, two_regions-IsTable}

lookup_cases :
    (id : ℕ) (r : Region)
    → lookup id two_regions.regions ≡ some r
    → ((id ≡ 1) × (region_of 1 10 30 ≡ r)) ⊎ ((id ≡ 2) × (region_of 2 30 50 ≡ r))
unfolding lookup
lookup_cases id r e = elim (Bool-cases (1 == id)) [
  | inl a ↦ inl (ground arith, ground arith)
  | inr a ↦ elim (Bool-cases (2 == id)) [
    | inl b ↦ inr (ground arith, ground arith)
    | inr b ↦ absurd (ground arith)
  ]
]

two_regions-IsConsistent : IsConsistent mem_table two_regions
unfolding lookup get compare_bytes
two_regions-IsConsistent = record {
  tabled = λ k b g. elim (entry_cases k b g) [
    | inl (q, v) ↦ (
      2,
      region_of 2 30 50,
      ap region_id_from_bytes (sym v) ∙ region_id_from_bytes-to_bytes 2 (omega arith),
      refl,
      sym q,
      refl,
    )
    | inr (q, v) ↦ (
      1,
      region_of 1 10 30,
      ap region_id_from_bytes (sym v) ∙ region_id_from_bytes-to_bytes 1 (omega arith),
      refl,
      sym q,
      refl,
    )
  ];
  listed = λ id r l. elim (lookup_cases id r l) [
    | inl (i, q) ↦ (
      omega arith,
      ap (λ (x : Region). x.id) (sym q) ∙ sym i,
      λ h.
          subst₂
            (λ (x : Region) n.
              get two_regions.region_ranges x.end_key ≡ some (region_id_to_bytes n))
            q (sym i) refl,
    )
    | inr (i, q) ↦ (
      omega arith,
      ap (λ (x : Region). x.id) (sym q) ∙ sym i,
      λ h.
          subst₂
            (λ (x : Region) n.
              get two_regions.region_ranges x.end_key ≡ some (region_id_to_bytes n))
            q (sym i) refl,
    )
  ];
}

abbrev epoch_three : RegionEpoch
epoch_three = record { conf_ver = 1; version = 3 }

-- A vote of the peer on store 2 for a region that ends before the others begin.
abbrev vote_for : ℕ → RaftMessage
vote_for id = record {
  region_id = id;
  from_peer = peer_on 29 2;
  to_peer = peer_on 19 1;
  region_epoch = some epoch_three;
  message = record { msg_type = request_vote; term = 6; commit = 0; snapshot = none };
  is_tombstone = false;
  start_key = 2 ∷ [];
  end_key = 9 ∷ [];
  merge_target = none;
}

vote_nine-Has :
    Has (on_raft_message mem_table (λ r p. true) false 1 two_regions (vote_for 9) missing).0 9
unfolding on_raft_message seek place compare_bytes region_id_to_bytes put_le get_le lookup insert
    is_initial_msg
vote_nine-Has = (replicate_region 9, refl)

on_raft_message-creates_example :
    (1 ≡ (vote_for 9).to_peer.store_id)
    × (false ≡ false)
    × (is_initial_msg (vote_for 9).message ≡ true)
    × ((epoch : RegionEpoch) × (some epoch_three ≡ some epoch)
        × AllowsCreate missing epoch
        × IsClear mem_table two_regions epoch (2 ∷ []) (9 ∷ []))
unfolding lookup
on_raft_message-creates_example =
    on_raft_message-creates mem_table (λ r p. true) 1 two_regions (vote_for 9) missing
      two_regions-IsTable refl vote_nine-Has

abbrev peer_of : Region → Bool → PeerFsm
peer_of r applying = record {
  meta = peer_on (r.id + 10) 1;
  region_id = r.id;
  region = r;
  stopped = false;
  has_ready = false;
  pending_remove = false;
  is_leader = false;
  applying_snapshot = applying;
  peer_cache = [];
  peer_heartbeats = [];
  peers_start_pending_time = [];
  recent_added_peer = (0, 0);
  size_diff_hint = 4;
  delete_keys_hint = 5;
  approximate_size = some 6;
  checker_region = r;
  checker_invalid = false;
  remote_lease = true;
}

-- The region 1 is split at the key 20: the region 7 is to the left.
abbrev after_split : StoreMeta Entries
unfolding erase_key compare_bytes insert
after_split = record two_regions {
  region_ranges =
      (30 ∷ [], region_id_to_bytes 1)
      ∷ (20 ∷ [], region_id_to_bytes 7)
      ∷ (erase_key two_regions.region_ranges (30 ∷ []));
  regions = insert 7 (region_of 7 10 20) (insert 1 (region_of 1 20 30) two_regions.regions);
}

on_ready_split_region-IsConsistent_example : IsConsistent mem_table after_split
unfolding on_ready_split_region get erase_key compare_bytes region_id_to_bytes put_le lookup insert
    find_peer last_region
on_ready_split_region-IsConsistent_example =
    on_ready_split_region-IsConsistent mem_table 1 two_regions (peer_of (region_of 1 10 30) false)
      (region_of 1 20 30) (region_of 1 10 30) (region_of 1 20 30)
      (region_of 7 10 20 ∷ region_of 1 20 30 ∷ []) after_split
      (record (peer_of (region_of 1 20 30) false) {
        size_diff_hint = 0;
        delete_keys_hint = 0;
        approximate_size = none;
      })
      (activate (region_of 7 10 20)
        ∷ register (region_of 7 10 20) (peer_on 17 1)
        ∷ start_peer 7
        ∷ split_observed (region_of 1 20 30) (region_of 7 10 20 ∷ region_of 1 20 30 ∷ [])
            (7 ∷ 1 ∷ [])
        ∷ [])
      two_regions-IsConsistent refl refl refl refl refl
      ((omega arith, λ e. absurd (omega arith)), ((omega arith, λ e. refl), tt)) (inr (inl refl))
      refl

-- A snapshot moves the end of the region 2.
abbrev after_snapshot : StoreMeta Entries
unfolding erase_key compare_bytes insert
after_snapshot = record two_regions {
  region_ranges = (60 ∷ [], region_id_to_bytes 2) ∷ erase_key two_regions.region_ranges (50 ∷ []);
  regions = insert 2 (region_of 2 30 60) two_regions.regions;
}

on_ready_apply_snapshot-IsConsistent_example : IsConsistent mem_table after_snapshot
unfolding on_ready_apply_snapshot get erase_key compare_bytes region_id_to_bytes put_le lookup
    insert
on_ready_apply_snapshot-IsConsistent_example =
    on_ready_apply_snapshot-IsConsistent mem_table 1 two_regions (region_of 2 30 50)
      (region_of 2 30 60) after_snapshot (peer_snapshot (region_of 2 30 60) ∷ [])
      two_regions-IsConsistent refl refl refl

abbrev after_destroy : StoreMeta Entries
unfolding erase_key compare_bytes erase
after_destroy = record two_regions {
  region_ranges = erase_key two_regions.region_ranges (50 ∷ []);
  regions = erase 2 two_regions.regions;
}

destroy_peer-IsConsistent_example :
    IsConsistent mem_table after_destroy × (lookup 2 after_destroy.regions ≡ none)
unfolding destroy_peer get erase_key compare_bytes region_id_to_bytes put_le lookup erase
destroy_peer-IsConsistent_example =
    destroy_peer-IsConsistent mem_table true two_regions (peer_of (region_of 2 30 50) false)
      after_destroy (record (peer_of (region_of 2 30 50) false) { stopped = true })
      (close 2 ∷ peer_destroyed 2 ∷ apply_destroy 2 ∷ pd_destroy 2 ∷ []) two_regions-IsConsistent
      refl refl

abbrev gc_message : RaftMessage
gc_message = record (vote_for 2) {
  to_peer = peer_on 12 1;
  message = no_message;
  is_tombstone = true;
}

abbrev epoch_four : RegionEpoch
epoch_four = record { conf_ver = 2; version = 3 }

handle_gc_peer_msg_applying_example :
    handle_gc_peer_msg mem_table true two_regions
      (peer_of (region_of 2 30 50) true)
      gc_message
      epoch_four
    ≡ none
unfolding is_epoch_stale peer_equal
handle_gc_peer_msg_applying_example =
    handle_gc_peer_msg_applying mem_table true two_regions (peer_of (region_of 2 30 50) true)
      gc_message epoch_four refl refl refl refl

abbrev removed_vote : RaftMessage
removed_vote = record (vote_for 2) { from_peer = peer_on 39 3; to_peer = peer_on 12 1 }

abbrev epoch_two : RegionEpoch
epoch_two = record { conf_ver = 0; version = 3 }

-- The peer that the store of the vote's sender has.
abbrev removed_peer : PeerFsm
removed_peer = record (peer_of (region_of 2 30 50) false) { meta = peer_on 39 3 }

check_message_stale_vote_example :
    (answer : RaftMessage) × (check_message mem_table true two_regions
        (peer_of (region_of 2 30 50) false)
        removed_vote
        epoch_two
      ≡ some (true, two_regions, peer_of (region_of 2 30 50) false, send answer ∷ []))
    × (answer.is_tombstone ≡ true)
    × (answer.region_epoch ≡ some (region_of 2 30 50).region_epoch)
    × (handle_gc_peer_msg mem_table true two_regions removed_peer answer
          (region_of 2 30 50).region_epoch
        ≡ some (two_regions, removed_peer, []))
    × (handle_gc_peer_msg mem_table true two_regions
          (peer_of (region_of 2 30 50) false)
          answer
          (region_of 2 30 50).region_epoch
        ≡ some (two_regions, peer_of (region_of 2 30 50) false, []))
unfolding is_epoch_stale find_peer is_vote_message
check_message_stale_vote_example =
    check_message_stale_vote mem_table true two_regions two_regions
      (peer_of (region_of 2 30 50) false) removed_peer removed_vote epoch_two refl refl refl
      (unfold peer_equal in refl)

-- A vote for all keys, where the two regions lie.
abbrev vote_all : RaftMessage
vote_all = record (vote_for 9) { start_key = []; end_key = [] }

maybe_create_peer_no_end_example :
    maybe_create_peer mem_table (λ r p. true) two_regions 9 vote_all epoch_three ≡ (
      record two_regions { regions = insert 9 (replicate_region 9) two_regions.regions },
      register (replicate_region 9) (peer_on 19 1)
          ∷ start_peer 9
          ∷ peer_created (replicate_region 9)
          ∷ [],
      ok true,
    )
unfolding lookup is_initial_msg
maybe_create_peer_no_end_example =
    maybe_create_peer_no_end mem_table (λ r p. true) two_regions vote_all epoch_three
      two_regions-IsTable refl refl refl refl
