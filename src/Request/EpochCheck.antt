-- ===== src/Request/EpochCheck.antt =====
-- What the epoch checks accept.
use unistore.Base.{
  if◌then◌else◌, ℕ, ◌^◌, ◌<◌, ◌≤◌, ◌≡◌, Bool, true, false, [], ◌∷◌, some, none, ok, err, arith,
  refl, ◌⊎◌, inl, inr, ◌≢◌, Option, not, ◌&&◌, Option-cases, ◌==◌, Bool-cases, ◌∙◌,
}
use unistore.Region.{Region, RegionEpoch, epoch_not_match, Checked, missing_header, missing_epoch}
use unistore.Request.{
  RaftCmdRequest, RequestHeader, AdminCmdType, request, epoch_checks, log_epoch_checks,
  admin_cmd_type, check_request_epoch, check_region_epoch, compare_epochs, with_header, with_epoch,
}

-- The commands that change neither the keys nor the peers of a region, nor depend on them.
abbrev pub IsIndifferent : Option AdminCmdType → Type 0
IsIndifferent t =
    (t ≡ some AdminCmdType.compact_log)
    ⊎ ((t ≡ some AdminCmdType.invalid_admin)
        ⊎ ((t ≡ some AdminCmdType.compute_hash) ⊎ (t ≡ some AdminCmdType.verify_hash)))

-- A command depends on the keys, unless it is indifferent or changes only the peers.
abbrev pub NeedsVersion : Option AdminCmdType → Type 0
NeedsVersion t = (¬ IsIndifferent t) × (t ≢ some AdminCmdType.change_peer)

-- A command depends on the peers, unless it is indifferent or a read or write.
abbrev pub NeedsConfVer : Option AdminCmdType → Type 0
NeedsConfVer t = (¬ IsIndifferent t) × (t ≢ none)

-- The epoch has the parts that a command depends on.
abbrev pub Matches : Option AdminCmdType → ℕ → ℕ → RegionEpoch → Type 0
Matches t version conf_ver e =
    (NeedsVersion t → version ≡ e.version) × (NeedsConfVer t → conf_ver ≡ e.conf_ver)

abbrev pub cmd_of : RaftCmdRequest → Option AdminCmdType
cmd_of req = admin_cmd_type req.admin_request

-- What the check of a request's epoch answers: it passes an indifferent command, needs a header
-- and an epoch for any other, and answers with the region, if it is asked for, where the epoch does
-- not match.
pub data Verdict (req : RaftCmdRequest) (region : Region) (include : Bool) (r : Checked)
    : Type 0 where
  indifferent : IsIndifferent (cmd_of req) → r ≡ ok tt → Verdict req region include r
  no_header :
      ¬ IsIndifferent (cmd_of req)
      → req.header ≡ none
      → r ≡ err missing_header
      → Verdict req region include r
  no_epoch :
      (h : RequestHeader)
      → ¬ IsIndifferent (cmd_of req)
      → req.header ≡ some h
      → h.region_epoch ≡ none
      → r ≡ err missing_epoch
      → Verdict req region include r
  matching :
      (h : RequestHeader) (e : RegionEpoch)
      → ¬ IsIndifferent (cmd_of req)
      → req.header ≡ some h
      → h.region_epoch ≡ some e
      → Matches (cmd_of req) e.version e.conf_ver region.region_epoch
      → r ≡ ok tt
      → Verdict req region include r
  differing :
      (h : RequestHeader) (e : RegionEpoch)
      → ¬ IsIndifferent (cmd_of req)
      → req.header ≡ some h
      → h.region_epoch ≡ some e
      → ¬ Matches (cmd_of req) e.version e.conf_ver region.region_epoch
      → r ≡ err (epoch_not_match (if include then region ∷ [] else []))
      → Verdict req region include r

-- A test that tells whether something holds.
abbrev Tells : Bool → Type 0 → Type 0
Tells b P = ((b ≡ true) × P) ⊎ ((b ≡ false) × (¬ P))

epoch_checks-NeedsVersion : (t : Option AdminCmdType) → Tells (epoch_checks t).0 (NeedsVersion t)
unfolding epoch_checks
epoch_checks-NeedsVersion none = ground arith
epoch_checks-NeedsVersion (some AdminCmdType.compact_log) = ground arith
epoch_checks-NeedsVersion (some AdminCmdType.invalid_admin) = ground arith
epoch_checks-NeedsVersion (some AdminCmdType.compute_hash) = ground arith
epoch_checks-NeedsVersion (some AdminCmdType.verify_hash) = ground arith
epoch_checks-NeedsVersion (some AdminCmdType.change_peer) = ground arith
epoch_checks-NeedsVersion (some AdminCmdType.split) = ground arith
epoch_checks-NeedsVersion (some AdminCmdType.batch_split) = ground arith
epoch_checks-NeedsVersion (some AdminCmdType.prepare_merge) = ground arith
epoch_checks-NeedsVersion (some AdminCmdType.commit_merge) = ground arith
epoch_checks-NeedsVersion (some AdminCmdType.rollback_merge) = ground arith
epoch_checks-NeedsVersion (some AdminCmdType.transfer_leader) = ground arith

epoch_checks-NeedsConfVer : (t : Option AdminCmdType) → Tells (epoch_checks t).1 (NeedsConfVer t)
unfolding epoch_checks
epoch_checks-NeedsConfVer none = ground arith
epoch_checks-NeedsConfVer (some AdminCmdType.compact_log) = ground arith
epoch_checks-NeedsConfVer (some AdminCmdType.invalid_admin) = ground arith
epoch_checks-NeedsConfVer (some AdminCmdType.compute_hash) = ground arith
epoch_checks-NeedsConfVer (some AdminCmdType.verify_hash) = ground arith
epoch_checks-NeedsConfVer (some AdminCmdType.change_peer) = ground arith
epoch_checks-NeedsConfVer (some AdminCmdType.split) = ground arith
epoch_checks-NeedsConfVer (some AdminCmdType.batch_split) = ground arith
epoch_checks-NeedsConfVer (some AdminCmdType.prepare_merge) = ground arith
epoch_checks-NeedsConfVer (some AdminCmdType.commit_merge) = ground arith
epoch_checks-NeedsConfVer (some AdminCmdType.rollback_merge) = ground arith
epoch_checks-NeedsConfVer (some AdminCmdType.transfer_leader) = ground arith

-- Both switches check the same parts.
log_epoch_checks-eq-epoch_checks : (t : Option AdminCmdType) → log_epoch_checks t ≡ epoch_checks t
unfolding log_epoch_checks epoch_checks
log_epoch_checks-eq-epoch_checks none = refl
log_epoch_checks-eq-epoch_checks (some AdminCmdType.compact_log) = refl
log_epoch_checks-eq-epoch_checks (some AdminCmdType.invalid_admin) = refl
log_epoch_checks-eq-epoch_checks (some AdminCmdType.compute_hash) = refl
log_epoch_checks-eq-epoch_checks (some AdminCmdType.verify_hash) = refl
log_epoch_checks-eq-epoch_checks (some AdminCmdType.change_peer) = refl
log_epoch_checks-eq-epoch_checks (some AdminCmdType.split) = refl
log_epoch_checks-eq-epoch_checks (some AdminCmdType.batch_split) = refl
log_epoch_checks-eq-epoch_checks (some AdminCmdType.prepare_merge) = refl
log_epoch_checks-eq-epoch_checks (some AdminCmdType.commit_merge) = refl
log_epoch_checks-eq-epoch_checks (some AdminCmdType.rollback_merge) = refl
log_epoch_checks-eq-epoch_checks (some AdminCmdType.transfer_leader) = refl

IsIndifferent_cases :
    (t : Option AdminCmdType)
    → (IsIndifferent t × (epoch_checks t ≡ (false, false)))
      ⊎ ((¬ IsIndifferent t) × ((not (epoch_checks t).0 && not (epoch_checks t).1) ≡ false))
unfolding epoch_checks
IsIndifferent_cases none = ground arith
IsIndifferent_cases (some AdminCmdType.compact_log) = ground arith
IsIndifferent_cases (some AdminCmdType.invalid_admin) = ground arith
IsIndifferent_cases (some AdminCmdType.compute_hash) = ground arith
IsIndifferent_cases (some AdminCmdType.verify_hash) = ground arith
IsIndifferent_cases (some AdminCmdType.change_peer) = ground arith
IsIndifferent_cases (some AdminCmdType.split) = ground arith
IsIndifferent_cases (some AdminCmdType.batch_split) = ground arith
IsIndifferent_cases (some AdminCmdType.prepare_merge) = ground arith
IsIndifferent_cases (some AdminCmdType.commit_merge) = ground arith
IsIndifferent_cases (some AdminCmdType.rollback_merge) = ground arith
IsIndifferent_cases (some AdminCmdType.transfer_leader) = ground arith

-- One part of the epoch.
part :
    (b : Bool) (V : Type 0) (x y : ℕ)
    → Tells b V
    → ((V → x ≡ y) × ((b && not (x == y)) ≡ false))
      ⊎ ((¬ (V → x ≡ y)) × ((b && not (x == y)) ≡ true))
part b V x y (inr (e, n)) = inl (λ v. absurd (n v), ground (arith, e))
part b V x y (inl (e, v)) = elim (Bool-cases (x == y)) [
  | inl t ↦ inl (λ _. ground (arith, t), ground (arith, e, t))
  | inr t ↦ inr (λ f. let same = f v in ground (arith, t, same), ground (arith, e, t))
]

-- CheckRegionEpoch accepts every log compaction, computation or verification of a hash and
-- invalid command; of any other request it misses the header or the epoch, and else accepts it
-- exactly if the version is the region's, unless the command changes a peer, and the conf version
-- is the region's, if it is an admin command, and otherwise answers that the epoch does not
-- match, with the region if it is asked for.
pub check_request_epoch-Matches :
    (req : RaftCmdRequest) (region : Region) (include : Bool)
    → Verdict req region include (check_request_epoch req region include)
unfolding check_request_epoch
check_request_epoch-Matches req region include = elim (IsIndifferent_cases (cmd_of req)) [
  | inl (i, c) ↦ indifferent i (ground (arith, c))
  | inr (n, c) ↦ elim (Option-cases req.header) [
    | inl p ↦ no_header n p (ground (arith, c))
    | inr (h, p) ↦ elim (Option-cases h.region_epoch) [
      | inl q ↦ no_epoch h n p q (ground (arith, c))
      | inr (e, q) ↦
          compared h e n c p q (epoch_checks-NeedsVersion (cmd_of req))
            (epoch_checks-NeedsConfVer (cmd_of req))
    ]
  ]
]
  where
    compared :
        (h : RequestHeader) (e : RegionEpoch)
        → ¬ IsIndifferent (cmd_of req)
        → (not (epoch_checks (cmd_of req)).0 && not (epoch_checks (cmd_of req)).1) ≡ false
        → req.header ≡ some h
        → h.region_epoch ≡ some e
        → Tells (epoch_checks (cmd_of req)).0 (NeedsVersion (cmd_of req))
        → Tells (epoch_checks (cmd_of req)).1 (NeedsConfVer (cmd_of req))
        → Verdict req region include (check_request_epoch req region include)
    compared h e n c p q v w =
        let found : check_request_epoch req region include
            ≡ compare_epochs (epoch_checks (cmd_of req)) e.version e.conf_ver region include =
          unfold with_header with_epoch in ground (arith, c) in
        elim (part _ _ e.version region.region_epoch.version v) [
          | inr (f, x) ↦
              differing h e n p q (λ m. f m.0) (found ∙ unfold compare_epochs in ground (arith, x))
          | inl (a, x) ↦ elim (part _ _ e.conf_ver region.region_epoch.conf_ver w) [
            | inr (f, y) ↦
                differing h e n p q (λ m. f m.1)
                  (found ∙ unfold compare_epochs in ground (arith, y))
            | inl (b, y) ↦
                matching h e n p q (a, b) (found ∙ unfold compare_epochs in ground (arith, x, y))
          ]
        ]

-- On a request with an epoch whose parts fit 32 bits, the check on raft logs and the check on
-- requests, each by its own switch over the commands, agree.
pub check_region_epoch-check_request_epoch :
    (req : RaftCmdRequest) (h : RequestHeader) (e : RegionEpoch) (region : Region) (include : Bool)
    → req.header ≡ some h
    → h.region_epoch ≡ some e
    → e.version < 2 ^ 32
    → e.conf_ver < 2 ^ 32
    → check_region_epoch (request req) region include ≡ check_request_epoch req region include
unfolding check_region_epoch check_request_epoch
check_region_epoch-check_request_epoch req h e region include p q v c =
    ground (arith, log_epoch_checks-eq-epoch_checks (cmd_of req))

-- The check on raft logs refuses every request with a header, whose command is no change of a
-- peer, log compaction, computation or verification of a hash and not invalid, once the region's
-- version has reached 2^32.
pub check_region_epoch_overflow :
    (req : RaftCmdRequest) (h : RequestHeader) (region : Region) (include : Bool)
    → req.header ≡ some h
    → NeedsVersion (cmd_of req)
    → 2 ^ 32 ≤ region.region_epoch.version
    → check_region_epoch (request req) region include
      ≡ err (epoch_not_match (if include then region ∷ [] else []))
unfolding check_region_epoch
check_region_epoch_overflow req h region include p q v =
    elim (epoch_checks-NeedsVersion (cmd_of req)) [
      | inl (t, n) ↦ ground (arith, log_epoch_checks-eq-epoch_checks (cmd_of req))
      | inr (f, n) ↦ absurd (n q)
    ]
