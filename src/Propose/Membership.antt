-- ===== src/Propose/Membership.antt =====
-- raftstore/peer.go: checkConfChange, countHealthyNode and Quorum.
-- The progress of the raft group is a map: a list of ids with no id twice, whose order is of no
-- effect. A missing peer in the request is a nil pointer that is read, which panics.
use unistore.Base.{
  ℕ, ◌+◌, ◌/◌, leb, ◌==◌, Bool, false, if◌then◌else◌, not, ◌&&◌, List, [], ◌∷◌, length, Option,
  none, some,
}
use unistore.Base.{ok, err, Outcome}
use unistore.Region.{Peer, is_learner}
use unistore.Request.{ConfChangeType}

-- The fields of raft.Progress that are read.
pub record Progress : Type 0 where
  pub match_index : ℕ
  pub is_learner_node : Bool

pub record Tracked : Type 0 where
  pub id : ℕ
  pub progress : Progress

pub data ChangeError : Type 0 where
  invalid_request remove_leader unsafe_change : ChangeError

unfoldable pub count_healthy_node : ℕ → List Tracked → ℕ
count_healthy_node truncated_index [] = 0
count_healthy_node truncated_index (t ∷ ts) =
    (if leb truncated_index t.progress.match_index then 1 else 0)
    + count_healthy_node truncated_index ts

unfoldable pub quorum : ℕ → ℕ
quorum total = total / 2 + 1

unfoldable pub lookup : ℕ → List Tracked → Option Progress
lookup id [] = none
lookup id (t ∷ ts) = if t.id == id then some t.progress else lookup id ts

unfoldable pub delete : ℕ → List Tracked → List Tracked
delete id [] = []
delete id (t ∷ ts) = if t.id == id then ts else t ∷ delete id ts

unfoldable pub insert : ℕ → Progress → List Tracked → List Tracked
insert id p [] = record { id = id; progress = p } ∷ []
insert id p (t ∷ ts) = if t.id == id then record t { progress = p } ∷ ts else t ∷ insert id p ts

abbrev pub no_progress : Progress
no_progress = record { match_index = 0; is_learner_node = false }

-- The progress of a voter that is added, or of a learner that is promoted.
abbrev pub added : Option Progress → Progress
added none = no_progress
added (some p) = if p.is_learner_node then record p { is_learner_node = false } else no_progress

-- The group after the change; `none` is a change that is always safe.
unfoldable pub group_after : ConfChangeType → Peer → List Tracked → Option (List Tracked)
unfolding lookup insert delete
group_after ConfChangeType.add_node peer ts = some (insert peer.id (added (lookup peer.id ts)) ts)
group_after ConfChangeType.remove_node peer ts =
    if is_learner peer.role
    then none
    else elim (lookup peer.id ts) [ none ↦ none | some p ↦ some (delete peer.id ts) ]
group_after ConfChangeType.add_learner_node peer ts = none

abbrev pub has_wrong_role : ConfChangeType → Peer → Bool
has_wrong_role ConfChangeType.add_node peer = is_learner peer.role
has_wrong_role ConfChangeType.add_learner_node peer = not (is_learner peer.role)
has_wrong_role ConfChangeType.remove_node peer = false

abbrev pub removes : ConfChangeType → ℕ → Peer → Bool
removes ConfChangeType.remove_node id peer = peer.id == id
removes _ id peer = false

abbrev pub is_safe : ℕ → Option (List Tracked) → Outcome ChangeError (Unit {0})
is_safe truncated_index none = ok tt
is_safe truncated_index (some ts) =
    if leb (quorum (length ts)) (count_healthy_node truncated_index ts)
    then ok tt
    else err unsafe_change

-- `id` is the leader's own.
unfoldable pub check_conf_change :
    Bool → ℕ → ℕ → List Tracked → ConfChangeType → Peer → Outcome ChangeError (Unit {0})
unfolding quorum count_healthy_node group_after
check_conf_change allow_remove_leader id truncated_index ts change peer =
    if has_wrong_role change peer
    then err invalid_request
    else if removes change id peer && not allow_remove_leader
    then err remove_leader
    else if length ts == 1
    then ok tt
    else is_safe truncated_index (group_after change peer ts)
