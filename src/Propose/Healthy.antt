-- ===== src/Propose/Healthy.antt =====
-- A configuration change leaves a healthy majority.
use unistore.Region.{Peer}
use unistore.Propose.Membership.{
  check_conf_change, count_healthy_node, lookup, Tracked, delete, quorum, insert, Progress,
  has_wrong_role, removes, group_after,
}
use unistore.Base.{
  ℕ, suc, ◌+◌, ◌<◌, ◌≡◌, ◌≢◌, ◌↔◌, ltb, Bool, false, if◌then◌else◌, not, ◌&&◌, List, [], ◌∷◌,
  length, none, some, arith, refl, Option-cases, inl, inr,
}
use unistore.Base.{ok}
use unistore.Request.{ConfChangeType}

-- The nodes that lag behind the truncated index.
unfoldable pub count_lagging : ℕ → List Tracked → ℕ
count_lagging truncated_index [] = 0
count_lagging truncated_index (t ∷ ts) =
    (if ltb t.progress.match_index truncated_index then 1 else 0) + count_lagging truncated_index ts

lagging_healthy :
    (k : ℕ) (ts : List Tracked) → count_lagging k ts + count_healthy_node k ts ≡ length ts
unfolding count_lagging count_healthy_node
lagging_healthy k [] = refl
lagging_healthy k (t ∷ ts) = ground (arith, lagging_healthy k ts)

-- In a group of other than one node, a configuration change with the right role that does not
-- remove the leader against the configuration, and that changes the voters that are counted, is
-- accepted exactly if after it more nodes have reached the truncated index than lag behind it.
pub check_conf_change-majority :
    (allow_remove_leader : Bool) (id truncated_index : ℕ) (ts after : List Tracked)
    (change : ConfChangeType) (peer : Peer)
    → length ts ≢ 1
    → has_wrong_role change peer ≡ false
    → (removes change id peer && not allow_remove_leader) ≡ false
    → group_after change peer ts ≡ some after
    → (check_conf_change allow_remove_leader id truncated_index ts change peer ≡ ok tt)
      ↔ (count_lagging truncated_index after < count_healthy_node truncated_index after)
unfolding check_conf_change quorum
check_conf_change-majority allow_remove_leader id k ts after change peer n r l g =
    (λ e. ground (arith, lagging_healthy k after), λ h. ground (arith, lagging_healthy k after))

length-delete :
    (id : ℕ) (ts : List Tracked) (p : Progress)
    → lookup id ts ≡ some p
    → suc (length (delete id ts)) ≡ length ts
unfolding lookup delete
length-delete id [] p e = absurd (cc)
length-delete id (t ∷ ts) p e = ground (arith, length-delete id ts p)

length-insert :
    (id : ℕ) (q : Progress) (ts : List Tracked)
    → length (insert id q ts)
      ≡ (elim (lookup id ts) [ none ↦ suc (length ts) | some p ↦ length ts ])
unfolding lookup insert
length-insert id q [] = omega arith
length-insert id q (t ∷ ts) = elim (Option-cases (lookup id ts)) [
  | inl p ↦ ground (arith, length-insert id q ts)
  | inr (x, p) ↦ ground (arith, length-insert id q ts)
]
