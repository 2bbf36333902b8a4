-- ===== src/Propose/ReadsCleared.antt =====
-- Reads that are cleared, and the renewal time of a proposal.
use unistore.Propose.Reads.{clear_uncommitted, ReadIndexRequest, callbacks, ReadIndexQueue}
use unistore.Base.{
  ℕ, zero, suc, ◌≤◌, ◌≡◌, refl, ap, ◌∙◌, List, [], ◌∷◌, ◌++◌, append_assoc, length, take, drop,
  some, arith, length-take,
}

callbacks-take-drop :
    (n : ℕ) (rs : List ReadIndexRequest)
    → callbacks (take n rs) ++ callbacks (drop n rs) ≡ callbacks rs
callbacks-take-drop zero rs = refl
callbacks-take-drop (suc n) [] = refl
callbacks-take-drop (suc n) (r ∷ rs) =
    append_assoc r.cmds (callbacks (take n rs)) (callbacks (drop n rs))
    ∙ ap (λ t. r.cmds ++ t) (callbacks-take-drop n rs)

-- With no more ready reads than there are reads, clearing the uncommitted ones keeps exactly the
-- ready ones, and tells the callbacks of all others in their order.
clear_uncommitted-callbacks :
    (q : ReadIndexQueue)
    → q.ready_cnt ≤ length q.reads
    → (told : List ℕ) × (left : ReadIndexQueue) × (clear_uncommitted q ≡ some (told, left))
      × (callbacks left.reads ++ told ≡ callbacks q.reads)
      × (length left.reads ≡ q.ready_cnt)
      × (left.ready_cnt ≡ q.ready_cnt)
unfolding clear_uncommitted
clear_uncommitted-callbacks q h = (
  callbacks (drop q.ready_cnt q.reads),
  record q { reads = take q.ready_cnt q.reads },
  ground arith,
  callbacks-take-drop q.ready_cnt q.reads,
  omega (arith, length-take q.ready_cnt q.reads),
  refl,
)
