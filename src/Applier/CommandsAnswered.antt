-- ===== src/Applier/CommandsAnswered.antt =====
-- Every callback is answered exactly once: it is pending until it is found or told.
use unistore.Applier.Commands.{
  clear_all_commands_as_stale, handle_proposal, Notice, search_normals, add_proposal, add_proposals,
  find_callback, PendingCmdQueue, PendingCmd, Proposal, stale, optional, notify_stale,
  destroy_commands, region_removed, pending_cmd,
}
use unistore.Base.{
  ℕ, ◌+◌, ◌≤◌, ◌<◌, ◌≡◌, ◌∙◌, inl, inr, refl, ap, ◌==◌, Bool, true, false, if◌then◌else◌, List, [],
  ◌∷◌, ◌++◌, map, Option, none, some, arith, Option-cases, Bool-cases, subst,
}

abbrev told : Notice → ℕ
told (stale term cb) = cb
told (region_removed cb) = cb

-- How often a callback is among those of notices, commands, proposals, a search.
unfoldable pub in_notices : ℕ → List Notice → ℕ
in_notices k [] = 0
in_notices k (n ∷ ns) = (if told n == k then 1 else 0) + in_notices k ns

unfoldable pub in_cmds : ℕ → List PendingCmd → ℕ
in_cmds k [] = 0
in_cmds k (c ∷ cs) = (if c.cb == k then 1 else 0) + in_cmds k cs

unfoldable pub in_proposals : ℕ → List Proposal → ℕ
in_proposals k [] = 0
in_proposals k (p ∷ ps) = (if p.cb == k then 1 else 0) + in_proposals k ps

abbrev pub in_found : ℕ → Option ℕ → ℕ
in_found k none = 0
in_found k (some cb) = if cb == k then 1 else 0

abbrev pub in_queue : ℕ → PendingCmdQueue → ℕ
in_queue k q = in_cmds k q.normals + in_cmds k (optional q.conf_change)

in_notices-append :
    (k : ℕ) (ms ns : List Notice) → in_notices k (ms ++ ns) ≡ in_notices k ms + in_notices k ns
unfolding in_notices
in_notices-append k [] ns = omega arith
in_notices-append k (m ∷ ms) ns = omega (arith, in_notices-append k ms ns)

in_cmds-append :
    (k : ℕ) (cs ds : List PendingCmd) → in_cmds k (cs ++ ds) ≡ in_cmds k cs + in_cmds k ds
unfolding in_cmds
in_cmds-append k [] ds = omega arith
in_cmds-append k (c ∷ cs) ds = omega (arith, in_cmds-append k cs ds)

in_notices-notify_stale :
    (k term : ℕ) (cs : List PendingCmd) → in_notices k (notify_stale term cs) ≡ in_cmds k cs
unfolding in_notices in_cmds
in_notices-notify_stale k term [] = refl
in_notices-notify_stale k term (c ∷ cs) = ground (arith, in_notices-notify_stale k term cs)

in_notices-removed :
    (k : ℕ) (cs : List PendingCmd) → in_notices k (map (λ c. region_removed c.cb) cs) ≡ in_cmds k cs
unfolding in_notices in_cmds
in_notices-removed k [] = refl
in_notices-removed k (c ∷ cs) = ground (arith, in_notices-removed k cs)

in_notices-proposals :
    (k term : ℕ) (ps : List Proposal)
    → in_notices k (map (λ p. stale term p.cb) ps) ≡ in_proposals k ps
unfolding in_notices in_proposals
in_notices-proposals k term [] = refl
in_notices-proposals k term (p ∷ ps) = ground (arith, in_notices-proposals k term ps)

search_normals_conserves :
    (k index term : ℕ) (cs : List PendingCmd)
    → let s = search_normals index term cs in
      in_found k s.found + in_notices k s.notices + in_cmds k s.rest ≡ in_cmds k cs
unfolding search_normals in_notices in_cmds
search_normals_conserves k index term [] = refl
search_normals_conserves k index term (c ∷ cs) =
    ground (arith, search_normals_conserves k index term cs)

-- A search for the callback of an entry loses and repeats none: each callback that was pending is
-- found, told that it is stale, or still pending, as often as before.
pub find_callback_conserves :
    (k : ℕ) (q : PendingCmdQueue) (index term : ℕ) (is_conf_change : Bool)
    → let (found, notices, q') = find_callback q index term is_conf_change in
      in_found k found + in_notices k notices + in_queue k q' ≡ in_queue k q
unfolding find_callback in_notices in_cmds
find_callback_conserves k q index term true = elim (Option-cases q.conf_change) [
  | inl p ↦ ground arith
  | inr (c, p) ↦ ground arith
]
find_callback_conserves k q index term false =
    omega (arith, search_normals_conserves k index term q.normals)

add_proposal_conserves :
    (k term : ℕ) (q : PendingCmdQueue) (p : Proposal)
    → let (notices, q') = add_proposal term q p in
      in_notices k notices + in_queue k q' ≡ in_queue k q + (if p.cb == k then 1 else 0)
unfolding add_proposal in_notices in_cmds
add_proposal_conserves k term q p = elim (Bool-cases p.is_conf_change) [
  | inl c ↦ ground (arith, in_notices-notify_stale k term (optional q.conf_change))
  | inr c ↦ ground (arith, in_cmds-append k q.normals (pending_cmd p ∷ []))
]

add_proposals_conserves :
    (k term : ℕ) (q : PendingCmdQueue) (ps : List Proposal)
    → let (notices, q') = add_proposals term q ps in
      in_notices k notices + in_queue k q' ≡ in_queue k q + in_proposals k ps
unfolding add_proposals in_notices in_proposals
add_proposals_conserves k term q [] = omega arith
add_proposals_conserves k term q (p ∷ ps) =
    let (notices, q') = add_proposal term q p in
    let (later, q'') = add_proposals term q' ps in
    omega (
      arith,
      add_proposal_conserves k term q p,
      add_proposals_conserves k term q' ps,
      in_notices-append k notices later,
    )

-- Proposals that are handled are pending or told that they are stale, and so is every command
-- that was pending, as often as before.
pub handle_proposal_conserves :
    (k : ℕ) (stopped : Bool) (term : ℕ) (q : PendingCmdQueue) (ps : List Proposal)
    → let (notices, q') = handle_proposal stopped term q ps in
      in_notices k notices + in_queue k q' ≡ in_queue k q + in_proposals k ps
unfolding handle_proposal
handle_proposal_conserves k true term q ps = omega (arith, in_notices-proposals k term ps)
handle_proposal_conserves k false term q ps = add_proposals_conserves k term q ps

-- Clearing the commands as stale, and destroying them, tells every pending callback as often as
-- it is pending and leaves none pending.
pub cleared_conserves :
    (k term : ℕ) (q : PendingCmdQueue)
    → (in_notices k (clear_all_commands_as_stale term q).0 ≡ in_queue k q)
      × (in_queue k (clear_all_commands_as_stale term q).1 ≡ 0)
      × (in_notices k (destroy_commands q).0 ≡ in_queue k q)
      × (in_queue k (destroy_commands q).1 ≡ 0)
unfolding clear_all_commands_as_stale destroy_commands in_cmds
cleared_conserves k term q = (
  omega (
    arith,
    in_notices-append k (notify_stale term q.normals) (notify_stale term (optional q.conf_change)),
    in_notices-notify_stale k term q.normals,
    in_notices-notify_stale k term (optional q.conf_change),
  ),
  refl,
  omega (
    arith,
    in_notices-append k (map (λ c. region_removed c.cb) q.normals)
        (map (λ c. region_removed c.cb) (optional q.conf_change)),
    in_notices-removed k q.normals,
    in_notices-removed k (optional q.conf_change),
  ),
  refl,
)

-- The commands in the order in which they were proposed.
abbrev pub After : PendingCmd → List PendingCmd → Type 0
After c [] = Unit {0}
After c (d ∷ ds) = (c.index < d.index) × (c.term ≤ d.term) × After c ds

abbrev pub Ordered : List PendingCmd → Type 0
Ordered [] = Unit {0}
Ordered (c ∷ cs) = After c cs × Ordered cs

After-middle :
    (b c : PendingCmd) (before after : List PendingCmd)
    → After b (before ++ (c ∷ after))
    → (b.index < c.index) × (b.term ≤ c.term)
After-middle b c [] after h = (h.0, h.1)
After-middle b c (d ∷ before) after h = After-middle b c before after h.2

search_normals-Ordered :
    (before after : List PendingCmd) (c : PendingCmd)
    → Ordered (before ++ (c ∷ after))
    → search_normals c.index c.term (before ++ (c ∷ after))
      ≡ record { found = some c.cb; notices = notify_stale c.term before; rest = after }
unfolding search_normals
search_normals-Ordered [] after c o = ground arith
search_normals-Ordered (b ∷ before) after c o =
    ground (arith, search_normals-Ordered before after c o.1, After-middle b c before after o.0)

-- In a queue ordered by index and term, the search for a pending command's index and term finds
-- its callback, tells the commands before it that they are stale and leaves those after it.
pub find_callback-Ordered :
    (q : PendingCmdQueue) (before after : List PendingCmd) (c : PendingCmd)
    → q.normals ≡ before ++ (c ∷ after)
    → Ordered q.normals
    → find_callback q c.index c.term false
      ≡ (some c.cb, notify_stale c.term before, record q { normals = after })
unfolding find_callback
find_callback-Ordered q before after c e o =
    let found : search_normals c.index c.term q.normals
        ≡ record { found = some c.cb; notices = notify_stale c.term before; rest = after } =
      ap (search_normals c.index c.term) e
      ∙ search_normals-Ordered before after c (subst Ordered e o) in
    rw found refl
