-- ===== src/Applier/Commands.antt =====
-- raftstore/applier.go: the commands that wait for their entries, and who is told of what.
-- A callback is a number. The callbacks that are told that their command is stale, or that the region
-- is removed, are returned in the order of the calls.
use unistore.Base.{
  ℕ, ltb, leb, ◌==◌, Bool, true, false, if◌then◌else◌, ◌&&◌, List, [], ◌∷◌, ◌++◌, map, Option, none,
  some,
}

pub record PendingCmd : Type 0 where
  pub index : ℕ
  pub term : ℕ
  pub cb : ℕ

pub record PendingCmdQueue : Type 0 where
  pub normals : List PendingCmd
  pub conf_change : Option PendingCmd

pub data Notice : Type 0 where
  -- With the term that the response has.
  stale : ℕ → ℕ → Notice
  region_removed : ℕ → Notice

abbrev pub pop_normal_from : List PendingCmd → ℕ → Option (PendingCmd × List PendingCmd)
pop_normal_from [] term = none
pop_normal_from (c ∷ cs) term = if ltb term c.term then none else some (c, cs)

unfoldable pub pop_normal : PendingCmdQueue → ℕ → Option (PendingCmd × PendingCmdQueue)
pop_normal q term = elim (pop_normal_from q.normals term) [
  | none ↦ none
  | some (c, cs) ↦ some (c, record q { normals = cs })
]

unfoldable pub append_normal : PendingCmdQueue → PendingCmd → PendingCmdQueue
append_normal q cmd = record q { normals = q.normals ++ (cmd ∷ []) }

unfoldable pub take_conf_change : PendingCmdQueue → Option PendingCmd × PendingCmdQueue
take_conf_change q = (q.conf_change, record q { conf_change = none })

unfoldable pub set_conf_change : PendingCmdQueue → PendingCmd → PendingCmdQueue
set_conf_change q cmd = record q { conf_change = some cmd }

abbrev pub is_cmd : ℕ → ℕ → PendingCmd → Bool
is_cmd index term c = c.index == index && c.term == term

-- What a search leaves: the callback that was found, those that were told, and the commands left.
pub record Search : Type 0 where
  pub found : Option ℕ
  pub notices : List Notice
  pub rest : List PendingCmd

-- The loop that pops commands until the one of the entry, or one of a later term.
unfoldable pub search_normals : ℕ → ℕ → List PendingCmd → Search
search_normals index term [] = record { found = none; notices = []; rest = [] }
search_normals index term (c ∷ cs) =
    let later = search_normals index term cs in
    if ltb term c.term
    then record { found = none; notices = []; rest = c ∷ cs }
    else if is_cmd index term c
    then record { found = some c.cb; notices = []; rest = cs }
    else record later { notices = stale term c.cb ∷ later.notices }

abbrev pub search_conf_change : ℕ → ℕ → Option PendingCmd → Option ℕ × List Notice
search_conf_change index term none = (none, [])
search_conf_change index term (some c) =
    if is_cmd index term c then (some c.cb, []) else (none, stale term c.cb ∷ [])

unfoldable pub find_callback :
    PendingCmdQueue → ℕ → ℕ → Bool → Option ℕ × List Notice × PendingCmdQueue
unfolding search_normals take_conf_change
find_callback q index term true =
    let (cmd, q') = take_conf_change q in
    let (found, notices) = search_conf_change index term cmd in (found, notices, q')
find_callback q index term false =
    let s = search_normals index term q.normals in
    (s.found, s.notices, record q { normals = s.rest })

-- An empty entry, which a new leader sends: the commands of the terms before it are stale.
unfoldable pub pop_stale : ℕ → List PendingCmd → List Notice × List PendingCmd
pop_stale term [] = ([], [])
pop_stale term (c ∷ cs) =
    let (notices, rest) = pop_stale term cs in
    if leb term c.term then ([], c ∷ cs) else (stale term c.cb ∷ notices, rest)

abbrev pub notify_stale : ℕ → List PendingCmd → List Notice
notify_stale term cs = map (λ c. stale term c.cb) cs

abbrev pub optional : Option PendingCmd → List PendingCmd
optional none = []
optional (some c) = c ∷ []

-- `clearAllCommandsAsStale`.
unfoldable pub clear_all_commands_as_stale : ℕ → PendingCmdQueue → List Notice × PendingCmdQueue
unfolding take_conf_change
clear_all_commands_as_stale term q =
    let (cmd, q') = take_conf_change (record q { normals = [] }) in
    (notify_stale term q.normals ++ notify_stale term (optional cmd), q')

-- The notices of `destroy`.
unfoldable pub destroy_commands : PendingCmdQueue → List Notice × PendingCmdQueue
unfolding take_conf_change
destroy_commands q =
    let (cmd, q') = take_conf_change (record q { normals = [] }) in
    (map (λ c. region_removed c.cb) q.normals ++ map (λ c. region_removed c.cb) (optional cmd), q')

pub record Proposal : Type 0 where
  pub is_conf_change : Bool
  pub index : ℕ
  pub term : ℕ
  pub cb : ℕ

abbrev pub pending_cmd : Proposal → PendingCmd
pending_cmd p = record { index = p.index; term = p.term; cb = p.cb }

-- One round of the loop over the proposals.
unfoldable pub add_proposal : ℕ → PendingCmdQueue → Proposal → List Notice × PendingCmdQueue
unfolding append_normal take_conf_change set_conf_change
add_proposal term q p =
    let (cmd, q') = take_conf_change q in
    if p.is_conf_change
    then (notify_stale term (optional cmd), set_conf_change q' (pending_cmd p))
    else ([], append_normal q (pending_cmd p))

unfoldable pub add_proposals : ℕ → PendingCmdQueue → List Proposal → List Notice × PendingCmdQueue
unfolding add_proposal
add_proposals term q [] = ([], q)
add_proposals term q (p ∷ ps) =
    let (notices, q') = add_proposal term q p in
    let (later, q'') = add_proposals term q' ps in (notices ++ later, q'')

-- `handleProposal`, for the applier's own proposals; `term` is the applier's.
unfoldable pub handle_proposal :
    Bool → ℕ → PendingCmdQueue → List Proposal → List Notice × PendingCmdQueue
unfolding add_proposals
handle_proposal stopped term q ps =
    if stopped then (map (λ p. stale term p.cb) ps, q) else add_proposals term q ps
