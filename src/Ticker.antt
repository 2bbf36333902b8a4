-- ===== src/Ticker.antt =====
-- raftstore/ticker.go, and the rounds of ticks of a peer (raftstore/fsm_peer.go).
use unistore.Base.{
  [], ◌∷◌, none, some, true, false, Option, ◌+◌, List, Bool, ℕ, ◌==◌, if◌then◌else◌, ◌||◌, ◌&&◌,
}
pub mod Rounds

-- `none` is the time -1, at which nothing runs; an interval that is not positive is 0.
pub record TickSchedule : Type 0 where
  pub run_at : Option ℕ
  pub interval : ℕ

-- The schedules by the numbers of their ticks.
pub record Ticker : Type 0 where
  pub tick : ℕ
  pub schedules : ℕ → TickSchedule

-- `PeerTick`.
abbrev pub tick_raft : ℕ
tick_raft = 0

abbrev tick_raft_log_gc : ℕ
tick_raft_log_gc = 1

abbrev tick_split_region_check : ℕ
tick_split_region_check = 2

abbrev tick_pd_heartbeat : ℕ
tick_pd_heartbeat = 3

abbrev pub tick_check_merge : ℕ
tick_check_merge = 4

abbrev pub tick_peer_stale_state : ℕ
tick_peer_stale_state = 5

-- A ticker with the intervals of the configuration in base ticks; the raft tick has the interval 1.
unfoldable pub new_ticker : (ℕ → ℕ) → Ticker
new_ticker intervals = record {
  tick = 0;
  schedules = λ (tp : ℕ). record {
    run_at = some 0;
    interval = if tp == tick_raft then 1 else intervals tp;
  };
}

unfoldable pub tick_clock : Ticker → Ticker
tick_clock t = record t { tick = t.tick + 1 }

abbrev pub next_run : ℕ → TickSchedule → TickSchedule
next_run now s = record s { run_at = if s.interval == 0 then none else some (now + s.interval) }

unfoldable pub schedule : ℕ → Ticker → Ticker
schedule tp t = record t {
  schedules = λ (i : ℕ). if i == tp then next_run t.tick (t.schedules tp) else t.schedules i;
}

unfoldable pub is_on_tick : ℕ → Ticker → Bool
is_on_tick tp t = elim (t.schedules tp).run_at [ none ↦ false | some r ↦ r == t.tick ]

-- `startTicker`, which schedules all ticks but that for merges.
unfoldable pub start_ticker : (ℕ → ℕ) → Ticker
unfolding new_ticker schedule
start_ticker intervals = schedule tick_peer_stale_state (
    schedule tick_pd_heartbeat (
      schedule tick_split_region_check
        (schedule tick_raft_log_gc (schedule tick_raft (new_ticker intervals)))))

-- What the handler of a tick does with the ticker, for a peer that may be about to be removed.
unfoldable pub handle_tick : Bool → ℕ → Ticker → Ticker
unfolding schedule
handle_tick pending_remove tp t =
    if tp == tick_check_merge
      || (pending_remove && (tp == tick_raft || tp == tick_peer_stale_state))
    then t
    else schedule tp t

unfoldable pub run_if_on : Bool → ℕ → Ticker → Ticker
unfolding is_on_tick handle_tick
run_if_on pending_remove tp t = if is_on_tick tp t then handle_tick pending_remove tp t else t

-- The handlers of those ticks that are on, with the ticks that were handled.
unfoldable pub run_handlers : Bool → List ℕ → Ticker → Ticker × List ℕ
unfolding run_if_on
run_handlers pending_remove [] t = (t, [])
run_handlers pending_remove (tp ∷ tps) t =
    let (t', handled) = run_handlers pending_remove tps (run_if_on pending_remove tp t) in
    (t', if is_on_tick tp t then tp ∷ handled else handled)

abbrev pub tick_order : List ℕ
tick_order =
    tick_raft ∷ tick_raft_log_gc ∷ tick_pd_heartbeat ∷ tick_split_region_check ∷ tick_check_merge
    ∷ tick_peer_stale_state ∷ []

unfoldable pub on_tick : Bool → Bool → Ticker → Ticker × List ℕ
unfolding tick_clock run_handlers
on_tick stopped pending_remove t =
    if stopped then (t, []) else run_handlers pending_remove tick_order (tick_clock t)
