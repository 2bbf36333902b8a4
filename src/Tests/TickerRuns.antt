-- ===== src/Tests/TickerRuns.antt =====
-- Runs of a peer's ticker, and its theorem at a concrete input.
use unistore.Base.{true, ℕ, ◌≡◌, arith}
use unistore.Ticker.{start_ticker}
use unistore.Ticker.Rounds.{handled_after, handled_after-start_ticker}

-- The tick of the log's collection, every third round, in the sixth one.
handled_after-start_ticker_example : handled_after 1 5 (start_ticker (λ (tp : ℕ). 3)) ≡ true
handled_after-start_ticker_example =
    handled_after-start_ticker (λ (tp : ℕ). 3) 1 5 (omega arith) (omega arith) (omega arith)
