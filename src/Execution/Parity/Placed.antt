-- ===== src/Execution/Parity/Placed.antt =====
-- The trades of `run_strategy` have positions in the index of the candles, in order.
use freqpanda.Prelude.{
  ℕ, suc, ◌≤◌, ◌≡◌, refl, ap, subst, Bool, List, [], ◌∷◌, map, All, IsRising, arith,
}
use freqpanda.Prelude.Result.{ok, IfOk, IfOk-bind, always}
use freqpanda.Prelude.Float.{Float}
use freqpanda.Strategy.Schema.{StrategyDefinition}
use freqpanda.Strategy.Indicators.{Ta, Frame, column_of}
use freqpanda.Strategy.Conditions.{evaluate_condition}
use freqpanda.Strategy.Interpreter.{
  Trade, signals_of, exit_series, rows_of, with_signals, with_prices, run_strategy,
}
use freqpanda.Strategy.Shape.{IsAligned}
use freqpanda.Strategy.Shape.Computed.{KeepsLength, compute_indicators-Extends}
use freqpanda.Execution.LiveInterpreter.{snapshot_of}
use freqpanda.Execution.Parity.Chronology.{IsChronological}
use freqpanda.Execution.Parity.Chronology.Candles.{BothTimes, live_run-BothTimes}
use freqpanda.Execution.Parity.Order.{times, run_strategy-live_run, run_strategy-IsChronological}
use freqpanda.Backtest.Costs.{TradingCosts}
use freqpanda.Backtest.Equity.{get_loc, apply_costs, apply_costs_to_trades}
use freqpanda.Backtest.Equity.Curve.{Placed, InOrder, IsLocated}
use freqpanda.Backtest.Equity.Positions.{IsFound, index-IsFound, get_loc-lt}

module _ {F : Type 0} ⦃fl : Float F⦄ where
  times-All :
      (P : ℕ → Type 0) (index : List ℕ) (os hs ls cs : List F) (es xs : List Bool)
      → All P index
      → All P (times (with_signals (with_prices index os hs ls cs) es xs))
  times-All P [] os hs ls cs es xs all = tt
  times-All P (t ∷ ts) [] hs ls cs es xs all = tt
  times-All P (t ∷ ts) (o ∷ os) [] ls cs es xs all = tt
  times-All P (t ∷ ts) (o ∷ os) (h ∷ hs) [] cs es xs all = tt
  times-All P (t ∷ ts) (o ∷ os) (h ∷ hs) (l ∷ ls) [] es xs all = tt
  times-All P (t ∷ ts) (o ∷ os) (h ∷ hs) (l ∷ ls) (c ∷ cs) [] xs all = tt
  times-All P (t ∷ ts) (o ∷ os) (h ∷ hs) (l ∷ ls) (c ∷ cs) (e ∷ es) [] all = tt
  times-All P (t ∷ ts) (o ∷ os) (h ∷ hs) (l ∷ ls) (c ∷ cs) (e ∷ es) (x ∷ xs) all =
      (all.0, times-All P ts os hs ls cs es xs all.1)

  signals_of-All :
      (P : ℕ → Type 0) (d : StrategyDefinition F) (df : Frame F)
      → All P df.index
      → IfOk (λ signals. All P (times signals)) (signals_of d df)
  unfolding signals_of rows_of
  signals_of-All P d df all = always _ (evaluate_condition d.entry_conditions df) _ λ es.
      always _ (exit_series d.exit_conditions df) _ λ xs.
        IfOk-bind (λ rows. All P (times (with_signals rows es xs))) _ (rows_of df) _
          (always _ (column_of df "open") _ λ os. always _ (column_of df "high") _ λ hs.
            always _ (column_of df "low") _ λ ls.
              always _ (column_of df "close") _ λ cs. times-All P df.index os hs ls cs es xs all)
          (λ rows h. h)

  run_strategy-BothTimes :
      (ta : Ta F) (d : StrategyDefinition F) (df : Frame F) (trades : List (Trade F))
      → KeepsLength ta
      → IsAligned df
      → run_strategy ta d df ≡ ok trades
      → All (BothTimes (IsFound df.index)) trades
  run_strategy-BothTimes ta d df trades keeps aligned e =
      let (frame, signals, computed, evaluated, ran) = run_strategy-live_run ta d df trades e in
      let (rows, even) =
        rw computed at (compute_indicators-Extends ta keeps d.indicators df aligned) in
      let found =
        rw evaluated at
          (signals_of-All (IsFound df.index) d frame (rw rows (index-IsFound df.index))) in
      subst (All (BothTimes (IsFound df.index))) ran
        (live_run-BothTimes d.risk_management (IsFound df.index) (map snapshot_of signals) found)

  abbrev pub Places : List ℕ → ℕ → List (Trade F) → F → TradingCosts F → List (Placed F) → Type 0
  Places index cursor trades equity costs ps =
      (map (λ p. p.result) ps ≡ apply_costs_to_trades trades equity costs)
      × IsLocated index ps
      × InOrder cursor ps

  -- Trades in the order of time whose times the index has, from a bound on times and one on positions.
  place :
      (index : List ℕ) (rising : IsRising 0 index) (costs : TradingCosts F)
      (trades : List (Trade F)) (equity : F) (b cursor : ℕ)
      → ((u j : ℕ) → b ≤ u → get_loc index u ≡ ok j → cursor ≤ j)
      → IsChronological b trades
      → All (BothTimes (IsFound index)) trades
      → (ps : List (Placed F)) × Places index cursor trades equity costs ps
  unfolding apply_costs_to_trades
  place index rising costs [] equity b cursor bound ordered found = ([], (refl, tt, tt))
  place index rising costs (t ∷ trades) equity b cursor bound ordered ((entry, exit), found) =
      let result = apply_costs costs equity t in
      let (ps, (same, located, in_order)) =
        place index rising costs trades result.equity_after (suc t.exit_time) (suc exit.0)
          (λ u j h e. get_loc-lt 0 index t.exit_time u rising exit.1 e h) ordered.2 found in
      (
        record { entry_pos = entry.0; exit_pos = exit.0; result = result } ∷ ps,
        (
          ap (◌∷◌ result) same,
          (entry.1, exit.1, located),
          (
            bound t.entry_time entry.0 ordered.0 entry.1,
            get_loc-lt 0 index t.entry_time t.exit_time rising entry.1 exit.1 ordered.1,
            in_order,
          ),
        ),
      )

  -- The trades that a strategy made over rising candles have positions, in order.
  pub run_strategy-Places :
      (ta : Ta F) (d : StrategyDefinition F) (df : Frame F) (trades : List (Trade F)) (equity : F)
      (costs : TradingCosts F)
      → KeepsLength ta
      → IsAligned df
      → IsRising 0 df.index
      → run_strategy ta d df ≡ ok trades
      → (ps : List (Placed F)) × Places df.index 0 trades equity costs ps
  run_strategy-Places ta d df trades equity costs keeps aligned rising e =
      place df.index rising costs trades equity 0 0 (λ u j h k. omega arith)
        (run_strategy-IsChronological ta d df trades keeps aligned rising e)
        (run_strategy-BothTimes ta d df trades keeps aligned e)
