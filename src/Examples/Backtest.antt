-- ===== src/Examples/Backtest.antt =====
-- The equity curve of a sample trade.
use freqpanda.Prelude.{
  ℕ, ◌≤◌, ◌<◌, none, some, false, All, ◌≡◌, refl, List, [], ◌∷◌, map, tabulate, arith,
}
use freqpanda.Prelude.Result.{ok}
use freqpanda.Prelude.Fixed.{Fixed, fixed_float, bp}
use freqpanda.Strategy.Indicators.{column_of}
use freqpanda.Backtest.Costs.{TradingCosts}
use freqpanda.Backtest.Equity.{apply_costs, get_loc_from, build_equity_curve}
use freqpanda.Backtest.Equity.Curve.{Placed, equity_at, build_equity_curve-equity_at}
use freqpanda.Backtest.Walkforward.{Split, generate_walk_forward_windows}
use freqpanda.Backtest.Walkforward.Windows.{nth_window, generate_walk_forward_windows-nth}
use freqpanda.Examples.Sample.{whole, candles, dip_trades}

abbrev pub sample_costs : TradingCosts Fixed
sample_costs = record { fee_pct = bp 10; slippage_pct = bp 20 }

abbrev placed : List (Placed Fixed)
placed =
    map
      (λ trade. record {
        entry_pos = 0;
        exit_pos = 2;
        result = apply_costs sample_costs (whole 1000) trade;
      })
      dip_trades

build_equity_curve-equity_at_example :
    build_equity_curve (λ i. whole 7) candles (map (λ p. p.result) placed) (whole 1000)
    ≡ ok (tabulate 4 (equity_at (map whole (99 ∷ 101 ∷ 110 ∷ 90 ∷ [])) (whole 1000) placed))
unfolding column_of get_loc_from apply_costs
build_equity_curve-equity_at_example =
    build_equity_curve-equity_at (λ i. whole 7) candles (map whole (99 ∷ 101 ∷ 110 ∷ 90 ∷ []))
      placed (whole 1000) refl (refl, refl, tt) (omega arith)

-- Train on two units of time, test on three, and go on by the test.
abbrev split : Split
split = record { train_period = 2; test_period = 3; step = none; anchored = false }

generate_walk_forward_windows-nth_example :
    (n : ℕ) × (generate_walk_forward_windows split 12 (0 ∷ 5 ∷ 10 ∷ [])
      ≡ some (tabulate n (nth_window split 0)))
    × All (λ w. w.test_end ≤ 10) (tabulate n (nth_window split 0))
    × (10 < (nth_window split 0 n).test_end)
generate_walk_forward_windows-nth_example =
    generate_walk_forward_windows-nth split 0 10 (5 ∷ 10 ∷ []) (omega arith) refl
