-- ===== src/Backtest/Batch.antt =====
-- freqpanda_backtest/batch.py. The processes of the pool share nothing but the DataFrame, and
-- `executor.map` gives the results in the order of its arguments, with the first exception raised.
use freqpanda.Prelude.{List, [], ◌∷◌}
use freqpanda.Prelude.Result.{Result, ok, ◌>>=◌}
use freqpanda.Prelude.Float.{Float}
use freqpanda.Strategy.Schema.{StrategyDefinition}
use freqpanda.Strategy.Indicators.{Frame, StrategyError}
use freqpanda.Backtest.Engine.{Libraries, BacktestKwargs, BacktestResult, backtest}

module _ {F : Type 0} ⦃fl : Float F⦄ (lib : Libraries F) where
  unfoldable pub run_backtests_parallel :
      List (StrategyDefinition F)
      → Frame F
      → BacktestKwargs F
      → Result StrategyError (List (BacktestResult F))
  run_backtests_parallel [] df kwargs = ok []
  run_backtests_parallel (d ∷ ds) df kwargs = do
    result ← backtest lib d df kwargs
    results ← run_backtests_parallel ds df kwargs
    ok (result ∷ results)
