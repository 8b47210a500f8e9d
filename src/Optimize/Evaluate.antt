-- ===== src/Optimize/Evaluate.antt =====
-- freqpanda_optimize/evaluate.py. `list.sort` is stable, and so it is with `reverse=True`.
pub mod Ranked
pub mod Variants
use freqpanda.Prelude.{ℕ, String, Option, List, [], ◌∷◌, map, zip_with, if◌then◌else◌}
use freqpanda.Prelude.Result.{Result, ok, ◌>>=◌}
use freqpanda.Prelude.Float.{Float}
use freqpanda.Strategy.Schema.{StrategyDefinition}
use freqpanda.Strategy.Indicators.{Frame, StrategyError}
use freqpanda.Backtest.Engine.{Libraries, BacktestKwargs, BacktestResult, pair}
use freqpanda.Backtest.Batch.{run_backtests_parallel}
use freqpanda.Optimize.Scoring.{MetricLike, score_from_result}

abbrev pub Ranking : Type 0 → Type 0
Ranking F = StrategyDefinition F × BacktestResult F

module _ {F : Type 0} ⦃fl : Float F⦄ (lib : Libraries F) (parse : String → Option F) where
  -- The keys of the sort, one for each pair.
  unfoldable pub scored :
      MetricLike F → List (Ranking F) → Result StrategyError (List (F × Ranking F))
  scored metric [] = ok []
  scored metric (p ∷ ps) = do
    score ← score_from_result lib.np parse p.1 metric
    rest ← scored metric ps
    ok ((score, p) ∷ rest)

  -- The place of an entry that came before those of a sorted list: before its equals.
  unfoldable pub insert_by : F × Ranking F → List (F × Ranking F) → List (F × Ranking F)
  insert_by e [] = e ∷ []
  insert_by e (f ∷ sorted) =
      let later = f ∷ insert_by e sorted in if fl.lt e.0 f.0 then later else e ∷ f ∷ sorted

  unfoldable pub sort_by : List (F × Ranking F) → List (F × Ranking F)
  unfolding insert_by
  sort_by [] = []
  sort_by (e ∷ es) = insert_by e (sort_by es)

  unfoldable pub evaluate_variants :
      List (StrategyDefinition F)
      → Frame F
      → MetricLike F
      → BacktestKwargs F
      → Result StrategyError (List (Ranking F))
  unfolding sort_by scored
  evaluate_variants variants df metric kwargs = do
    results ← run_backtests_parallel lib variants df kwargs
    keyed ← scored metric (zip_with pair variants results)
    ok (map (λ e. e.1) (sort_by keyed))
