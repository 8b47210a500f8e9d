-- ===== src/Optimize/Study.antt =====
-- freqpanda_optimize/optimize.py. Optuna is a parameter: a study runs an objective, which may raise,
-- and gives its best_params. The study itself is left out of the result.
pub mod Best
pub mod Folds
use freqpanda.Prelude.{ℕ, String, Option, none, some, List, [], ◌∷◌, map, ◌*◌}
use freqpanda.Prelude.Result.{Result, ok, err, ◌>>=◌}
use freqpanda.Prelude.Float.{Float}
use freqpanda.Strategy.Schema.{StrategyDefinition}
use freqpanda.Strategy.Indicators.{Frame, StrategyError, value_error}
use freqpanda.Backtest.Engine.{Libraries, BacktestKwargs, BacktestResult, backtest}
use freqpanda.Backtest.Walkforward.{WalkForwardWindow, Split, generate_walk_forward_windows}
use freqpanda.Backtest.Walkforward.Runs.{over_windows}
use freqpanda.Optimize.SearchSpace.{
  Trial, build_search_space, suggest_params, materialize_definition,
}
use freqpanda.Optimize.Scoring.{MetricLike, score_from_result}

-- create_study, optimize(objective, n_trials, timeout) and best_params, with the sampler in it.
pub record Study (F : Type 0) : Type 0 where
  pub best_params_of :
      (Trial F → Result StrategyError F) → ℕ → Option F → Result StrategyError (List (String × F))

-- The arguments of a search: the metric, n_trials, timeout and the backtest's arguments.
pub record Search (F : Type 0) : Type 0 where
  pub metric : MetricLike F
  pub n_trials : ℕ
  pub timeout : Option F
  pub backtest_kwargs : BacktestKwargs F

pub record WindowOptimizationResult (F : Type 0) : Type 0 where
  pub window : Option WalkForwardWindow
  pub metric : MetricLike F
  pub best_params : List (String × F)
  pub best_definition : StrategyDefinition F
  pub in_sample_result : BacktestResult F
  pub out_of_sample_result : BacktestResult F

pub record OptimizationResult (F : Type 0) : Type 0 where
  pub metric : MetricLike F
  pub windows : List (WindowOptimizationResult F)

module _ {F : Type 0} ⦃fl : Float F⦄ (lib : Libraries F) (parse : String → Option F)
    (study : Study F) where
  unfoldable pub in_sample_score : WindowOptimizationResult F → Result StrategyError F
  in_sample_score w = score_from_result lib.np parse w.in_sample_result w.metric

  unfoldable pub out_of_sample_score : WindowOptimizationResult F → Result StrategyError F
  out_of_sample_score w = score_from_result lib.np parse w.out_of_sample_result w.metric

  unfoldable pub objective :
      StrategyDefinition F → Frame F → Search F → Trial F → Result StrategyError F
  objective d train_df search trial = do
    let values = suggest_params trial (build_search_space d)
    result ← backtest lib (materialize_definition d values) train_df search.backtest_kwargs
    score_from_result lib.np parse result search.metric

  unfoldable pub optimize_single_split :
      StrategyDefinition F
      → Search F
      → Option WalkForwardWindow
      → Frame F
      → Frame F
      → Result StrategyError (WindowOptimizationResult F)
  unfolding objective
  optimize_single_split d search window train_df test_df = do
    best_params ← study.best_params_of (objective d train_df search) search.n_trials search.timeout
    let best_definition = materialize_definition d best_params
    in_sample_result ← backtest lib best_definition train_df search.backtest_kwargs
    out_of_sample_result ← backtest lib best_definition test_df search.backtest_kwargs
    ok (record {
      window = window;
      metric = search.metric;
      best_params = best_params;
      best_definition = best_definition;
      in_sample_result = in_sample_result;
      out_of_sample_result = out_of_sample_result;
    })

  abbrev pub windows_result :
      MetricLike F
      → Result StrategyError (List (WindowOptimizationResult F))
      → Result StrategyError (OptimizationResult F)
  windows_result metric run = run >>= λ windows. ok (record { metric = metric; windows = windows })

  -- No window at all is a ValueError.
  abbrev pub optimize_windows :
      StrategyDefinition F
      → Search F
      → Frame F
      → List WalkForwardWindow
      → Result StrategyError (OptimizationResult F)
  optimize_windows d search df [] = err value_error
  optimize_windows d search df (w ∷ ws) =
      windows_result search.metric
        (over_windows (λ window. optimize_single_split d search (some window)) df (w ∷ ws))

  -- `none` is fuel of the windows that is spent.
  unfoldable pub optimize :
      Split
      → ℕ
      → StrategyDefinition F
      → Search F
      → Frame F
      → Option (Result StrategyError (OptimizationResult F))
  unfolding optimize_single_split
  optimize s fuel d search df = elim (generate_walk_forward_windows s fuel df.index) [
    | none ↦ none
    | some windows ↦ some (optimize_windows d search df windows)
  ]

  unfoldable pub refit_on_full_history :
      StrategyDefinition F → Search F → Frame F → Result StrategyError (WindowOptimizationResult F)
  unfolding optimize_single_split
  refit_on_full_history d search df = optimize_single_split d search none df df

  unfoldable pub scores_of :
      (WindowOptimizationResult F → Result StrategyError F)
      → List (WindowOptimizationResult F)
      → Result StrategyError (List F)
  scores_of f [] = ok []
  scores_of f (w ∷ ws) = do score ← f w; scores ← scores_of f ws; ok (score ∷ scores)

  -- pd.Series(scores).mean(), of scores that are never NaN
  unfoldable pub mean_in_sample_score : OptimizationResult F → Result StrategyError F
  unfolding scores_of
  mean_in_sample_score r = scores_of in_sample_score r.windows >>= λ scores. ok (lib.np.mean scores)

  unfoldable pub mean_out_of_sample_score : OptimizationResult F → Result StrategyError F
  unfolding scores_of
  mean_out_of_sample_score r =
      scores_of out_of_sample_score r.windows >>= λ scores. ok (lib.np.mean scores)
