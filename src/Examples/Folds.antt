-- ===== src/Examples/Folds.antt =====
-- A walk-forward search with one window, by a study that tries one trial.
use freqpanda.Prelude.{
  ℕ, zero, suc, ◌≤◌, ◌<◌, ◌≡◌, refl, true, none, some, List, [], ◌∷◌, inl, tabulate, All, arith,
}
use freqpanda.Prelude.Result.{Result, ok}
use freqpanda.Prelude.Dict.{get}
use freqpanda.Prelude.Fixed.{Fixed, fixed_float}
use freqpanda.Strategy.Schema.{check_definition, contains, alias_is_identifier}
use freqpanda.Strategy.Indicators.{StrategyError, indicator_registry, column_of, sma}
use freqpanda.Strategy.Validation.{
  validate_definition, problems, available_columns, indicator_columns, indicator_problems,
  operand_refs, without,
}
use freqpanda.Strategy.Conditions.{evaluate_condition, resolve_operand, apply_op}
use freqpanda.Strategy.Interpreter.{
  missing, run_strategy, compute_indicators, signals_of, run_loop, step, assign,
}
use freqpanda.Backtest.Equity.{apply_costs_to_trades, build_equity_curve}
use freqpanda.Backtest.Metrics.{
  compute_drawdown, compute_trade_stats, compute_return_ratios, infer_periods_per_year,
}
use freqpanda.Backtest.Engine.{backtest}
use freqpanda.Backtest.Walkforward.Windows.{nth_window}
use freqpanda.Backtest.Walkforward.Runs.{slice}
use freqpanda.Backtest.Walkforward.Runs.Separate.{is_full}
use freqpanda.Backtest.Walkforward.{WalkForwardWindow}
use freqpanda.Optimize.SearchSpace.{Trial, build_search_space, suggest_from, materialize_definition}
use freqpanda.Optimize.Scoring.{named, attribute, score_from_result}
use freqpanda.Optimize.Study.{Study, Search, OptimizationResult, objective, optimize}
use freqpanda.Optimize.Study.Folds.{FoundStudy, Folds, optimize_lem}
use freqpanda.Examples.Sample.{whole, plain-KeepsLength, candles}
use freqpanda.Examples.Backtesting.{sample_libraries, sample_kwargs}
use freqpanda.Examples.Optimize.{tunable, lowest, no_text, split}

-- One trial, whose values are then the best.
abbrev pub one_trial : Study Fixed
one_trial = record {
  best_params_of = λ objective n_trials timeout. ok (("mean.period", whole 2) ∷ []);
}

abbrev sample_search : Search Fixed
sample_search = record {
  metric = named "final_capital";
  n_trials = 1;
  timeout = none;
  backtest_kwargs = sample_kwargs;
}

abbrev tried : WalkForwardWindow → List (Trial Fixed)
tried w = lowest ∷ []

abbrev lowest_first : WalkForwardWindow → Trial Fixed
lowest_first w = lowest

abbrev final_score : WalkForwardWindow → Fixed
final_score w = whole 1000

found :
    FoundStudy sample_libraries no_text one_trial tunable sample_search candles tried lowest_first
      final_score
      (nth_window split 1000 0)
unfolding objective build_search_space materialize_definition backtest run_strategy
    validate_definition problems available_columns indicator_columns indicator_problems operand_refs
    without contains missing get indicator_registry compute_indicators assign signals_of
    evaluate_condition resolve_operand apply_op column_of run_loop step apply_costs_to_trades
    build_equity_curve compute_drawdown compute_trade_stats compute_return_ratios
    infer_periods_per_year score_from_result attribute slice nth_window suggest_from sma
found = record {
  answers = refl;
  chosen = inl refl;
  takes = (refl, tt);
  scores = refl;
  beats = ((whole 1000, refl, refl), tt);
}

studied :
    (k : ℕ)
    → (nth_window split 1000 k).test_end ≤ 4000
    → is_full candles (nth_window split 1000 k) ≡ true
    → FoundStudy sample_libraries no_text one_trial tunable sample_search candles tried lowest_first
        final_score
        (nth_window split 1000 k)
unfolding nth_window
studied zero fits full = found
studied (suc k) fits full = absurd (omega arith)

optimize_lem_example :
    (n : ℕ) × (m : Result StrategyError (OptimizationResult Fixed)) × All
      (λ w. w.test_end ≤ 4000)
      (tabulate n (nth_window split 1000))
    × (4000 < (nth_window split 1000 n).test_end)
    × (optimize sample_libraries no_text one_trial split 4002 tunable sample_search candles
        ≡ some m)
    × Folds sample_libraries no_text one_trial tunable sample_search candles tried lowest_first
        final_score
        (tabulate n (nth_window split 1000))
        m
unfolding check_definition validate_definition problems available_columns indicator_columns
    indicator_problems operand_refs without contains missing alias_is_identifier get
    indicator_registry
optimize_lem_example =
    optimize_lem sample_libraries no_text one_trial tunable sample_search candles tried lowest_first
      final_score plain-KeepsLength (refl, (refl, (refl, (refl, (refl, tt))))) (omega arith) refl
      refl refl split 1000 4000 (2000 ∷ 3000 ∷ 4000 ∷ []) (omega arith) refl refl studied
