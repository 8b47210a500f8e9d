-- ===== src/Examples/Optimize.antt =====
-- A search over the sample strategy with a range in it, and a ranking of variants.
use mathlib.Core.List.{Perm}
use freqpanda.Prelude.{
  ℕ, String, ◌⊎◌, ◌≤◌, ◌<◌, ◌≡◌, refl, true, false, Option, none, some, List, [], ◌∷◌, map,
  tabulate, All, arith,
}
use freqpanda.Prelude.Result.{ok, err}
use freqpanda.Prelude.Dict.{get}
use freqpanda.Prelude.Fixed.{Fixed, fixed_float, Fixed-IsOrdered}
use freqpanda.Strategy.Schema.{
  StrategyDefinition, check_definition, contains, alias_is_identifier, range,
}
use freqpanda.Strategy.Indicators.{StrategyError, indicator_registry}
use freqpanda.Strategy.Validation.{
  validate_definition, problems, available_columns, indicator_columns, indicator_problems,
  operand_refs, without,
}
use freqpanda.Strategy.Interpreter.{missing}
use freqpanda.Backtest.Metrics.{select}
use freqpanda.Backtest.Walkforward.{Split}
use freqpanda.Backtest.Walkforward.Windows.{nth_window}
use freqpanda.Backtest.Walkforward.Runs.{WalkForwardResult, run_walk_forward}
use freqpanda.Backtest.Walkforward.Runs.Separate.{
  is_full, Blames, SliceFails, IsWindowRun, run_walk_forward_lem,
}
use freqpanda.Optimize.SearchSpace.{
  Trial, build_search_space, suggest_params, materialize_definition,
}
use freqpanda.Optimize.SearchSpace.Materialized.{materialize_definition_lem}
use freqpanda.Optimize.Scoring.{named, attribute}
use freqpanda.Optimize.Evaluate.{Ranking, evaluate_variants}
use freqpanda.Optimize.Evaluate.Ranked.{IsRanked}
use freqpanda.Optimize.Evaluate.Variants.{IsOwn, VariantFails, evaluate_variants_lem}
use freqpanda.Examples.Sample.{whole, plain, plain-KeepsLength, candles, dip}
use freqpanda.Examples.Backtesting.{sample_libraries, sample_kwargs}

-- The period is between 2 and 9.
abbrev pub tunable : StrategyDefinition Fixed
tunable = record dip {
  indicators =
      record {
        name = "sma";
        alias = "mean";
        params =
            (
              "period",
              range (record { default = whole 5; min = whole 2; max = whole 9; step = none }),
            )
            ∷ [];
      }
      ∷ [];
}

-- A trial that is given the lowest value of each range.
abbrev pub lowest : Trial Fixed
lowest = record { suggest_int = λ key low high step. low; suggest_float = λ key low high step. low }

materialize_definition_lem_example :
    let best =
      materialize_definition tunable (suggest_params lowest (build_search_space tunable)) in
    (check_definition best ≡ true)
    × (validate_definition plain best ≡ ok tt)
    × (build_search_space best ≡ [])
unfolding check_definition validate_definition problems available_columns indicator_columns
    indicator_problems operand_refs without contains alias_is_identifier get indicator_registry
materialize_definition_lem_example = materialize_definition_lem plain tunable lowest refl refl

abbrev pub no_text : String → Option Fixed
no_text s = none

evaluate_variants_lem_example :
    ((pairs : List (Ranking Fixed)) × (evaluate_variants sample_libraries no_text
          (dip ∷ tunable ∷ [])
          candles
          (named "sharpe_ratio")
          sample_kwargs
        ≡ ok pairs)
      × Perm (map (λ p. p.0) pairs) (dip ∷ tunable ∷ [])
      × All (IsOwn sample_libraries no_text candles sample_kwargs) pairs
      × IsRanked sample_libraries no_text (named "sharpe_ratio") pairs)
    ⊎ ((e : StrategyError) × (evaluate_variants sample_libraries no_text
            (dip ∷ tunable ∷ [])
            candles
            (named "sharpe_ratio")
            sample_kwargs
          ≡ err e)
        × VariantFails sample_libraries no_text candles sample_kwargs (dip ∷ tunable ∷ []) e)
unfolding check_definition validate_definition problems available_columns indicator_columns
    indicator_problems operand_refs without contains missing alias_is_identifier get
    indicator_registry attribute
evaluate_variants_lem_example =
    evaluate_variants_lem sample_libraries no_text candles sample_kwargs plain-KeepsLength
      (refl, (refl, (refl, (refl, (refl, tt))))) (omega arith) refl (dip ∷ tunable ∷ [])
      (named "sharpe_ratio") Fixed-IsOrdered refl (λ r. (r.sharpe_ratio, refl))
      ((refl, refl, (refl, tt)), ((refl, refl, (refl, tt)), tt))

-- Train on two candles, test on one, and go on by the test.
abbrev pub split : Split
split = record { train_period = 2000; test_period = 1000; step = none; anchored = false }

run_walk_forward_lem_example :
    (n : ℕ) × All (λ w. w.test_end ≤ 4000) (tabulate n (nth_window split 1000))
    × (4000 < (nth_window split 1000 n).test_end)
    × (((results : List (WalkForwardResult Fixed)) × (run_walk_forward sample_libraries split 4002
              dip candles sample_kwargs
            ≡ some (ok results))
          × (map (λ r. r.window) results
              ≡ select (is_full candles) (tabulate n (nth_window split 1000)))
          × All (IsWindowRun sample_libraries dip candles sample_kwargs) results)
        ⊎ ((e : StrategyError) × (run_walk_forward sample_libraries split 4002 dip candles
                sample_kwargs
              ≡ some (err e))
            × Blames candles
                (SliceFails sample_libraries dip candles sample_kwargs)
                (tabulate n (nth_window split 1000))
                e))
unfolding check_definition validate_definition problems available_columns indicator_columns
    indicator_problems operand_refs without contains missing alias_is_identifier get
    indicator_registry
run_walk_forward_lem_example =
    run_walk_forward_lem sample_libraries dip candles sample_kwargs plain-KeepsLength
      (refl, (refl, (refl, (refl, (refl, tt))))) (omega arith) refl refl refl (refl, tt) split 1000
      4000 (2000 ∷ 3000 ∷ 4000 ∷ []) (omega arith) refl refl
