-- ===== src/Optimize/Scoring.antt =====
-- freqpanda_optimize/scoring.py. `parse` is what `float` reads of a text. The attributes that Python
-- gives every object are left out.
use freqpanda.Prelude.{String, Option, none, some, List, [], ◌∷◌, if◌then◌else◌}
use freqpanda.Prelude.Result.{Result, ok, err, ◌>>=◌}
use freqpanda.Prelude.Dict
use freqpanda.Prelude.Float.{Float, is_nan}
use freqpanda.Strategy.Indicators.{StrategyError, value_error, type_error}
use freqpanda.Backtest.Metrics.{Numpy, Series}
use freqpanda.Backtest.Engine.{BacktestResult}

-- The name of an attribute, or a composite score.
pub data MetricLike (F : Type 0) : Type 0 where
  named : String → MetricLike F
  composite : (BacktestResult F → Result StrategyError F) → MetricLike F

module _ {F : Type 0} ⦃fl : Float F⦄ where
  abbrev pub worst_score : Numpy F → F
  worst_score np = np.negate np.infinity

  -- The attributes that are numbers.
  abbrev pub numbers_of : BacktestResult F → List (String × F)
  numbers_of r =
      ("initial_capital", r.initial_capital)
      ∷ ("final_capital", r.final_capital)
      ∷ ("total_return_pct", r.total_return_pct)
      ∷ ("total_return_abs", r.total_return_abs)
      ∷ ("sharpe_ratio", r.sharpe_ratio)
      ∷ ("sortino_ratio", r.sortino_ratio)
      ∷ ("max_drawdown_pct", r.max_drawdown_pct)
      ∷ ("num_trades", fl.of_nat r.num_trades)
      ∷ ("win_rate", r.win_rate)
      ∷ ("avg_win_pct", r.avg_win_pct)
      ∷ ("avg_loss_pct", r.avg_loss_pct)
      ∷ ("profit_factor", r.profit_factor)
      ∷ []

  -- float() of a text, and of a Series, which is a number if it has one entry
  abbrev pub of_text : (String → Option F) → String → Result StrategyError F
  of_text parse s = elim (parse s) [ none ↦ err value_error | some v ↦ ok v ]

  abbrev pub of_series : Series F → Result StrategyError F
  of_series ((t, v) ∷ []) = ok v
  of_series _ = err type_error

  -- float() of any other attribute: a ValueError of score_from_result if there is none.
  abbrev pub other_attribute :
      (String → Option F) → BacktestResult F → String → Result StrategyError F
  other_attribute parse r metric =
      elim (Dict.get metric (
        ("strategy_name", of_text parse r.strategy_name)
        ∷ ("equity_curve", of_series r.equity_curve)
        ∷ ("max_drawdown_duration", err type_error)
        ∷ ("trades", err type_error)
        ∷ ("costs", err type_error)
        ∷ ("metrics_dict", err type_error)
        ∷ ("trade_records", err type_error)
        ∷ ("equity_curve_records", err type_error)
        ∷ [])) [ none ↦ err value_error | some v ↦ v ]

  unfoldable pub attribute :
      (String → Option F) → BacktestResult F → String → Result StrategyError F
  attribute parse r metric = elim (Dict.get metric (numbers_of r)) [
    | none ↦ other_attribute parse r metric
    | some v ↦ ok v
  ]

  abbrev pub value_of :
      (String → Option F) → BacktestResult F → MetricLike F → Result StrategyError F
  value_of parse r (named metric) = attribute parse r metric
  value_of parse r (composite f) = f r

  unfoldable pub score_from_result :
      Numpy F → (String → Option F) → BacktestResult F → MetricLike F → Result StrategyError F
  score_from_result np parse r metric = do
    value ← value_of parse r metric
    ok (if is_nan value then worst_score np else value)
