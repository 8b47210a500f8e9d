-- ===== src/Examples/Backtesting.antt =====
-- A whole backtest of the sample strategy, and the drawdown of a sample curve.
use freqpanda.Prelude.{ℕ, ◌⊎◌, ◌≡◌, refl, some, List, [], ◌∷◌, arith}
use freqpanda.Prelude.Result.{ok, err}
use freqpanda.Prelude.Dict.{get}
use freqpanda.Prelude.Fixed.{Fixed, fixed_float, Fixed-IsOrdered, bp}
use freqpanda.Strategy.Schema.{check_definition, contains, alias_is_identifier}
use freqpanda.Strategy.Indicators.{indicator_registry}
use freqpanda.Strategy.Validation.{
  validate_definition, problems, available_columns, indicator_columns, indicator_problems,
  operand_refs, without,
}
use freqpanda.Strategy.Interpreter.{Trade, run_strategy, missing}
use freqpanda.Backtest.Metrics.{no_time, Numpy, Series, DrawdownInfo, compute_drawdown}
use freqpanda.Backtest.Metrics.Drawdown.{IsDrawdown, compute_drawdown_lem}
use freqpanda.Backtest.Engine.{Libraries, BacktestKwargs, BacktestResult, backtest}
use freqpanda.Backtest.Engine.Accounts.{Accounts, Numberless, backtest_lem}
use freqpanda.Examples.Sample.{whole, plain, plain-KeepsLength, candles, dip}

-- Statistics that need no roots: sums and means are the first value.
abbrev head_or_nought : List Fixed → Fixed
head_or_nought [] = whole 0
head_or_nought (x ∷ xs) = x

abbrev pub sample_np : Numpy Fixed
sample_np = record {
  infinity = whole 1_000_000;
  negate = fixed_float.sub (whole 0);
  sqrt = λ x. x;
  sum = head_or_nought;
  mean = head_or_nought;
  std = head_or_nought;
  median = λ ts. whole 1;
  is_finite = λ x. fixed_float.le x x;
}

abbrev pub sample_libraries : Libraries Fixed
sample_libraries = record { ta = plain; np = sample_np; blank = λ i. whole 7 }

abbrev pub sample_kwargs : BacktestKwargs Fixed
sample_kwargs = record {
  initial_capital = whole 1000;
  fee_pct = bp 10;
  slippage_pct = bp 20;
  risk_free_rate = whole 0;
}

abbrev dipping : Series Fixed
dipping = (2, whole 120) ∷ (3, whole 90) ∷ (4, whole 130) ∷ []

-- The peak is at 2, the trough at 3, and it is recovered at 4.
compute_drawdown_test :
    compute_drawdown sample_np ((1, whole 100) ∷ dipping)
    ≡ ok (record {
      max_drawdown_pct = bp 2500;
      peak_time = some 2;
      trough_time = some 3;
      recovery_time = some 4;
      duration = 2;
    })
unfolding compute_drawdown
compute_drawdown_test = refl

compute_drawdown_lem_example :
    (info : DrawdownInfo Fixed) × (compute_drawdown sample_np ((1, whole 100) ∷ dipping) ≡ ok info)
    × ((trough : ℕ) × (low : Fixed) × (peak : ℕ) × (high : Fixed) × IsDrawdown sample_np 1
          (whole 100)
          dipping
          info
          trough
          low
          peak
          high)
compute_drawdown_lem_example =
    compute_drawdown_lem sample_np 1 (whole 100) dipping Fixed-IsOrdered (omega arith)
      (refl, (refl, (refl, (refl, tt)))) refl

backtest_lem_example :
    (trades : List (Trade Fixed)) × (run_strategy plain dip candles ≡ ok trades)
    × (((r : BacktestResult Fixed) × (backtest sample_libraries dip candles sample_kwargs ≡ ok r)
          × Accounts candles sample_kwargs trades r)
        ⊎ ((backtest sample_libraries dip candles sample_kwargs ≡ err no_time)
            × Numberless candles sample_kwargs trades))
unfolding check_definition validate_definition problems available_columns indicator_columns
    indicator_problems operand_refs without contains missing alias_is_identifier get
    indicator_registry
backtest_lem_example =
    backtest_lem sample_libraries dip candles sample_kwargs plain-KeepsLength
      (refl, (refl, (refl, (refl, (refl, tt))))) (omega arith) refl refl refl (refl, tt)
