-- ===== src/Examples/Jobs.antt =====
-- A backtest job over stored candles, and a document with a number that is not finite.
use freqpanda.Prelude.{ℕ, ◌≡◌, ◌⊎◌, ◌↔◌, refl, Bool, none, some, [], ◌∷◌}
use freqpanda.Prelude.Json.{Json, null, float, object, field, no_fields, array, item, no_items}
use freqpanda.Prelude.Dict.{get}
use freqpanda.Prelude.Fixed.{Fixed, fixed_float, bp}
use freqpanda.Data.Store.{StoredCandle, fetch_ohlcv_dataframe, same_series}
use freqpanda.Strategy.Indicators.{column_of, indicator_registry, sma}
use freqpanda.Strategy.Schema.{contains}
use freqpanda.Strategy.Validation.{
  validate_definition, problems, available_columns, indicator_columns, indicator_problems,
  operand_refs, without,
}
use freqpanda.Strategy.Conditions.{evaluate_condition, resolve_operand, apply_op}
use freqpanda.Strategy.Interpreter.{
  missing, run_strategy, compute_indicators, signals_of, run_loop, step, assign,
}
use freqpanda.Backtest.Costs.{entry_fill_price, exit_fill_price}
use freqpanda.Backtest.Equity.{apply_costs_to_trades, build_equity_curve}
use freqpanda.Backtest.Metrics.{
  compute_drawdown, compute_trade_stats, compute_return_ratios, infer_periods_per_year,
}
use freqpanda.Backtest.Engine.{backtest}
use freqpanda.Execution.Feed.{frame_of}
use freqpanda.Api.Rows.{JobRecord, Store, backtest_job, pending, running, completed}
use freqpanda.Api.Strategies.{get_strategy}
use freqpanda.Api.Jobs.{get_job_unscoped, mark_running, mark_completed}
use freqpanda.Api.Results.{json_safe, save_backtest_result}
use freqpanda.Api.Results.Finite.{IsFinite, json_safe-IsFinite}
use freqpanda.Api.Tasks.{Worker, run_backtest_job, compute_backtest, load_ohlcv, backtest_kwargs}
use freqpanda.Api.Tasks.Outcome.{IsCompleted, IsFailed, run_backtest_job-ends}
use freqpanda.Examples.Sample.{whole, dip}
use freqpanda.Examples.Backtesting.{sample_libraries}
use freqpanda.Examples.Optimize.{no_text}
use freqpanda.Examples.Folds.{one_trial}

abbrev candle_at : ℕ → (first high low close : ℕ) → StoredCandle Fixed
candle_at time first high low close = record {
  series = record { exchange = "binance"; symbol = "BTC/USDT"; timeframe = "1h" };
  candle = record {
    time = time;
    open_price = whole first;
    high = whole high;
    low = whole low;
    close = whole close;
    volume = whole 1;
  };
}

abbrev pub sample_worker : Worker Fixed
sample_worker = record {
  lib = sample_libraries;
  study = one_trial;
  parse = no_text;
  isoformat = λ t. "";
  message = λ e. "failed";
  dump = λ d. null;
  candles =
      candle_at 1000 98 100 98 99
      ∷ candle_at 2000 99 102 100 101
      ∷ candle_at 3000 101 112 105 110
      ∷ candle_at 4000 110 95 85 90
      ∷ [];
}

abbrev pub waiting : JobRecord Fixed
waiting = record {
  id = "job_1";
  job_type = backtest_job;
  status = pending;
  strategy_id = "strat_1";
  payload = record {
    exchange = "binance";
    symbol = "BTC/USDT";
    timeframe = "1h";
    start = none;
    end = none;
    initial_capital = whole 1000;
    fee_pct = bp 10;
    slippage_pct = bp 20;
    optimization = none;
  };
  error = none;
  created_by = "alice";
  created_at = 10;
  started_at = none;
  finished_at = none;
}

abbrev store : Store Fixed
store = record {
  strategies =
      record {
        id = "strat_1";
        name = "dip";
        definition = dip;
        created_by = "alice";
        created_at = 5;
        updated_at = 5;
      }
      ∷ [];
  jobs = waiting ∷ [];
  backtest_results = [];
  optimization_results = [];
}

abbrev started : JobRecord Fixed
started = record waiting { status = running; started_at = some 20 }

abbrev pub nothing_else : Store Fixed → Store Fixed
nothing_else db = db

run_backtest_job-ends_example :
    let begun = mark_running "job_1" 20 store in
    let out = run_backtest_job sample_worker nothing_else "job_1" 20 30 store in
    IsCompleted sample_worker "job_1" 30 waiting started begun begun out
    ⊎ IsFailed sample_worker "job_1" 30 waiting started begun begun out
unfolding get_job_unscoped mark_running
run_backtest_job-ends_example =
    run_backtest_job-ends sample_worker nothing_else "job_1" 20 30 store waiting started refl refl

-- The job completes.
run_backtest_job_test :
    get_job_unscoped (run_backtest_job sample_worker nothing_else "job_1" 20 30 store).1 "job_1"
    ≡ some (record started { status = completed; finished_at = some 30 })
unfolding run_backtest_job get_job_unscoped mark_running mark_completed compute_backtest
    get_strategy load_ohlcv backtest_kwargs fetch_ohlcv_dataframe same_series frame_of
    save_backtest_result backtest run_strategy validate_definition problems available_columns
    indicator_columns indicator_problems operand_refs without contains missing get
    indicator_registry compute_indicators assign signals_of evaluate_condition resolve_operand
    apply_op column_of run_loop step apply_costs_to_trades build_equity_curve compute_drawdown
    compute_trade_stats compute_return_ratios infer_periods_per_year sma entry_fill_price
    exit_fill_price
run_backtest_job_test = refl

-- Numbers up to 100 are finite here.
abbrev up_to_hundred : Fixed → Bool
up_to_hundred x = fixed_float.le x (whole 100)

abbrev document : Json Fixed
document = object (
    field "profit_factor" (float (whole 500))
      (field "scores" (array (item (float (whole 3)) no_items)) no_fields))

json_safe-IsFinite_example :
    IsFinite up_to_hundred (json_safe up_to_hundred document)
    × ((json_safe up_to_hundred document ≡ document) ↔ IsFinite up_to_hundred document)
json_safe-IsFinite_example = json_safe-IsFinite up_to_hundred document
