-- ===== src/Api/Tasks.antt =====
-- freqpanda_api/jobs/tasks.py: what a worker does with a job. Other processes write to the database
-- while a job computes; `during` is all that they have done by the time the job writes its result.
pub mod Outcome
use freqpanda.Prelude.{
  ℕ, suc, String, Bool, false, Option, none, some, List, [], ◌∷◌, map, get_last?, if◌then◌else◌,
}
use freqpanda.Prelude.Result.{Result, ok, err, ◌>>=◌}
use freqpanda.Prelude.Json.{Json, text, float, null, object, array, fields_of, items_of}
use freqpanda.Prelude.Float.{Float, nought}
use freqpanda.Strategy.Schema.{StrategyDefinition, is_empty}
use freqpanda.Strategy.Indicators.{Frame, StrategyError}
use freqpanda.Backtest.Engine.{Libraries, BacktestKwargs, BacktestResult, backtest, metrics_dict}
use freqpanda.Backtest.Walkforward.{WalkForwardWindow, Split}
use freqpanda.Optimize.Scoring.{named}
use freqpanda.Optimize.Study.{
  Study, Search, WindowOptimizationResult, OptimizationResult, optimize, refit_on_full_history,
  in_sample_score, out_of_sample_score, mean_in_sample_score, mean_out_of_sample_score,
}
use freqpanda.Data.Store.{StoredCandle, fetch_ohlcv_dataframe}
use freqpanda.Execution.Feed.{frame_of}
use freqpanda.Api.Rows.{
  JobRecord, JobPayload, OptimizationFields, OptimizationRow, Store, StrategyRecord,
}
use freqpanda.Api.Strategies.{get_strategy}
use freqpanda.Api.Jobs.{get_job_unscoped, mark_running, mark_completed, mark_failed}
use freqpanda.Api.Results.{save_backtest_result, save_optimization_result}

-- The exceptions of a job. `no_fuel` is a split with more windows than its fuel.
pub data JobError : Type 0 where
  strategy_not_found no_data missing_key integrity_error no_fuel : JobError
  raised : StrategyError → JobError

abbrev pub lift_error : {A : Type 0} → Result StrategyError A → Result JobError A
lift_error (ok a) = ok a
lift_error (err e) = err (raised e)

-- What a worker computes with: the libraries, isoformat, str(exc), pydantic's model_dump, and the
-- candles that are stored.
pub record Worker (F : Type 0) : Type 0 where
  pub lib : Libraries F
  pub study : Study F
  pub parse : String → Option F
  pub isoformat : ℕ → String
  pub message : JobError → String
  pub dump : StrategyDefinition F → Json F
  pub candles : List (StoredCandle F)

module _ {F : Type 0} ⦃fl : Float F⦄ (w : Worker F) where
  unfoldable pub load_ohlcv : JobPayload F → Result JobError (Frame F)
  load_ohlcv payload =
      let candles =
        fetch_ohlcv_dataframe
          (record {
            exchange = payload.exchange;
            symbol = payload.symbol;
            timeframe = payload.timeframe;
          })
          payload.start payload.end w.candles in
      if is_empty candles then err no_data else ok (frame_of candles)

  unfoldable pub backtest_kwargs : JobPayload F → BacktestKwargs F
  backtest_kwargs payload = record {
    initial_capital = payload.initial_capital;
    fee_pct = payload.fee_pct;
    slippage_pct = payload.slippage_pct;
    risk_free_rate = nought;
  }

  -- The strategy of a job, read as its owner reads it.
  abbrev pub strategy_of : JobRecord F → Store F → Result JobError (StrategyRecord F)
  strategy_of job db = elim (get_strategy db job.strategy_id job.created_by) [
    | none ↦ err strategy_not_found
    | some strategy ↦ ok strategy
  ]

  abbrev pub or_integrity_error : Option (Store F) → Result JobError (Store F)
  or_integrity_error none = err integrity_error
  or_integrity_error (some db) = ok db

  -- The handler: a failure is rolled back, recorded and raised again.
  abbrev pub finish_job :
      String → ℕ → Store F → Result JobError (Store F) → Result JobError (Unit {0}) × Store F
  finish_job job_id now later (ok saved) = (ok tt, mark_completed job_id now saved)
  finish_job job_id now later (err e) = (err e, mark_failed job_id (w.message e) now later)

  -- The body of the `try`, up to the save.
  unfoldable pub compute_backtest :
      JobRecord F → Store F → Result JobError (String × BacktestResult F)
  unfolding load_ohlcv backtest_kwargs
  compute_backtest job db = do
    strategy ← strategy_of job db
    df ← load_ohlcv job.payload
    result ← lift_error (backtest w.lib strategy.definition df (backtest_kwargs job.payload))
    ok (strategy.id, result)

  unfoldable pub run_backtest_job :
      (during : Store F → Store F)
      → String
      → (started finished : ℕ) → Store F
      → Result JobError (Unit {0}) × Store F
  unfolding compute_backtest
  run_backtest_job during job_id started finished db = elim (get_job_unscoped db job_id) [
    | none ↦ (ok tt, db)
    | some job ↦
        let running = mark_running job_id started db in
        let later = during running in
        finish_job job_id finished later (
          compute_backtest job running >>= λ computed. or_integrity_error (
            save_backtest_result w.lib.np.is_finite w.isoformat job_id computed.0 finished
              computed.1 later))
  ]

  abbrev time_or_null : Option WalkForwardWindow → (WalkForwardWindow → ℕ) → Json F
  time_or_null none f = null
  time_or_null (some window) f = text (w.isoformat (f window))

  abbrev params_json : List (String × F) → Json F
  params_json params = object (fields_of (map (λ p. (p.0, float p.1)) params))

  unfoldable pub window_to_dict : WindowOptimizationResult F → Result StrategyError (Json F)
  window_to_dict r = do
    in_sample ← in_sample_score w.lib w.parse w.study r
    out_of_sample ← out_of_sample_score w.lib w.parse w.study r
    ok (
        object (
          fields_of (
            ("train_start", time_or_null r.window (λ v. v.train_start))
            ∷ ("train_end", time_or_null r.window (λ v. v.train_end))
            ∷ ("test_start", time_or_null r.window (λ v. v.test_start))
            ∷ ("test_end", time_or_null r.window (λ v. v.test_end))
            ∷ ("best_params", params_json r.best_params)
            ∷ ("in_sample_score", float in_sample)
            ∷ ("out_of_sample_score", float out_of_sample)
            ∷ ("in_sample_metrics", object (fields_of (metrics_dict r.in_sample_result)))
            ∷ ("out_of_sample_metrics", object (fields_of (metrics_dict r.out_of_sample_result)))
            ∷ [])))

  unfoldable pub windows_to_dicts :
      List (WindowOptimizationResult F) → Result StrategyError (List (Json F))
  unfolding window_to_dict
  windows_to_dicts [] = ok []
  windows_to_dicts (r ∷ rs) = do
    first ← window_to_dict r
    rest ← windows_to_dicts rs
    ok (first ∷ rest)

  abbrev pub optimization_of :
      Option (OptimizationFields F) → Result JobError (OptimizationFields F)
  optimization_of none = err missing_key
  optimization_of (some fields) = ok fields

  -- Fuel for two rounds more than the last timestamp.
  abbrev pub fuel_for : Frame F → ℕ
  fuel_for df = elim (get_last? df.index) [ none ↦ 0 | some last ↦ suc (suc last) ]

  abbrev with_fuel : {A : Type 0} → Option (Result StrategyError A) → Result JobError A
  with_fuel none = err no_fuel
  with_fuel (some m) = lift_error m

  unfoldable pub compute_optimization :
      JobRecord F → ℕ → Store F → Result JobError (OptimizationRow F)
  unfolding load_ohlcv backtest_kwargs windows_to_dicts
  compute_optimization job now db = do
    strategy ← strategy_of job db
    df ← load_ohlcv job.payload
    fields ← optimization_of job.payload.optimization
    let search : Search F = record {
      metric = named fields.metric;
      n_trials = fields.n_trials;
      timeout = fields.timeout_seconds;
      backtest_kwargs = backtest_kwargs job.payload;
    }
    let split : Split = record {
      train_period = fields.train_period;
      test_period = fields.test_period;
      step = none;
      anchored = false;
    }
    found ←
        with_fuel (optimize w.lib w.parse w.study split (fuel_for df) strategy.definition search df)
    final ← lift_error (refit_on_full_history w.lib w.parse w.study strategy.definition search df)
    windows ← lift_error (windows_to_dicts found.windows)
    mean_in_sample ← lift_error (mean_in_sample_score w.lib w.parse w.study found)
    mean_out_of_sample ← lift_error (mean_out_of_sample_score w.lib w.parse w.study found)
    ok (record {
      job_id = job.id;
      strategy_id = strategy.id;
      metric = fields.metric;
      windows = array (items_of windows);
      mean_in_sample_score = mean_in_sample;
      mean_out_of_sample_score = mean_out_of_sample;
      final_params = params_json final.best_params;
      final_definition = w.dump final.best_definition;
      created_at = now;
    })

  unfoldable pub run_optimization_job :
      (during : Store F → Store F)
      → String
      → (started finished : ℕ) → Store F
      → Result JobError (Unit {0}) × Store F
  unfolding compute_optimization
  run_optimization_job during job_id started finished db = elim (get_job_unscoped db job_id) [
    | none ↦ (ok tt, db)
    | some job ↦
        let running = mark_running job_id started db in
        let later = during running in
        finish_job job_id finished later (
          compute_optimization job finished running >>= λ row.
          or_integrity_error (save_optimization_result w.lib.np.is_finite row later))
  ]
