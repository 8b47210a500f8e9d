-- ===== src/Api/Results.antt =====
-- freqpanda_api/repositories/results.py
pub mod Finite
use freqpanda.Prelude.{
  ℕ, String, Bool, true, false, not, ◌&&◌, ◌||◌, Option, none, some, List, [], ◌∷◌, ◌++◌, map,
  str_eq, if◌then◌else◌,
}
use freqpanda.Prelude.Result.{Result, ok, err}
use freqpanda.Prelude.Json.{
  Json, Items, Fields, null, text, int, float, array, object, no_items, item, no_fields, field,
  fields_of,
}
use freqpanda.Prelude.Float.{Float}
use freqpanda.Backtest.Engine.{BacktestResult, metrics_dict, trade_records, equity_curve_records}
use freqpanda.Execution.Repository.{select, first, is_none_of}
use freqpanda.Api.Rows.{
  JobRecord, JobStatus, JobType, backtest_job, optimization_job, BacktestRow, OptimizationRow,
  Store,
}
use freqpanda.Api.Jobs.{list_jobs}

-- _json_safe; `is_finite` is math.isfinite.
module _ {F : Type 0} (is_finite : F → Bool) where
  unfoldable mutual
    pub json_safe : Json F → Json F
    json_safe null = null
    json_safe (text s) = text s
    json_safe (int n) = int n
    json_safe (float x) = if is_finite x then float x else null
    json_safe (array js) = array (json_safe_items js)
    json_safe (object fs) = object (json_safe_fields fs)

    pub json_safe_items : Items F → Items F
    json_safe_items no_items = no_items
    json_safe_items (item j js) = item (json_safe j) (json_safe_items js)

    pub json_safe_fields : Fields F → Fields F
    json_safe_fields no_fields = no_fields
    json_safe_fields (field k j fs) = field k (json_safe j) (json_safe_fields fs)

module _ {F : Type 0} where
  -- insert … on conflict (job_id) do update set …
  unfoldable pub upsert_row : BacktestRow F → List (BacktestRow F) → List (BacktestRow F)
  upsert_row row [] = row ∷ []
  upsert_row row (old ∷ rows) =
      let rest = upsert_row row rows in
      let changed = record old {
        metrics = row.metrics;
        trades = row.trades;
        equity_curve = row.equity_curve;
      } in
      if str_eq old.job_id row.job_id then changed ∷ rows else old ∷ rest

  unfoldable pub upsert_optimization :
      OptimizationRow F → List (OptimizationRow F) → List (OptimizationRow F)
  upsert_optimization row [] = row ∷ []
  upsert_optimization row (old ∷ rows) =
      let rest = upsert_optimization row rows in
      let changed = record row { strategy_id = old.strategy_id; created_at = old.created_at } in
      if str_eq old.job_id row.job_id then changed ∷ rows else old ∷ rest

  -- references jobs(id) and strategies(id)
  abbrev pub refers : String → String → Store F → Bool
  refers job_id strategy_id db =
      not (is_none_of (select (λ row. str_eq row.id job_id) db.jobs))
      && not (is_none_of (select (λ row. str_eq row.id strategy_id) db.strategies))

  unfoldable pub get_backtest_result : Store F → String → Option (BacktestRow F)
  get_backtest_result db job_id =
      first (select (λ row. str_eq row.job_id job_id) db.backtest_results)

  unfoldable pub get_optimization_result : Store F → String → Option (OptimizationRow F)
  get_optimization_result db job_id =
      first (select (λ row. str_eq row.job_id job_id) db.optimization_results)

  -- `none` is a violated reference, and nothing is written.
  unfoldable pub save_optimization_result :
      (F → Bool) → OptimizationRow F → Store F → Option (Store F)
  unfolding json_safe json_safe_items json_safe_fields
  save_optimization_result is_finite row db =
      let safe = record row {
        windows = json_safe is_finite row.windows;
        final_params = json_safe is_finite row.final_params;
        final_definition = json_safe is_finite row.final_definition;
      } in
      if refers row.job_id row.strategy_id db
      then some
          (record db { optimization_results = upsert_optimization safe db.optimization_results })
      else none

  -- The rows of a left join of jobs and results.
  unfoldable pub list_backtest_summaries :
      Store F → String → String → List (JobRecord F × Option (Json F))
  list_backtest_summaries db strategy_id created_by =
      map
        (λ job.
          (job, elim (get_backtest_result db job.id) [ none ↦ none | some r ↦ some r.metrics ]))
        (list_jobs db strategy_id backtest_job created_by)

  unfoldable pub list_optimization_summaries :
      Store F → String → String → List (JobRecord F × Option (F × F))
  list_optimization_summaries db strategy_id created_by =
      map
        (λ job. (
          job,
          elim (get_optimization_result db job.id) [
            | none ↦ none
            | some r ↦ some (r.mean_in_sample_score, r.mean_out_of_sample_score)
          ],
        ))
        (list_jobs db strategy_id optimization_job created_by)

module _ {F : Type 0} ⦃fl : Float F⦄ (is_finite : F → Bool) (isoformat : ℕ → String) where
  abbrev pub backtest_row : String → String → ℕ → BacktestResult F → BacktestRow F
  backtest_row job_id strategy_id now result = record {
    job_id = job_id;
    strategy_id = strategy_id;
    metrics = json_safe is_finite (object (fields_of (metrics_dict result)));
    trades = json_safe is_finite (trade_records isoformat result);
    equity_curve = json_safe is_finite (equity_curve_records isoformat result);
    created_at = now;
  }

  -- `none` is a violated reference, and nothing is written.
  unfoldable pub save_backtest_result :
      String → String → ℕ → BacktestResult F → Store F → Option (Store F)
  save_backtest_result job_id strategy_id now result db =
      if refers job_id strategy_id db
      then some (record db {
        backtest_results =
            upsert_row (backtest_row job_id strategy_id now result) db.backtest_results;
      })
      else none
