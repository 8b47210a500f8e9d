-- ===== src/Api/Backtests.antt =====
-- freqpanda_api/routers/backtests.py, optimizations.py and compare.py. The queue keeps the jobs to run
-- in order, each with its kind.
use freqpanda.Prelude.{
  ℕ, String, Bool, true, false, Option, none, some, List, [], ◌∷◌, ◌++◌, if◌then◌else◌,
}
use freqpanda.Prelude.Result.{Result, ok, err, ◌>>=◌}
use freqpanda.Prelude.Json.{Json}
use freqpanda.Api.Bots.{HttpError, not_found, conflict, server_error}
use freqpanda.Api.Rows.{
  JobRecord, JobType, backtest_job, optimization_job, JobStatus, completed, JobPayload,
  OptimizationRow, BacktestRow, Store,
}
use freqpanda.Api.Strategies.{get_strategy}
use freqpanda.Api.Jobs.{create_job, get_job, same_type}
use freqpanda.Api.Results.{
  get_backtest_result, get_optimization_result, list_backtest_summaries,
  list_optimization_summaries,
}

-- JobResponse
pub record JobResponse : Type 0 where
  pub id : String
  pub job_type : JobType
  pub status : JobStatus
  pub strategy_id : String
  pub error : Option String
  pub created_at : ℕ
  pub started_at : Option ℕ
  pub finished_at : Option ℕ

pub record CompareRow (F : Type 0) : Type 0 where
  pub job_id : String
  pub strategy_id : String
  pub strategy_name : String
  pub metrics : Json F

abbrev pub Queue : Type 0
Queue = List (JobType × String)

abbrev pub is_completed : JobStatus → Bool
is_completed completed = true
is_completed _ = false

module _ {F : Type 0} where
  unfoldable pub job_to_response : JobRecord F → JobResponse
  job_to_response job = record {
    id = job.id;
    job_type = job.job_type;
    status = job.status;
    strategy_id = job.strategy_id;
    error = job.error;
    created_at = job.created_at;
    started_at = job.started_at;
    finished_at = job.finished_at;
  }

  -- create_backtest and create_optimization: the row, and then the entry of the queue.
  unfoldable pub create_job_of :
      JobType
      → String
      → ℕ
      → String
      → JobPayload F
      → String
      → Store F × Queue
      → Result HttpError JobResponse × (Store F × Queue)
  unfolding job_to_response
  create_job_of kind job_id now strategy_id payload created_by (db, queue) =
      elim (get_strategy db strategy_id created_by) [
        | none ↦ (err not_found, (db, queue))
        | some strategy ↦
            let made = create_job job_id now kind strategy.id payload created_by db in
            (ok (job_to_response made.0), (made.1, queue ++ ((kind, made.0.id) ∷ [])))
      ]

  unfoldable pub list_backtests :
      Store F → String → String → Result HttpError (List (JobRecord F × Option (Json F)))
  list_backtests db strategy_id created_by = elim (get_strategy db strategy_id created_by) [
    | none ↦ err not_found
    | some strategy ↦ ok (list_backtest_summaries db strategy_id created_by)
  ]

  unfoldable pub list_optimizations :
      Store F → String → String → Result HttpError (List (JobRecord F × Option (F × F)))
  list_optimizations db strategy_id created_by = elim (get_strategy db strategy_id created_by) [
    | none ↦ err not_found
    | some strategy ↦ ok (list_optimization_summaries db strategy_id created_by)
  ]

  -- A caller's own job of a kind.
  unfoldable pub own_job : JobType → Store F → String → String → Result HttpError (JobRecord F)
  own_job kind db job_id created_by = elim (get_job db job_id created_by) [
    | none ↦ err not_found
    | some job ↦ if same_type job.job_type kind then ok job else err not_found
  ]

  unfoldable pub get_backtest :
      Store F → String → String → Result HttpError (JobResponse × Option (BacktestRow F))
  unfolding own_job job_to_response
  get_backtest db job_id created_by = do
    job ← own_job backtest_job db job_id created_by
    ok (job_to_response job, get_backtest_result db job_id)

  unfoldable pub get_optimization :
      Store F → String → String → Result HttpError (JobResponse × Option (OptimizationRow F))
  unfolding own_job job_to_response
  get_optimization db job_id created_by = do
    job ← own_job optimization_job db job_id created_by
    ok (job_to_response job, get_optimization_result db job_id)

  abbrev pub name_of : Store F → JobRecord F → String → String
  name_of db job created_by = elim (get_strategy db job.strategy_id created_by) [
    | none ↦ "(deleted)"
    | some strategy ↦ strategy.name
  ]

  -- One row; result["metrics"] of no result is a TypeError.
  unfoldable pub compare_one : Store F → String → String → Result HttpError (CompareRow F)
  unfolding own_job
  compare_one db created_by job_id = do
    job ← own_job backtest_job db job_id created_by
    (if is_completed job.status
        then elim (get_backtest_result db job_id) [
          | none ↦ err server_error
          | some result ↦ ok (record {
            job_id = job_id;
            strategy_id = job.strategy_id;
            strategy_name = name_of db job created_by;
            metrics = result.metrics;
          })
        ]
        else err conflict)

  unfoldable pub compare_backtests :
      Store F → String → List String → Result HttpError (List (CompareRow F))
  unfolding compare_one
  compare_backtests db created_by [] = ok []
  compare_backtests db created_by (job_id ∷ job_ids) = do
    row ← compare_one db created_by job_id
    rows ← compare_backtests db created_by job_ids
    ok (row ∷ rows)
