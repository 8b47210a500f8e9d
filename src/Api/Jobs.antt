-- ===== src/Api/Jobs.antt =====
-- freqpanda_api/repositories/jobs.py
use freqpanda.Prelude.{
  ℕ, String, Bool, true, false, ◌&&◌, Option, none, some, List, [], ◌∷◌, ◌++◌, str_eq,
}
use freqpanda.Execution.Repository.{select, first, update}
use freqpanda.Api.Rows.{
  JobRecord, JobType, backtest_job, optimization_job, pending, running, completed, failed,
  JobPayload, Store, newest_first,
}

abbrev pub same_type : JobType → JobType → Bool
same_type backtest_job backtest_job = true
same_type optimization_job optimization_job = true
same_type _ _ = false

module _ {F : Type 0} where
  abbrev pub has_job_id : String → JobRecord F → Bool
  has_job_id job_id row = str_eq row.id job_id

  -- The row that is inserted, with the defaults of the table.
  abbrev pub new_job : String → ℕ → JobType → String → JobPayload F → String → JobRecord F
  new_job job_id now job_type strategy_id payload created_by = record {
    id = job_id;
    job_type = job_type;
    status = pending;
    strategy_id = strategy_id;
    payload = payload;
    error = none;
    created_by = created_by;
    created_at = now;
    started_at = none;
    finished_at = none;
  }

  -- The callers have found the strategy, so the reference to it holds.
  unfoldable pub create_job :
      String → ℕ → JobType → String → JobPayload F → String → Store F → JobRecord F × Store F
  create_job job_id now job_type strategy_id payload created_by db =
      let row = new_job job_id now job_type strategy_id payload created_by in
      (row, record db { jobs = db.jobs ++ (row ∷ []) })

  unfoldable pub get_job : Store F → String → String → Option (JobRecord F)
  get_job db job_id created_by =
      first (select (λ row. has_job_id job_id row && str_eq row.created_by created_by) db.jobs)

  unfoldable pub get_job_unscoped : Store F → String → Option (JobRecord F)
  get_job_unscoped db job_id = first (select (has_job_id job_id) db.jobs)

  unfoldable pub list_jobs : Store F → String → JobType → String → List (JobRecord F)
  list_jobs db strategy_id job_type created_by =
      newest_first (λ row. row.created_at)
        (select
          (λ row.
            str_eq row.strategy_id strategy_id
            && same_type row.job_type job_type
            && str_eq row.created_by created_by)
          db.jobs)

  unfoldable pub mark_running : String → ℕ → Store F → Store F
  mark_running job_id now db = record db {
    jobs =
        update (has_job_id job_id) (λ row. record row { status = running; started_at = some now })
          db.jobs;
  }

  unfoldable pub mark_completed : String → ℕ → Store F → Store F
  mark_completed job_id now db = record db {
    jobs =
        update (has_job_id job_id)
          (λ row. record row { status = completed; finished_at = some now }) db.jobs;
  }

  unfoldable pub mark_failed : String → String → ℕ → Store F → Store F
  mark_failed job_id error now db = record db {
    jobs =
        update (has_job_id job_id)
          (λ row. record row { status = failed; error = some error; finished_at = some now })
          db.jobs;
  }
