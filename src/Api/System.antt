-- ===== src/Api/System.antt =====
-- The API and the workers over one database, as interleaved steps. A worker's job is several steps:
-- taken up, its result saved, then marked as completed; or taken up and marked as failed.
pub mod Tables
pub mod Sound
pub mod Reached
pub mod Compared
pub mod Worker
use freqpanda.Prelude.{
  ℕ, String, ◌≡◌, ◌⊎◌, Bool, true, false, ◌||◌, Option, some, List, [], ◌∷◌, str_eq,
}
use freqpanda.Prelude.Float.{Float}
use freqpanda.Strategy.Schema.{StrategyDefinition}
use freqpanda.Strategy.Indicators.{Ta}
use freqpanda.Backtest.Engine.{BacktestResult}
use freqpanda.Api.Rows.{JobType, backtest_job, optimization_job, JobPayload, OptimizationRow, Store}
use freqpanda.Api.Strategies.{post_strategy, put_strategy, remove_strategy}
use freqpanda.Api.Jobs.{mark_running, mark_completed, mark_failed}
use freqpanda.Api.Results.{save_backtest_result, save_optimization_result}
use freqpanda.Api.Backtests.{Queue, create_job_of}

-- The strategy and the kind that a job of an id is made with. An id is given once (ids.py).
pub record Ledger : Type 0 where
  pub strategy_id : String → String
  pub job_type : String → JobType

abbrev pub contains_id : List String → String → Bool
contains_id [] id = false
contains_id (x ∷ xs) id = str_eq x id || contains_id xs id

-- The database, and the jobs whose backtest has been saved so far, whether or not it is there still.
pub record System (F : Type 0) : Type 0 where
  pub store : Store F
  pub saved : List String

abbrev pub empty_store : {F : Type 0} → Store F
empty_store = record {
  strategies = [];
  jobs = [];
  backtest_results = [];
  optimization_results = [];
}

abbrev pub fresh_system : {F : Type 0} → System F
fresh_system = record { store = empty_store; saved = [] }

module _ {F : Type 0} ⦃fl : Float F⦄ (ta : Ta F) (is_finite : F → Bool) (isoformat : ℕ → String)
    (made : Ledger) where
  pub data Step : System F → System F → Type 0 where
    posts :
        {s : System F} (id created_by : String) (now : ℕ) (definition : StrategyDefinition F)
        → Step s (record s { store = (post_strategy ta id created_by now definition s.store).1 })
    puts :
        {s : System F} (id created_by : String) (now : ℕ) (definition : StrategyDefinition F)
        → Step s (record s { store = (put_strategy ta id created_by now definition s.store).1 })
    removes :
        {s : System F} (id created_by : String)
        → Step s (record s { store = (remove_strategy id created_by s.store).1 })
    asks :
        {s : System F} (job_id : String) (now : ℕ) (strategy_id : String) (payload : JobPayload F)
        (created_by : String) (queue : Queue)
        → made.strategy_id job_id ≡ strategy_id
        → contains_id s.saved job_id ≡ false
        → Step s (record s {
          store =
              (create_job_of
                (made.job_type job_id)
                job_id
                now
                strategy_id
                payload
                created_by
                (s.store, queue)).1.0;
        })
    takes_up :
        {s : System F} (job_id : String) (now : ℕ)
        → Step s (record s { store = mark_running job_id now s.store })
    saves :
        {s : System F} (job_id : String) (now : ℕ) (result : BacktestResult F) (db : Store F)
        → save_backtest_result is_finite isoformat job_id
            (made.strategy_id job_id)
            now
            result
            s.store
          ≡ some db
        → Step s (record { store = db; saved = job_id ∷ s.saved })
    saves_search :
        {s : System F} (row : OptimizationRow F) (db : Store F)
        → save_optimization_result is_finite row s.store ≡ some db
        → Step s (record s { store = db })
    completes :
        {s : System F} (job_id : String) (now : ℕ)
        → (contains_id s.saved job_id ≡ true) ⊎ (made.job_type job_id ≡ optimization_job)
        → Step s (record s { store = mark_completed job_id now s.store })
    fails :
        {s : System F} (job_id error : String) (now : ℕ)
        → Step s (record s { store = mark_failed job_id error now s.store })

  pub data Steps : System F → System F → Type 0 where
    here : {s : System F} → Steps s s
    next : {s t u : System F} → Steps s t → Step t u → Steps s u
