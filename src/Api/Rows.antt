-- ===== src/Api/Rows.antt =====
-- The tables of strategies, jobs and results (freqpanda_api/repositories), as lists of rows in the
-- order of insertion. The constraints are those of migrations/0002_create_api_tables.sql.
use freqpanda.Prelude.{ℕ, String, Option, List, [], ◌∷◌, leb, if◌then◌else◌}
use freqpanda.Prelude.Json.{Json}
use freqpanda.Strategy.Schema.{StrategyDefinition}

pub record StrategyRecord (F : Type 0) : Type 0 where
  pub id : String
  pub name : String
  pub definition : StrategyDefinition F
  pub created_by : String
  pub created_at : ℕ
  pub updated_at : ℕ

pub data JobType : Type 0 where
  backtest_job optimization_job : JobType

pub data JobStatus : Type 0 where
  pending running completed failed : JobStatus

-- What an optimization request adds to a backtest request; periods are in milliseconds.
pub record OptimizationFields (F : Type 0) : Type 0 where
  pub train_period : ℕ
  pub test_period : ℕ
  pub metric : String
  pub n_trials : ℕ
  pub timeout_seconds : Option F

-- The payload of a job: the fields of the request that it was made from.
pub record JobPayload (F : Type 0) : Type 0 where
  pub exchange : String
  pub symbol : String
  pub timeframe : String
  pub start : Option ℕ
  pub end : Option ℕ
  pub initial_capital : F
  pub fee_pct : F
  pub slippage_pct : F
  pub optimization : Option (OptimizationFields F)

pub record JobRecord (F : Type 0) : Type 0 where
  pub id : String
  pub job_type : JobType
  pub status : JobStatus
  pub strategy_id : String
  pub payload : JobPayload F
  pub error : Option String
  pub created_by : String
  pub created_at : ℕ
  pub started_at : Option ℕ
  pub finished_at : Option ℕ

pub record BacktestRow (F : Type 0) : Type 0 where
  pub job_id : String
  pub strategy_id : String
  pub metrics : Json F
  pub trades : Json F
  pub equity_curve : Json F
  pub created_at : ℕ

pub record OptimizationRow (F : Type 0) : Type 0 where
  pub job_id : String
  pub strategy_id : String
  pub metric : String
  pub windows : Json F
  pub mean_in_sample_score : F
  pub mean_out_of_sample_score : F
  pub final_params : Json F
  pub final_definition : Json F
  pub created_at : ℕ

pub record Store (F : Type 0) : Type 0 where
  pub strategies : List (StrategyRecord F)
  pub jobs : List (JobRecord F)
  pub backtest_results : List (BacktestRow F)
  pub optimization_results : List (OptimizationRow F)

-- order by created_at desc
module _ {ℓ} {A : Type ℓ} (created_at : A → ℕ) where
  unfoldable pub newest_into : A → List A → List A
  newest_into row [] = row ∷ []
  newest_into row (x ∷ xs) =
      let later = x ∷ newest_into row xs in
      if leb (created_at row) (created_at x) then later else row ∷ x ∷ xs

  unfoldable pub newest_first : List A → List A
  unfolding newest_into
  newest_first [] = []
  newest_first (x ∷ xs) = newest_into x (newest_first xs)
