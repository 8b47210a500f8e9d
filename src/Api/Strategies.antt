-- ===== src/Api/Strategies.antt =====
-- freqpanda_api/repositories/strategies.py and routers/strategies.py. Ids and the time are given, and
-- a stored definition is read back as it was written.
pub mod Tenants
use freqpanda.Prelude.{
  ℕ, String, Bool, true, false, not, ◌&&◌, ◌||◌, Option, none, some, List, [], ◌∷◌, ◌++◌, map,
  str_eq, if◌then◌else◌,
}
use freqpanda.Prelude.Result.{Result, ok, err}
use freqpanda.Prelude.Float.{Float}
use freqpanda.Strategy.Schema.{StrategyDefinition, check_definition}
use freqpanda.Strategy.Indicators.{Ta}
use freqpanda.Strategy.Validation.{validate_definition}
use freqpanda.Execution.Repository.{select, first, is_none_of, update, updated}
use freqpanda.Api.Bots.{HttpError, not_found, unprocessable, server_error}
use freqpanda.Api.Rows.{StrategyRecord, JobRecord, Store, newest_first}

-- StrategyResponse
pub record StrategyResponse (F : Type 0) : Type 0 where
  pub id : String
  pub name : String
  pub definition : StrategyDefinition F
  pub created_at : ℕ
  pub updated_at : ℕ

module _ {F : Type 0} where
  -- where id = … and created_by = …
  abbrev pub owned : String → String → StrategyRecord F → Bool
  owned strategy_id created_by row = str_eq row.id strategy_id && str_eq row.created_by created_by

  -- unique (created_by, name), of a row other than `id`
  abbrev pub same_name : String → String → String → StrategyRecord F → Bool
  same_name id created_by name row =
      not (str_eq row.id id) && str_eq row.created_by created_by && str_eq row.name name

  unfoldable pub strategy_to_response : StrategyRecord F → StrategyResponse F
  strategy_to_response record_ = record {
    id = record_.id;
    name = record_.name;
    definition = record_.definition;
    created_at = record_.created_at;
    updated_at = record_.updated_at;
  }

  abbrev pub new_strategy : String → String → ℕ → StrategyDefinition F → StrategyRecord F
  new_strategy id created_by now definition = record {
    id = id;
    name = definition.name;
    definition = definition;
    created_by = created_by;
    created_at = now;
    updated_at = now;
  }

  -- `none` is a violation of the unique name.
  unfoldable pub insert_strategy :
      String → String → ℕ → StrategyDefinition F → Store F → Option (StrategyRecord F) × Store F
  insert_strategy id created_by now definition db =
      let row = new_strategy id created_by now definition in
      if is_none_of (select (same_name id created_by definition.name) db.strategies)
      then (some row, record db { strategies = db.strategies ++ (row ∷ []) })
      else (none, db)

  unfoldable pub get_strategy : Store F → String → String → Option (StrategyRecord F)
  get_strategy db strategy_id created_by =
      first (select (owned strategy_id created_by) db.strategies)

  unfoldable pub list_strategies : Store F → String → List (StrategyRecord F)
  list_strategies db created_by =
      newest_first (λ row. row.created_at)
        (select (λ row. str_eq row.created_by created_by) db.strategies)

  -- An update that finds no row changes none, and breaks no constraint; `err` is a violation.
  unfoldable pub update_strategy :
      String
      → String
      → ℕ
      → StrategyDefinition F
      → Store F
      → Result (Unit {0}) (Option (StrategyRecord F)) × Store F
  update_strategy id created_by now definition db =
      let set = λ (row : StrategyRecord F). record row {
        name = definition.name;
        definition = definition;
        updated_at = now;
      } in
      let found = updated (owned id created_by) set db.strategies in
      if is_none_of found
        || is_none_of (select (same_name id created_by definition.name) db.strategies)
      then (
        ok (first found),
        record db { strategies = update (owned id created_by) set db.strategies },
      )
      else (err tt, db)

  -- The results that go with a strategy: its own, and those of its jobs (on delete cascade).
  abbrev pub goes : Store F → String → (job_id strategy_id : String) → Bool
  goes db id job_id strategy_id =
      str_eq strategy_id id
      || not (
          is_none_of (
            select (λ (job : JobRecord F). str_eq job.strategy_id id && str_eq job.id job_id)
              db.jobs))

  -- The rows of bots, which are kept apart, go with their strategy too.
  unfoldable pub delete_strategy : String → String → Store F → Bool × Store F
  delete_strategy id created_by db =
      if is_none_of (select (owned id created_by) db.strategies) then (false, db) else (
        true,
        record {
          strategies = select (λ row. not (owned id created_by row)) db.strategies;
          jobs = select (λ row. not (str_eq row.strategy_id id)) db.jobs;
          backtest_results =
              select (λ row. not (goes db id row.job_id row.strategy_id)) db.backtest_results;
          optimization_results =
              select (λ row. not (goes db id row.job_id row.strategy_id)) db.optimization_results;
        },
      )

module _ {F : Type 0} ⦃fl : Float F⦄ (ta : Ta F) where
  -- What FastAPI's parsing checks, and validate_definition, whose error is answered with a 422.
  abbrev pub is_acceptable : StrategyDefinition F → Bool
  is_acceptable definition =
      check_definition definition
      && elim (validate_definition ta definition) [ ok u ↦ true | err e ↦ false ]

  abbrev pub after_insert :
      Option (StrategyRecord F) × Store F → Result HttpError (StrategyResponse F) × Store F
  after_insert (none, db) = (err server_error, db)
  after_insert (some row, db) = (ok (strategy_to_response row), db)

  abbrev pub after_update :
      Result (Unit {0}) (Option (StrategyRecord F)) × Store F
      → Result HttpError (StrategyResponse F) × Store F
  after_update (err e, db) = (err server_error, db)
  after_update (ok none, db) = (err not_found, db)
  after_update (ok (some row), db) = (ok (strategy_to_response row), db)

  unfoldable pub post_strategy :
      String
      → String
      → ℕ
      → StrategyDefinition F
      → Store F
      → Result HttpError (StrategyResponse F) × Store F
  unfolding strategy_to_response
  post_strategy id created_by now definition db =
      if is_acceptable definition
      then after_insert (insert_strategy id created_by now definition db)
      else (err unprocessable, db)

  unfoldable pub put_strategy :
      String
      → String
      → ℕ
      → StrategyDefinition F
      → Store F
      → Result HttpError (StrategyResponse F) × Store F
  unfolding strategy_to_response
  put_strategy id created_by now definition db =
      if is_acceptable definition
      then after_update (update_strategy id created_by now definition db)
      else (err unprocessable, db)

module _ {F : Type 0} where
  unfoldable pub read_strategy : Store F → String → String → Result HttpError (StrategyResponse F)
  unfolding strategy_to_response
  read_strategy db id created_by = elim (get_strategy db id created_by) [
    | none ↦ err not_found
    | some row ↦ ok (strategy_to_response row)
  ]

  unfoldable pub read_strategies : Store F → String → List (StrategyResponse F)
  read_strategies db created_by = map strategy_to_response (list_strategies db created_by)

  unfoldable pub remove_strategy : String → String → Store F → Result HttpError (Unit {0}) × Store F
  remove_strategy id created_by db =
      let deleted = delete_strategy id created_by db in
      (if deleted.0 then ok tt else err not_found, deleted.1)
