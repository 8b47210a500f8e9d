-- ===== src/Examples/System.antt =====
-- A strategy is posted, a backtest of it asked for, taken up, saved and completed, and then compared.
use freqpanda.Prelude.{Bool, not, str_eq, ℕ, String, ◌≡◌, refl, none, some, [], ◌∷◌, inl}
use freqpanda.Prelude.Dict.{get}
use freqpanda.Prelude.Fixed.{Fixed, fixed_float}
use freqpanda.Strategy.Schema.{contains, check_definition, alias_is_identifier}
use freqpanda.Strategy.Indicators.{indicator_registry}
use freqpanda.Strategy.Validation.{
  validate_definition, problems, available_columns, indicator_columns, indicator_problems,
  operand_refs, without,
}
use freqpanda.Backtest.Engine.{BacktestResult, result_of}
use freqpanda.Api.Rows.{backtest_job, Store}
use freqpanda.Api.Auth.{require_api_key, require_api_key_lem, answer}
use freqpanda.Api.Strategies.{
  post_strategy, put_strategy, remove_strategy, insert_strategy, get_strategy,
}
use freqpanda.Api.Strategies.Tenants.{strategies_of_others, routes-others}
use freqpanda.Api.Jobs.{create_job, mark_running, mark_completed}
use freqpanda.Api.Results.{save_backtest_result}
use freqpanda.Api.Backtests.{create_job_of, compare_backtests}
use freqpanda.Api.Tasks.{run_backtest_job}
use freqpanda.Api.System.{
  Ledger, System, Steps, fresh_system, posts, asks, takes_up, saves, completes, here, next,
}
use freqpanda.Api.System.Sound.{IsSound}
use freqpanda.Api.System.Reached.{reached-IsSound}
use freqpanda.Api.System.Compared.{Answer, compare_backtests-Answers}
use freqpanda.Api.System.Worker.{Reaches, run_backtest_job-Reaches}
use freqpanda.Examples.Sample.{whole, plain, dip}
use freqpanda.Examples.Backtesting.{sample_np, sample_kwargs}
use freqpanda.Examples.Jobs.{sample_worker, waiting, nothing_else}

abbrev ledger : Ledger
ledger = record { strategy_id = λ job_id. "strat_1"; job_type = λ job_id. backtest_job }

abbrev no_time : ℕ → String
no_time t = ""

abbrev flat : BacktestResult Fixed
flat = result_of sample_np sample_kwargs "dip" [] [] [] (record {
  max_drawdown_pct = whole 0;
  peak_time = none;
  trough_time = none;
  recovery_time = none;
  duration = 0;
})

abbrev posted : System Fixed
posted = record fresh_system {
  store = (post_strategy plain "strat_1" "alice" 5 dip (fresh_system {F = Fixed}).store).1;
}

abbrev asked : System Fixed
asked = record posted {
  store =
      (create_job_of backtest_job "job_1" 10 "strat_1" waiting.payload "alice"
        (posted.store, [])).1.0;
}

abbrev taken : System Fixed
taken = record asked { store = mark_running "job_1" 20 asked.store }

to_asked : Steps plain sample_np.is_finite no_time ledger fresh_system asked
to_asked =
    next (next here (posts "strat_1" "alice" 5 dip))
      (asks "job_1" 10 "strat_1" waiting.payload "alice" [] refl refl)

saved_store :
    (db : Store Fixed) × (save_backtest_result sample_np.is_finite no_time "job_1" "strat_1" 30 flat
        taken.store
      ≡ some db)
unfolding post_strategy insert_strategy create_job_of create_job get_strategy mark_running
    save_backtest_result check_definition validate_definition problems available_columns
    indicator_columns indicator_problems operand_refs without contains get indicator_registry
    alias_is_identifier
saved_store = (_, refl)

abbrev done : System Fixed
done = record { store = mark_completed "job_1" 30 saved_store.0; saved = "job_1" ∷ [] }

to_done : Steps plain sample_np.is_finite no_time ledger fresh_system done
to_done =
    next
      (next (next to_asked (takes_up "job_1" 20))
        (saves "job_1" 30 flat saved_store.0 saved_store.1))
      (completes "job_1" 30 (inl refl))

reached-IsSound_example : IsSound ledger done
reached-IsSound_example = reached-IsSound plain sample_np.is_finite no_time ledger done to_done

compare_backtests-Answers_example :
    Answer done.store "alice"
      ("job_1" ∷ "job_2" ∷ [])
      (compare_backtests done.store "alice" ("job_1" ∷ "job_2" ∷ []))
compare_backtests-Answers_example =
    compare_backtests-Answers plain sample_np.is_finite no_time ledger done to_done "alice"
      ("job_1" ∷ "job_2" ∷ [])

run_backtest_job-Reaches_example :
    Reaches plain ledger sample_worker asked
      (run_backtest_job sample_worker nothing_else "job_1" 20 30 asked.store).1
run_backtest_job-Reaches_example =
    run_backtest_job-Reaches plain ledger sample_worker nothing_else "job_1" 20 30 asked taken
      (reached-IsSound plain sample_np.is_finite no_time ledger asked to_asked) here refl

-- A caller who has no strategies writes over the one of another.
routes-others_example :
    let others = strategies_of_others "bob" in
    (others (post_strategy plain "strat_1" "bob" 6 dip posted.store).1 ≡ others posted.store)
    × (others (put_strategy plain "strat_1" "bob" 6 dip posted.store).1 ≡ others posted.store)
    × (others (remove_strategy "strat_1" "bob" posted.store).1 ≡ others posted.store)
routes-others_example = routes-others plain "strat_1" "bob" 6 dip posted.store

abbrev ascii : String → Bool
ascii s = not (str_eq s "ü")

abbrev hashed : String → String
hashed s = "hash"

require_api_key_lem_example :
    require_api_key ascii hashed ("one" ∷ "two" ∷ []) "two"
    ≡ answer ascii hashed ("one" ∷ "two" ∷ []) "two"
require_api_key_lem_example =
    require_api_key_lem ascii hashed "one" ("two" ∷ []) "two" (refl, (refl, tt))
