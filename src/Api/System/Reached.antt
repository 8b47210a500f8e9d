-- ===== src/Api/System/Reached.antt =====
-- The invariant of the database holds after any steps.
use freqpanda.Prelude.{ℕ, String, ◌≡◌, refl, subst, inl, inr, Bool, false, some, ◌∷◌, eq_iff, arith}
use freqpanda.Prelude.Float.{Float}
use freqpanda.Strategy.Schema.{StrategyDefinition}
use freqpanda.Strategy.Indicators.{Ta}
use freqpanda.Execution.Repository.{select, first}
use freqpanda.Api.Rows.{Store, JobPayload, OptimizationRow}
use freqpanda.Api.Strategies.{
  post_strategy, put_strategy, remove_strategy, insert_strategy, update_strategy, get_strategy,
  owned,
}
use freqpanda.Api.Jobs.{new_job, create_job}
use freqpanda.Api.Results.{save_backtest_result, save_optimization_result, backtest_row}
use freqpanda.Backtest.Engine.{BacktestResult}
use freqpanda.Api.Backtests.{Queue, create_job_of}
use freqpanda.Api.System.{
  Ledger, System, Step, Steps, contains_id, posts, puts, removes, asks, takes_up, saves,
  saves_search, completes, fails, here, next, fresh_system,
}
use freqpanda.Api.System.Tables.{Option-cases, found_holds}
use freqpanda.Api.System.Sound.{
  IsSound, same_jobs, mark_running-IsSound, mark_failed-IsSound, mark_completed-IsSound,
  save-IsSound, remove-IsSound, create-IsSound,
}

module _ {F : Type 0} ⦃fl : Float F⦄ (ta : Ta F) (is_finite : F → Bool) (isoformat : ℕ → String)
    (made : Ledger) where
  -- Writes to strategies that leave the other tables as they are.
  post-jobs :
      (id created_by : String) (now : ℕ) (d : StrategyDefinition F) (db : Store F)
      → ((post_strategy ta id created_by now d db).1.jobs ≡ db.jobs)
        × ((post_strategy ta id created_by now d db).1.backtest_results ≡ db.backtest_results)
  unfolding post_strategy insert_strategy
  post-jobs id created_by now d db = ground arith

  put-jobs :
      (id created_by : String) (now : ℕ) (d : StrategyDefinition F) (db : Store F)
      → ((put_strategy ta id created_by now d db).1.jobs ≡ db.jobs)
        × ((put_strategy ta id created_by now d db).1.backtest_results ≡ db.backtest_results)
  unfolding put_strategy update_strategy
  put-jobs id created_by now d db = ground arith

  ask-IsSound :
      (s : System F) (job_id : String) (now : ℕ) (payload : JobPayload F) (created_by : String)
      (queue : Queue)
      → contains_id s.saved job_id ≡ false
      → IsSound made s
      → IsSound made (record s {
        store =
            (create_job_of
              (made.job_type job_id)
              job_id
              now
              (made.strategy_id job_id)
              payload
              created_by
              (s.store, queue)).1.0;
      })
  unfolding create_job_of create_job get_strategy
  ask-IsSound s job_id now payload created_by queue fresh h =
      elim (Option-cases
        (first (select (owned (made.strategy_id job_id) created_by) s.store.strategies))) [
          | inl e ↦ rw (e, create_job_of) h
          | inr (x, e) ↦
              rw (e, create_job_of)
                (create-IsSound made s
                  (new_job job_id now (made.job_type job_id) x.id payload created_by)
                  ((eq_iff x.id (made.strategy_id job_id)).0 (
                    ground (
                      arith,
                      found_holds (owned (made.strategy_id job_id) created_by) s.store.strategies x
                          e,
                    )))
                  refl refl fresh h)
        ]

  saved_as :
      (s : System F) (job_id : String) (now : ℕ) (result : BacktestResult F) (db : Store F)
      → save_backtest_result is_finite isoformat job_id (made.strategy_id job_id) now result s.store
        ≡ some db
      → IsSound made s
      → IsSound made (record { store = db; saved = job_id ∷ s.saved })
  unfolding save_backtest_result
  saved_as s job_id now result db e h =
      save-IsSound made s
        (backtest_row is_finite isoformat job_id (made.strategy_id job_id) now result) db refl
        (ground (arith, e)) (ground (arith, e)) h

  searched :
      (s : System F) (row : OptimizationRow F) (db : Store F)
      → save_optimization_result is_finite row s.store ≡ some db
      → (db.jobs ≡ s.store.jobs) × (db.backtest_results ≡ s.store.backtest_results)
  unfolding save_optimization_result
  searched s row db e = ground (arith, e)

  pub Step-IsSound :
      {s t : System F} → Step ta is_finite isoformat made s t → IsSound made s → IsSound made t
  unfolding remove_strategy
  Step-IsSound {s = s} (posts id created_by now d) h =
      let (ej, er) = post-jobs id created_by now d s.store in same_jobs made s _ ej er h
  Step-IsSound {s = s} (puts id created_by now d) h =
      let (ej, er) = put-jobs id created_by now d s.store in same_jobs made s _ ej er h
  Step-IsSound {s = s} (removes id created_by) h = remove-IsSound made s id created_by h
  Step-IsSound {s = s} (asks job_id now strategy_id payload created_by queue mine fresh) h =
      subst
        (λ x. IsSound made (record s {
          store =
              (create_job_of (made.job_type job_id) job_id now x payload created_by
                (s.store, queue)).1.0;
        }))
        mine (ask-IsSound s job_id now payload created_by queue fresh h)
  Step-IsSound {s = s} (takes_up job_id now) h = mark_running-IsSound made s job_id now h
  Step-IsSound {s = s} (saves job_id now result db e) h = saved_as s job_id now result db e h
  Step-IsSound {s = s} (saves_search row db e) h =
      let (ej, er) = searched s row db e in same_jobs made s _ ej er h
  Step-IsSound {s = s} (completes job_id now why) h = mark_completed-IsSound made s job_id now why h
  Step-IsSound {s = s} (fails job_id error now) h = mark_failed-IsSound made s job_id error now h

  pub Steps-IsSound :
      {s t : System F} → Steps ta is_finite isoformat made s t → IsSound made s → IsSound made t
  Steps-IsSound here h = h
  Steps-IsSound (next earlier last) h = Step-IsSound last (Steps-IsSound earlier h)

  pub fresh_system-IsSound : IsSound made (fresh_system {F = F})
  fresh_system-IsSound = record { jobs = tt; results = tt }

module _ {F : Type 0} ⦃fl : Float F⦄ (ta : Ta F) (is_finite : F → Bool) (isoformat : ℕ → String)
    (made : Ledger) (s : System F) where
  -- Whatever callers ask and workers do, in whatever order their steps come, as long as an id is given
  -- to one job only: a backtest job that is completed has its result, jobs keep the strategy and the
  -- kind that they were made with, and a result stands under the strategy of its job.
  pub reached-IsSound : Steps ta is_finite isoformat made fresh_system s → IsSound made s
  reached-IsSound steps =
      Steps-IsSound ta is_finite isoformat made steps
        (fresh_system-IsSound ta is_finite isoformat made)
