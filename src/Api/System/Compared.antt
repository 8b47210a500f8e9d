-- ===== src/Api/System/Compared.antt =====
-- What a comparison of backtests answers (freqpanda_api/routers/compare.py), in any database that the
-- steps of the system reach.
use freqpanda.Prelude.{
  subst, ℕ, String, ◌≡◌, refl, ◌⊎◌, inl, inr, Bool, Bool-cases, true, false, none, some, List, [],
  ◌∷◌, eq_iff, arith,
}
use freqpanda.Prelude.Result.{Result, ok, err, ◌>>=◌}
use freqpanda.Prelude.Float.{Float}
use freqpanda.Strategy.Indicators.{Ta}
use freqpanda.Api.Bots.{HttpError, not_found, conflict, unprocessable, server_error}
use freqpanda.Api.Rows.{JobRecord, BacktestRow, Store, backtest_job}
use freqpanda.Api.Jobs.{get_job, same_type}
use freqpanda.Api.Results.{get_backtest_result}
use freqpanda.Api.Backtests.{CompareRow, is_completed, own_job, compare_one, compare_backtests}
use freqpanda.Api.System.{Ledger, System, Steps, fresh_system}
use freqpanda.Api.System.Tables.{Option-cases, All-found, has_result, has_result-found}
use freqpanda.Api.System.Sound.{IsSound}
use freqpanda.Api.System.Reached.{reached-IsSound}

module _ {F : Type 0} (db : Store F) (created_by : String) where
  -- The row of a completed backtest of the caller.
  pub record IsRow (job_id : String) (row : CompareRow F) : Type 0 where
    pub job : JobRecord F
    pub found : get_job db job_id created_by ≡ some job
    pub kind : same_type job.job_type backtest_job ≡ true
    pub done : is_completed job.status ≡ true
    pub result : BacktestRow F
    pub stored : get_backtest_result db job_id ≡ some result
    pub its_job : row.job_id ≡ job_id
    pub its_strategy : row.strategy_id ≡ job.strategy_id
    pub metrics : row.metrics ≡ result.metrics

  abbrev pub IsNotOwn : String → Type 0
  IsNotOwn job_id =
      (get_job db job_id created_by ≡ none)
      ⊎ ((job : JobRecord F) × (get_job db job_id created_by ≡ some job)
          × (same_type job.job_type backtest_job ≡ false))

  abbrev pub IsUnfinished : String → Type 0
  IsUnfinished job_id =
      (job : JobRecord F) × (get_job db job_id created_by ≡ some job)
      × (is_completed job.status ≡ false)

  -- The answer for one job.
  pub data RowAnswer : String → Result HttpError (CompareRow F) → Type 0 where
    has_row : {job_id : String} {row : CompareRow F} → IsRow job_id row → RowAnswer job_id (ok row)
    is_missing : {job_id : String} → IsNotOwn job_id → RowAnswer job_id (err not_found)
    is_unfinished : {job_id : String} → IsUnfinished job_id → RowAnswer job_id (err conflict)

  -- The answer for a list: all rows in its order, or the error of the first job without one.
  pub data Answer : List String → Result HttpError (List (CompareRow F)) → Type 0 where
    all_rows : Answer [] (ok [])
    and_row :
        {job_id : String} {row : CompareRow F} {job_ids : List String} {rows : List (CompareRow F)}
        → IsRow job_id row
        → Answer job_ids (ok rows)
        → Answer (job_id ∷ job_ids) (ok (row ∷ rows))
    later_error :
        {job_id : String} {row : CompareRow F} {job_ids : List String} {e : HttpError}
        → IsRow job_id row
        → Answer job_ids (err e)
        → Answer (job_id ∷ job_ids) (err e)
    no_job :
        {job_id : String} {job_ids : List String}
        → IsNotOwn job_id
        → Answer (job_id ∷ job_ids) (err not_found)
    not_done :
        {job_id : String} {job_ids : List String}
        → IsUnfinished job_id
        → Answer (job_id ∷ job_ids) (err conflict)

  combine :
      (job_id : String) (job_ids : List String) (one : Result HttpError (CompareRow F))
      (rest : Result HttpError (List (CompareRow F)))
      → RowAnswer job_id one
      → Answer job_ids rest
      → Answer (job_id ∷ job_ids) (one >>= λ row. rest >>= λ rows. ok (row ∷ rows))
  combine job_id job_ids (ok row) (ok rows) (has_row h) later = and_row h later
  combine job_id job_ids (ok row) (err e) (has_row h) later = later_error h later
  combine job_id job_ids (err not_found) rest (is_missing h) later = no_job h
  combine job_id job_ids (err unprocessable) rest h later = elim h [ ]
  combine job_id job_ids (err server_error) rest h later = elim h [ ]
  combine job_id job_ids (err conflict) rest (is_unfinished h) later = not_done h

module _ {F : Type 0} (made : Ledger) (s : System F) (created_by : String)
    (sound : IsSound made s) where
  -- A job that is completed has a result to show.
  result_there :
      (job_id : String) (job : JobRecord F)
      → get_job s.store job_id created_by ≡ some job
      → same_type job.job_type backtest_job ≡ true
      → is_completed job.status ≡ true
      → (r : BacktestRow F) × (get_backtest_result s.store job_id ≡ some r)
  unfolding get_job get_backtest_result
  result_there job_id job found kind done =
      let (own, j) = All-found _ _ s.store.jobs job found sound.jobs in
      let mine : job.id ≡ job_id = (eq_iff job.id job_id).0 (ground (arith, own)) in
      let there : has_result job.id s.store.backtest_results ≡ true =
        j.result (ground (arith, kind, done)) in
      has_result-found job_id s.store.backtest_results
        (subst (λ x. has_result x s.store.backtest_results ≡ true) mine there)

  compare_one-Answers :
      (job_id : String)
      → RowAnswer s.store created_by job_id (compare_one s.store created_by job_id)
  unfolding compare_one own_job
  compare_one-Answers job_id = elim (Option-cases (get_job s.store job_id created_by)) [
    | inl e ↦ rw (e, own_job) (is_missing (inl e))
    | inr (job, e) ↦ elim (Bool-cases (same_type job.job_type backtest_job)) [
      | inr other ↦ rw (e, own_job, other) (is_missing (inr (job, e, other)))
      | inl kind ↦ elim (Bool-cases (is_completed job.status)) [
        | inr open_ ↦ rw (e, own_job, kind, open_) (is_unfinished (job, e, open_))
        | inl done ↦
            let (result, stored) = result_there job_id job e kind done in
            rw (e, own_job, kind, done, stored)
              (has_row (record {
                job = job;
                found = e;
                kind = kind;
                done = done;
                result = result;
                stored = stored;
                its_job = refl;
                its_strategy = refl;
                metrics = refl;
              }))
      ]
    ]
  ]

  answers :
      (job_ids : List String)
      → Answer s.store created_by job_ids (compare_backtests s.store created_by job_ids)
  unfolding compare_backtests
  answers [] = all_rows
  answers (job_id ∷ job_ids) =
      combine s.store created_by job_id job_ids _ _ (compare_one-Answers job_id) (answers job_ids)

module _ {F : Type 0} ⦃fl : Float F⦄ (ta : Ta F) (is_finite : F → Bool) (isoformat : ℕ → String)
    (made : Ledger) (s : System F) where
  -- In any database that the steps reach, a comparison answers the rows of the jobs in the order of the
  -- request, each with the metrics of the stored result, when all of them are completed backtests of
  -- the caller. Else the first that is not decides: a 404 if it is no backtest job of the caller, and a
  -- 409 if it is not completed. It is never a server error for a result that is not there.
  pub compare_backtests-Answers :
      Steps ta is_finite isoformat made fresh_system s
      → (created_by : String) (job_ids : List String)
      → Answer s.store created_by job_ids (compare_backtests s.store created_by job_ids)
  compare_backtests-Answers steps created_by job_ids =
      answers made s created_by (reached-IsSound ta is_finite isoformat made s steps) job_ids
