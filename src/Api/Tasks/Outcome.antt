-- ===== src/Api/Tasks/Outcome.antt =====
-- How a backtest job ends (freqpanda_api/jobs/tasks.py), and what its caller then reads.
use freqpanda.Prelude.{
  ℕ, String, ◌≡◌, refl, ◌⊎◌, inl, inr, Bool, Bool-cases, true, false, some, List, [], ◌∷◌, str_eq,
  eq_iff, arith,
}
use freqpanda.Prelude.Result.{Result, ok, err, ◌>>=◌}
use freqpanda.Prelude.Float.{Float}
use freqpanda.Backtest.Engine.{BacktestResult}
use freqpanda.Execution.Repository.{select, first, update}
use freqpanda.Api.Rows.{JobRecord, BacktestRow, Store, completed, failed}
use freqpanda.Api.Jobs.{get_job_unscoped, has_job_id, mark_running, mark_completed, mark_failed}
use freqpanda.Api.Results.{
  upsert_row, backtest_row, get_backtest_result, save_backtest_result, refers,
}
use freqpanda.Api.Tasks.{
  JobError, integrity_error, Worker, compute_backtest, run_backtest_job, finish_job,
  or_integrity_error,
}

first-update {ℓ} :
    {A : Type ℓ} (p : A → Bool) (f : A → A) (xs : List A) (x : A)
    → ((y : A) → p (f y) ≡ p y)
    → first (select p xs) ≡ some x
    → first (select p (update p f xs)) ≡ some (f x)
first-update p f [] x keeps e = absurd (ground (arith, e))
first-update p f (y ∷ ys) x keeps e = elim (Bool-cases (p y)) [
  | inl h ↦ ground (arith, keeps y, h, e)
  | inr h ↦ ground (arith, keeps y, h, e, first-update p f ys x keeps)
]

module _ {F : Type 0} where
  -- The row of a job after an upsert has the new documents.
  upsert_row-first :
      (row : BacktestRow F) (rows : List (BacktestRow F))
      → (stored : BacktestRow F) × (first
            (select (λ r. str_eq r.job_id row.job_id) (upsert_row row rows))
          ≡ some stored)
        × (stored.metrics ≡ row.metrics)
        × (stored.trades ≡ row.trades)
        × (stored.equity_curve ≡ row.equity_curve)
  unfolding upsert_row
  upsert_row-first row [] = (row, ground (arith, eq_iff row.job_id row.job_id), refl, refl, refl)
  upsert_row-first row (old ∷ rows) = elim (Bool-cases (str_eq old.job_id row.job_id)) [
    | inl h ↦ (
      record old { metrics = row.metrics; trades = row.trades; equity_curve = row.equity_curve },
      ground (arith, h),
      refl,
      refl,
      refl,
    )
    | inr h ↦
        let (stored, found, metrics, trades, equity_curve) = upsert_row-first row rows in
        (stored, ground (arith, h, found), metrics, trades, equity_curve)
  ]

-- A job's end, with `running` the database when its work started, `later` when it is written, and
-- `row` its row by then.
module _ {F : Type 0} ⦃fl : Float F⦄ (w : Worker F) (job_id : String) (finished : ℕ)
    (job : JobRecord F) (row : JobRecord F) (running : Store F) (later : Store F)
    (out : Result JobError (Unit {0}) × Store F) where
  pub record IsCompleted : Type 0 where
    pub returned : out.0 ≡ ok tt
    pub job_row :
        get_job_unscoped out.1 job_id
        ≡ some (record row { status = completed; finished_at = some finished })
    pub strategy_id : String
    pub result : BacktestResult F
    pub computed : compute_backtest w job running ≡ ok (strategy_id, result)
    pub stored : BacktestRow F
    pub found : get_backtest_result out.1 job_id ≡ some stored
    pub metrics :
        stored.metrics
        ≡ (backtest_row w.lib.np.is_finite w.isoformat job_id strategy_id finished result).metrics
    pub trades :
        stored.trades
        ≡ (backtest_row w.lib.np.is_finite w.isoformat job_id strategy_id finished result).trades
    pub equity_curve :
        stored.equity_curve
        ≡ (backtest_row w.lib.np.is_finite w.isoformat job_id strategy_id finished
            result).equity_curve

  pub record IsFailed : Type 0 where
    pub error : JobError
    pub returned : out.0 ≡ err error
    pub job_row :
        get_job_unscoped out.1 job_id
        ≡ some (record row {
          status = failed;
          error = some (w.message error);
          finished_at = some finished;
        })
    pub results : out.1.backtest_results ≡ later.backtest_results
    pub reason :
        (compute_backtest w job running ≡ err error)
        ⊎ ((computed : String × BacktestResult F) × (compute_backtest w job running ≡ ok computed)
            × (error ≡ integrity_error)
            × (refers job_id computed.0 later ≡ false))

module _ {F : Type 0} ⦃fl : Float F⦄ (w : Worker F) (job_id : String) (finished : ℕ)
    (job : JobRecord F) (row : JobRecord F) (running : Store F) (later : Store F)
    (still : get_job_unscoped later job_id ≡ some row) where
  -- What the body of the `try` and its handler leave.
  abbrev end_of : Result JobError (String × BacktestResult F) → Result JobError (Unit {0}) × Store F
  end_of r = finish_job w job_id finished later (
      r >>= λ computed. or_integrity_error w (
        save_backtest_result w.lib.np.is_finite w.isoformat job_id computed.0 finished computed.1
          later))

  saved :
      (c : String × BacktestResult F)
      → compute_backtest w job running ≡ ok c
      → refers job_id c.0 later ≡ true
      → IsCompleted w job_id finished job row running later (end_of (ok c))
  unfolding save_backtest_result mark_completed get_job_unscoped get_backtest_result
  saved (strategy_id, result) e h =
      let put = backtest_row w.lib.np.is_finite w.isoformat job_id strategy_id finished result in
      let (stored, found, metrics, trades, equity_curve) =
        upsert_row-first put later.backtest_results in
      rw h (record {
        returned = refl;
        job_row =
            first-update (has_job_id job_id)
              (λ r. record r { status = completed; finished_at = some finished }) later.jobs row
              (λ r. refl) still;
        strategy_id = strategy_id;
        result = result;
        computed = e;
        stored = stored;
        found = found;
        metrics = metrics;
        trades = trades;
        equity_curve = equity_curve;
      })

  failed_end :
      (error : JobError)
      → (compute_backtest w job running ≡ err error)
        ⊎ ((computed : String × BacktestResult F) × (compute_backtest w job running ≡ ok computed)
            × (error ≡ integrity_error)
            × (refers job_id computed.0 later ≡ false))
      → IsFailed w job_id finished job row running later
          (err error, mark_failed job_id (w.message error) finished later)
  unfolding mark_failed get_job_unscoped
  failed_end error reason = record {
    error = error;
    returned = refl;
    job_row =
        first-update (has_job_id job_id)
          (λ r. record r {
            status = failed;
            error = some (w.message error);
            finished_at = some finished;
          })
          later.jobs row (λ r. refl) still;
    results = refl;
    reason = reason;
  }

  unsaved :
      (c : String × BacktestResult F)
      → compute_backtest w job running ≡ ok c
      → refers job_id c.0 later ≡ false
      → IsFailed w job_id finished job row running later (end_of (ok c))
  unfolding save_backtest_result mark_failed get_job_unscoped
  unsaved c e h = rw h (failed_end integrity_error (inr (c, e, refl, h)))

  ended :
      (r : Result JobError (String × BacktestResult F))
      → compute_backtest w job running ≡ r
      → IsCompleted w job_id finished job row running later (end_of r)
        ⊎ IsFailed w job_id finished job row running later (end_of r)
  ended (err error) e = inr (failed_end error (inl e))
  ended (ok c) e = elim (Bool-cases (refers job_id c.0 later)) [
    | inl h ↦ inl (saved c e h)
    | inr h ↦ inr (unsaved c e h)
  ]

module _ {F : Type 0} ⦃fl : Float F⦄ (w : Worker F) (during : Store F → Store F) (job_id : String)
    (started : ℕ) (finished : ℕ) (db : Store F) (job : JobRecord F) (row : JobRecord F) where
  abbrev begun : Store F
  begun = mark_running job_id started db

  -- A worker that finds a job, whatever happens to the database meanwhile, ends it if its row is still
  -- there when it writes: completed, with the documents of its backtest stored, or failed, with the
  -- message of the error and no result written. The second is only for an error of the backtest, or
  -- where the job or its strategy has gone.
  pub run_backtest_job-ends :
      get_job_unscoped db job_id ≡ some job
      → get_job_unscoped (during begun) job_id ≡ some row
      → IsCompleted w job_id finished job row begun
          (during begun)
          (run_backtest_job w during job_id started finished db)
        ⊎ IsFailed w job_id finished job row begun
            (during begun)
            (run_backtest_job w during job_id started finished db)
  unfolding run_backtest_job
  run_backtest_job-ends found still =
      rw (found, run_backtest_job)
        (ended w job_id finished job row begun (during begun) still _ refl)
