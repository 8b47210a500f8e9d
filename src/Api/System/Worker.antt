-- ===== src/Api/System/Worker.antt =====
-- A worker's backtest job (freqpanda_api/jobs/tasks.py) is a run of steps of the system, with the steps
-- of others between its own.
use freqpanda.Prelude.{
  ℕ, String, ◌≡◌, refl, sym, ◌∙◌, ap, subst, inl, inr, Option, none, some, eq_iff, arith,
}
use freqpanda.Prelude.Result.{Result, ok, err, ◌>>=◌}
use freqpanda.Prelude.Float.{Float}
use freqpanda.Strategy.Indicators.{Ta}
use freqpanda.Backtest.Engine.{BacktestResult, backtest}
use freqpanda.Execution.Repository.{first}
use freqpanda.Api.Rows.{JobRecord, StrategyRecord, Store}
use freqpanda.Api.Strategies.{get_strategy, owned}
use freqpanda.Api.Jobs.{get_job_unscoped, mark_running, mark_failed}
use freqpanda.Api.Results.{save_backtest_result}
use freqpanda.Api.Tasks.{
  JobError, integrity_error, strategy_not_found, strategy_of, Worker, compute_backtest,
  run_backtest_job, finish_job, or_integrity_error, load_ohlcv, backtest_kwargs, lift_error,
}
use freqpanda.Api.System.{Ledger, System, Steps, takes_up, saves, completes, fails, here, next}
use freqpanda.Api.System.Tables.{Option-cases, All-found, found_holds}
use freqpanda.Api.System.Sound.{IsSound}

-- A chain of results that gives `id` first.
chained :
    {E A B : Type 0} (m : Result E A) (f : A → Result E B) (id : String) (c : String × B)
    → (m >>= λ a. f a >>= λ b. ok (id, b)) ≡ ok c
    → c.0 ≡ id
chained (err e) f id c h = absurd (ground (arith, h))
chained (ok a) f id c h = ground (arith, h)

chained_after :
    {E A B : Type 0} (m : Result E A) (g : A → Result E (String × B)) (id : String) (c : String × B)
    → ((x : A) → m ≡ ok x → (d : String × B) → g x ≡ ok d → d.0 ≡ id)
    → (m >>= g) ≡ ok c
    → c.0 ≡ id
chained_after (err e) g id c keeps h = absurd (ground (arith, h))
chained_after (ok x) g id c keeps h = keeps x refl c h

or_not_found :
    {A : Type 0} (o : Option A) (x : A)
    → (elim o as (λ z. Result JobError A) [ none ↦ err strategy_not_found | some y ↦ ok y ]) ≡ ok x
    → o ≡ some x
or_not_found none x h = absurd (ground (arith, h))
or_not_found (some y) x h = ground (arith, h)

get_strategy-id :
    {F : Type 0} (db : Store F) (id created_by : String) (x : StrategyRecord F)
    → get_strategy db id created_by ≡ some x
    → x.id ≡ id
unfolding get_strategy
get_strategy-id db id created_by x e =
    let own = found_holds (owned id created_by) db.strategies x e in
    (eq_iff x.id id).0 (ground (arith, own))

module _ {F : Type 0} ⦃fl : Float F⦄ (w : Worker F) where
  compute_backtest-strategy :
      (job : JobRecord F) (db : Store F) (c : String × BacktestResult F)
      → compute_backtest w job db ≡ ok c
      → c.0 ≡ job.strategy_id
  unfolding compute_backtest
  compute_backtest-strategy job db c h =
      chained_after (strategy_of w job db) _ job.strategy_id c
        (λ x found d then_.
          chained (load_ohlcv w job.payload)
            (λ df. lift_error (backtest w.lib x.definition df (backtest_kwargs w job.payload))) x.id
            d then_
          ∙ get_strategy-id db job.strategy_id job.created_by x
              (or_not_found (get_strategy db job.strategy_id job.created_by) x found))
        h

job_strategy :
    {F : Type 0} (made : Ledger) (s : System F) (job_id : String) (job : JobRecord F)
    → IsSound made s
    → get_job_unscoped s.store job_id ≡ some job
    → job.strategy_id ≡ made.strategy_id job_id
unfolding get_job_unscoped
job_strategy made s job_id job sound found =
    let (own, j) = All-found _ _ s.store.jobs job found sound.jobs in
    j.strategy ∙ ap made.strategy_id ((eq_iff job.id job_id).0 own)

module _ {F : Type 0} ⦃fl : Float F⦄ (ta : Ta F) (made : Ledger) (w : Worker F) where
  -- The steps that a worker's libraries allow.
  abbrev pub Runs : System F → System F → Type 0
  Runs = Steps ta w.lib.np.is_finite w.isoformat made

  Runs-append : {s t u : System F} → Runs s t → Runs t u → Runs s u
  Runs-append first here = first
  Runs-append first (next more last) = next (Runs-append first more) last

  -- A run of steps to a system with a given database.
  abbrev pub Reaches : System F → Store F → Type 0
  Reaches s db = (t : System F) × Runs s t × (t.store ≡ db)

  module _ (job_id : String) (finished : ℕ) (later : System F) where
    finish_failed :
        (e : JobError) → Reaches later (mark_failed job_id (w.message e) finished later.store)
    finish_failed e = (
      record later { store = mark_failed job_id (w.message e) finished later.store },
      next here (fails job_id (w.message e) finished),
      refl,
    )

    finish_saved :
        (result : BacktestResult F) (saving : Option (Store F))
        → save_backtest_result w.lib.np.is_finite w.isoformat job_id
            (made.strategy_id job_id)
            finished
            result
            later.store
          ≡ saving
        → Reaches later (finish_job w job_id finished later.store (or_integrity_error w saving)).1
    finish_saved result none e = finish_failed integrity_error
    finish_saved result (some db) e = (
      _,
      next (next here (saves job_id finished result db e))
          (completes job_id finished (inl (ground (arith, eq_iff job_id job_id)))),
      refl,
    )

    finish_computed :
        (r : Result JobError (String × BacktestResult F))
        → ((c : String × BacktestResult F) → r ≡ ok c → c.0 ≡ made.strategy_id job_id)
        → Reaches later
            (finish_job w job_id finished later.store (
              r >>= λ computed. or_integrity_error w (
                save_backtest_result w.lib.np.is_finite w.isoformat job_id computed.0 finished
                  computed.1 later.store))).1
    finish_computed (err e) mine = finish_failed e
    finish_computed (ok (strategy_id, result)) mine =
        subst
          (λ x.
            Reaches later
              (finish_job w job_id finished later.store (
                or_integrity_error w (
                  save_backtest_result w.lib.np.is_finite w.isoformat job_id x finished result
                    later.store))).1)
          (sym (mine (strategy_id, result) refl)) (finish_saved result _ refl)

  -- In a database with the invariant, what a worker's backtest job leaves is what some steps of the
  -- system leave, when what happens to the database during its work is such steps too.
  pub run_backtest_job-Reaches :
      (during : Store F → Store F) (job_id : String) (started finished : ℕ) (s later : System F)
      → IsSound made s
      → Runs (record s { store = mark_running job_id started s.store }) later
      → during (mark_running job_id started s.store) ≡ later.store
      → Reaches s (run_backtest_job w during job_id started finished s.store).1
  unfolding run_backtest_job
  run_backtest_job-Reaches during job_id started finished s later sound others e =
      elim (Option-cases (get_job_unscoped s.store job_id)) [
        | inl gone ↦ (s, here, rw (gone, run_backtest_job) refl)
        | inr (job, found) ↦
            let (t, runs, same) =
              finish_computed job_id finished later
                (compute_backtest w job (mark_running job_id started s.store))
                (λ c computed.
                  compute_backtest-strategy w job _ c computed
                  ∙ job_strategy made s job_id job sound found) in
            (
              t,
              Runs-append (next here (takes_up job_id started)) (Runs-append others runs),
              rw (found, run_backtest_job, e) same,
            )
      ]
