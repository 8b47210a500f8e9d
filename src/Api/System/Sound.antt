-- ===== src/Api/System/Sound.antt =====
-- What every step keeps: a completed backtest has its result.
use freqpanda.Prelude.{
  ℕ, String, ◌≡◌, sym, ◌∙◌, ap, ◌⊎◌, inl, inr, Bool, Bool-cases, true, false, not, ◌&&◌, ◌||◌, List,
  [], ◌∷◌, ◌++◌, str_eq, eq_iff, All, All-append, arith,
}
use freqpanda.Execution.Repository.{select, is_none_of, update}
use freqpanda.Api.Rows.{JobRecord, BacktestRow, Store, backtest_job, optimization_job}
use freqpanda.Api.Strategies.{remove_strategy, delete_strategy, goes, owned}
use freqpanda.Api.Jobs.{same_type, has_job_id, mark_running, mark_completed, mark_failed}
use freqpanda.Api.Results.{upsert_row}
use freqpanda.Api.Backtests.{is_completed}
use freqpanda.Api.System.{Ledger, System, contains_id}
use freqpanda.Api.System.Tables.{
  All-weaken, All-select, All-update, has_result, upsert_row-All, has_result-upsert_row,
  none_of_another, has_result-select,
}

module _ {F : Type 0} (made : Ledger) where
  -- A backtest that is completed, or saved so far, has a result.
  abbrev pub needs : List String → JobRecord F → Bool
  needs saved job =
      same_type job.job_type backtest_job && (is_completed job.status || contains_id saved job.id)

  pub record JobSound (saved : List String) (results : List (BacktestRow F)) (job : JobRecord F)
      : Type 0 where
    pub strategy : job.strategy_id ≡ made.strategy_id job.id
    pub kind : job.job_type ≡ made.job_type job.id
    pub result : needs saved job ≡ true → has_result job.id results ≡ true

  abbrev pub ResultSound : BacktestRow F → Type 0
  ResultSound r = r.strategy_id ≡ made.strategy_id r.job_id

  pub record IsSound (s : System F) : Type 0 where
    pub jobs : All (JobSound s.saved s.store.backtest_results) s.store.jobs
    pub results : All ResultSound s.store.backtest_results

  -- Jobs and their results are as they were.
  pub same_jobs :
      (s : System F) (db : Store F)
      → db.jobs ≡ s.store.jobs
      → db.backtest_results ≡ s.store.backtest_results
      → IsSound s
      → IsSound (record s { store = db })
  same_jobs s db ej er h = record { jobs = rw (ej, er) h.jobs; results = rw er h.results }

  -- Rows of jobs change, but no job needs a result more than before.
  jobs_updated :
      (s : System F) (job_id : String) (f : JobRecord F → JobRecord F)
      → ((job : JobRecord F)
          → has_job_id job_id job ≡ true
          → JobSound s.saved s.store.backtest_results job
          → JobSound s.saved s.store.backtest_results (f job))
      → IsSound s
      → IsSound
          (record s { store = record s.store { jobs = update (has_job_id job_id) f s.store.jobs } })
  jobs_updated s job_id f keeps h = record {
    jobs =
        All-update (JobSound s.saved s.store.backtest_results) (has_job_id job_id) f s.store.jobs
          keeps h.jobs;
    results = h.results;
  }

  pub mark_running-IsSound :
      (s : System F) (job_id : String) (now : ℕ)
      → IsSound s
      → IsSound (record s { store = mark_running job_id now s.store })
  unfolding mark_running
  mark_running-IsSound s job_id now h =
      jobs_updated s job_id _
        (λ job mine j. record {
          strategy = j.strategy;
          kind = j.kind;
          result = λ e. j.result (ground (arith, e));
        })
        h

  pub mark_failed-IsSound :
      (s : System F) (job_id error : String) (now : ℕ)
      → IsSound s
      → IsSound (record s { store = mark_failed job_id error now s.store })
  unfolding mark_failed
  mark_failed-IsSound s job_id error now h =
      jobs_updated s job_id _
        (λ job mine j. record {
          strategy = j.strategy;
          kind = j.kind;
          result = λ e. j.result (ground (arith, e));
        })
        h

  completed_result :
      (s : System F) (job_id : String) (job : JobRecord F)
      → JobSound s.saved s.store.backtest_results job
      → job.id ≡ job_id
      → (contains_id s.saved job_id ≡ true) ⊎ (made.job_type job_id ≡ optimization_job)
      → same_type job.job_type backtest_job ≡ true
      → has_result job.id s.store.backtest_results ≡ true
  completed_result s job_id job j mine (inl c) e =
      let here_too : contains_id s.saved job.id ≡ true = ap (contains_id s.saved) mine ∙ c in
      j.result (ground (arith, e, here_too))
  completed_result s job_id job j mine (inr o) e =
      let kind : job.job_type ≡ optimization_job = j.kind ∙ ap made.job_type mine ∙ o in
      absurd (ground (arith, e, kind))

  pub mark_completed-IsSound :
      (s : System F) (job_id : String) (now : ℕ)
      → (contains_id s.saved job_id ≡ true) ⊎ (made.job_type job_id ≡ optimization_job)
      → IsSound s
      → IsSound (record s { store = mark_completed job_id now s.store })
  unfolding mark_completed
  mark_completed-IsSound s job_id now why h =
      jobs_updated s job_id _
        (λ job mine j. record {
          strategy = j.strategy;
          kind = j.kind;
          result = λ e.
              completed_result s job_id job j ((eq_iff job.id job_id).0 mine) why
                (ground (arith, e));
        })
        h

  saved_result :
      (s : System F) (row : BacktestRow F) (job : JobRecord F)
      → JobSound s.saved s.store.backtest_results job
      → JobSound (row.job_id ∷ s.saved) (upsert_row row s.store.backtest_results) job
  saved_result s row job j = record {
    strategy = j.strategy;
    kind = j.kind;
    result = λ e.
        has_result-upsert_row job.id row s.store.backtest_results
        ∙ elim (Bool-cases (str_eq row.job_id job.id)) [
          | inl same ↦ ground (arith, same)
          | inr other ↦ ground (arith, other, j.result (ground (arith, e, other)))
        ];
  }

  pub save-IsSound :
      (s : System F) (row : BacktestRow F) (db : Store F)
      → ResultSound row
      → db.jobs ≡ s.store.jobs
      → db.backtest_results ≡ upsert_row row s.store.backtest_results
      → IsSound s
      → IsSound (record { store = db; saved = row.job_id ∷ s.saved })
  save-IsSound s row db new ej er h = record {
    jobs =
        rw (ej, er)
          (All-weaken _ (JobSound (row.job_id ∷ s.saved) (upsert_row row s.store.backtest_results))
            s.store.jobs (saved_result s row) h.jobs);
    results =
        rw er (upsert_row-All ResultSound row s.store.backtest_results new (λ old o. o) h.results);
  }

  -- The result of a job that stays is not one that goes.
  kept_result :
      (s : System F) (id : String)
      → IsSound s
      → (job : JobRecord F) → str_eq job.strategy_id id ≡ false
      → JobSound s.saved s.store.backtest_results job
      → (r : BacktestRow F) → ResultSound r
      → r.job_id ≡ job.id
      → not (goes s.store id r.job_id r.strategy_id) ≡ true
  kept_result s id h job stays j r rs same =
      let other : str_eq (made.strategy_id r.job_id) id ≡ false =
        ap (λ x. str_eq (made.strategy_id x) id) same
        ∙ ap (λ y. str_eq y id) (sym j.strategy)
        ∙ stays in
      let mine : str_eq r.strategy_id id ≡ false = ap (λ y. str_eq y id) rs ∙ other in
      ground (
        arith,
        mine,
        none_of_another made.strategy_id id r.job_id s.store.jobs
            (All-weaken _ (λ job. job.strategy_id ≡ made.strategy_id job.id) s.store.jobs
              (λ x k. k.strategy) h.jobs)
            other,
      )

  pub remove-IsSound :
      (s : System F) (id created_by : String)
      → IsSound s
      → IsSound (record s { store = (remove_strategy id created_by s.store).1 })
  unfolding remove_strategy delete_strategy
  remove-IsSound s id created_by h =
      elim (Bool-cases (is_none_of (select (owned id created_by) s.store.strategies))) [
        | inl e ↦ rw e h
        | inr e ↦ rw e (record {
          jobs =
              All-select (JobSound s.saved s.store.backtest_results) _ _ s.store.jobs
                (λ job stays j. record {
                  strategy = j.strategy;
                  kind = j.kind;
                  result = λ n.
                      has_result-select ResultSound job.id _ s.store.backtest_results
                        (λ r rs same. kept_result s id h job (ground (arith, stays)) j r rs same)
                        h.results (j.result n);
                })
                h.jobs;
          results =
              All-select ResultSound ResultSound _ s.store.backtest_results (λ r stays rs. rs)
                h.results;
        })
      ]

  pub create-IsSound :
      (s : System F) (row : JobRecord F)
      → row.strategy_id ≡ made.strategy_id row.id
      → row.job_type ≡ made.job_type row.id
      → is_completed row.status ≡ false
      → contains_id s.saved row.id ≡ false
      → IsSound s
      → IsSound (record s { store = record s.store { jobs = s.store.jobs ++ (row ∷ []) } })
  create-IsSound s row strategy kind open_ fresh h = record {
    jobs = All-append (JobSound s.saved s.store.backtest_results) s.store.jobs (row ∷ []) h.jobs (
      record {
        strategy = strategy;
        kind = kind;
        result = λ e. absurd (ground (arith, e, open_, fresh));
      },
      tt,
    );
    results = h.results;
  }
