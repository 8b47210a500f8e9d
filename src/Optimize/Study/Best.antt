-- ===== src/Optimize/Study/Best.antt =====
-- What a search over one split finds, where the study finds the best of its trials.
use freqpanda.Prelude.{
  String, ◌≡◌, refl, ◌⊎◌, inl, inr, true, false, Option, List, [], ◌∷◌, All, Any, IsRising,
}
use freqpanda.Prelude.Result.{ok, err, >>=-eq-ok}
use freqpanda.Prelude.Float.{Float}
use freqpanda.Strategy.Safety.{Takes}
use freqpanda.Strategy.Schema.{StrategyDefinition, check_definition}
use freqpanda.Strategy.Indicators.{Frame}
use freqpanda.Strategy.Validation.{validate_definition}
use freqpanda.Strategy.Interpreter.{missing}
use freqpanda.Strategy.Shape.{IsAligned}
use freqpanda.Strategy.Shape.Computed.{KeepsLength}
use freqpanda.Backtest.Engine.{Libraries, backtest}
use freqpanda.Backtest.Engine.Accounts.{Unmeasured, backtest-Measures}
use freqpanda.Backtest.Metrics.{no_time}
use freqpanda.Backtest.Walkforward.{WalkForwardWindow}
use freqpanda.Optimize.SearchSpace.{
  Trial, build_search_space, suggest_params, materialize_definition,
}
use freqpanda.Optimize.SearchSpace.Materialized.{materialize_definition_lem}
use freqpanda.Optimize.Study.{
  Study, Search, WindowOptimizationResult, in_sample_score, objective, optimize_single_split,
}

module _ {F : Type 0} ⦃fl : Float F⦄ (lib : Libraries F) (parse : String → Option F)
    (study : Study F) (d : StrategyDefinition F) (search : Search F) where
  -- A study over a training slice that returns: it has run some trials, all without an exception, and
  -- its best_params are what one of them was given, which no other one beats; and `ta` takes the
  -- parameters of the definition with those values.
  pub record Finds (train_df : Frame F) (trials : List (Trial F)) (best : Trial F) (score : F)
      : Type 0 where
    pub answers :
        study.best_params_of
          (objective lib parse study d train_df search)
          search.n_trials
          search.timeout
        ≡ ok (suggest_params best (build_search_space d))
    pub chosen : Any (λ trial. trial ≡ best) trials
    pub takes :
        Takes lib.ta
          (materialize_definition d (suggest_params best (build_search_space d))).indicators
    pub scores : objective lib parse study d train_df search best ≡ ok score
    pub beats :
        All
          (λ trial.
            (other : F) × (objective lib parse study d train_df search trial ≡ ok other)
            × (fl.lt score other ≡ false))
          trials

  abbrev IsBestDefinition : StrategyDefinition F → Type 0
  IsBestDefinition best =
      (check_definition best ≡ true)
      × (validate_definition lib.ta best ≡ ok tt)
      × (build_search_space best ≡ [])

  -- What the search returns for the two slices.
  pub record IsSearched (window : Option WalkForwardWindow) (train_df test_df : Frame F)
      (trials : List (Trial F)) (best : Trial F) (r : WindowOptimizationResult F) : Type 0 where
    pub of_window : r.window ≡ window
    pub best_params : r.best_params ≡ suggest_params best (build_search_space d)
    pub best_definition : r.best_definition ≡ materialize_definition d r.best_params
    pub accepted : check_definition r.best_definition ≡ true
    pub valid : validate_definition lib.ta r.best_definition ≡ ok tt
    pub no_range : build_search_space r.best_definition ≡ []
    pub trained :
        backtest lib r.best_definition train_df search.backtest_kwargs ≡ ok r.in_sample_result
    pub tested :
        backtest lib r.best_definition test_df search.backtest_kwargs ≡ ok r.out_of_sample_result
    pub unbeaten :
        All
          (λ trial.
            (own other : F) × (in_sample_score lib parse study r ≡ ok own)
            × (objective lib parse study d train_df search trial ≡ ok other)
            × (fl.lt own other ≡ false))
          trials

  unbeaten-All :
      (train_df : Frame F) (r : WindowOptimizationResult F) (score : F) (trials : List (Trial F))
      → in_sample_score lib parse study r ≡ ok score
      → All
          (λ trial.
            (other : F) × (objective lib parse study d train_df search trial ≡ ok other)
            × (fl.lt score other ≡ false))
          trials
      → All
          (λ trial.
            (own other : F) × (in_sample_score lib parse study r ≡ ok own)
            × (objective lib parse study d train_df search trial ≡ ok other)
            × (fl.lt own other ≡ false))
          trials
  unbeaten-All train_df r score [] e all = tt
  unbeaten-All train_df r score (t ∷ ts) e ((other, ran, under), all) =
      ((score, other, e, ran, under), unbeaten-All train_df r score ts e all)

  -- A definition that passes its checks, a study that finds the best of its trials on the training
  -- slice, and a test slice that is aligned, complete and in the order of time: the best definition is
  -- that of the best trial, passes the checks too and has no range left, it is backtested on both
  -- slices, and its score on the training slice is the best of the trials'; or the backtest of that
  -- definition on the test slice raises the KeyError of a curve without a number, and so does this.
  pub optimize_single_split_lem :
      (window : Option WalkForwardWindow) (train_df test_df : Frame F) (trials : List (Trial F))
      (best : Trial F) (score : F)
      → KeepsLength lib.ta
      → check_definition d ≡ true
      → validate_definition lib.ta d ≡ ok tt
      → IsAligned test_df
      → IsRising 0 test_df.index
      → missing test_df ≡ []
      → Finds train_df trials best score
      → ((r : WindowOptimizationResult F) × (optimize_single_split lib parse study d search window
              train_df test_df
            ≡ ok r)
          × IsSearched window train_df test_df trials best r)
        ⊎ ((optimize_single_split lib parse study d search window train_df test_df ≡ err no_time)
            × Unmeasured lib
                (materialize_definition d (suggest_params best (build_search_space d)))
                test_df
                search.backtest_kwargs
                no_time)
  unfolding optimize_single_split in_sample_score objective
  optimize_single_split_lem window train_df test_df trials best score keeps accepts valid aligned
        rising complete finds =
      let values = suggest_params best (build_search_space d) in
      let best_definition = materialize_definition d values in
      let (accepted, still_valid, no_range) =
        materialize_definition_lem lib.ta d best accepts valid in
      let (in_sample, trained, scored) =
        >>=-eq-ok (backtest lib best_definition train_df search.backtest_kwargs) _ finds.scores in
      elim (backtest-Measures lib best_definition test_df search.backtest_kwargs keeps aligned
        rising accepted still_valid complete finds.takes) [
          | inr fails ↦ inr (rw (finds.answers, trained, fails.0) refl, fails)
          | inl (out_of_sample, tested) ↦
              let r : WindowOptimizationResult F = record {
                window = window;
                metric = search.metric;
                best_params = values;
                best_definition = best_definition;
                in_sample_result = in_sample;
                out_of_sample_result = out_of_sample;
              } in
              inl (
                r,
                rw (finds.answers, trained, tested) refl,
                record {
                  of_window = refl;
                  best_params = refl;
                  best_definition = refl;
                  accepted = accepted;
                  valid = still_valid;
                  no_range = no_range;
                  trained = trained;
                  tested = tested;
                  unbeaten = unbeaten-All train_df r score trials scored finds.beats;
                },
              )
        ]
