-- ===== src/Optimize/Study/Folds.antt =====
-- A walk-forward search: one search for each window of the split, tested on rows after its training.
use freqpanda.Prelude.{
  ℕ, suc, String, ◌<◌, ◌≤◌, ◌≡◌, ◌≢◌, refl, ap, ◌∙◌, ◌⊎◌, inl, inr, true, Option, some, List, [],
  ◌∷◌, map, IsRising, get_last?, tabulate, All, Any, arith,
}
use freqpanda.Prelude.Result.{Result, ok, err}
use freqpanda.Prelude.Float.{Float}
use freqpanda.Strategy.Schema.{StrategyDefinition, check_definition}
use freqpanda.Strategy.Indicators.{Frame, StrategyError, value_error}
use freqpanda.Strategy.Validation.{validate_definition}
use freqpanda.Strategy.Interpreter.{missing}
use freqpanda.Strategy.Shape.{IsAligned}
use freqpanda.Strategy.Shape.Computed.{KeepsLength}
use freqpanda.Backtest.Metrics.{select, no_time}
use freqpanda.Backtest.Engine.Accounts.{Unmeasured}
use freqpanda.Backtest.Engine.{Libraries}
use freqpanda.Backtest.Walkforward.{
  WalkForwardWindow, Split, step_of, generate_walk_forward_windows,
}
use freqpanda.Backtest.Walkforward.Windows.{nth_window, generate_walk_forward_windows-nth}
use freqpanda.Backtest.Walkforward.Runs.{train_of, test_of, over_windows}
use freqpanda.Backtest.Walkforward.Runs.Slices.{slice-IsAligned, slice-IsRising, missing-slice}
use freqpanda.Backtest.Walkforward.Runs.Separate.{
  Outcome, is_full, Blames, ForWindow, ForWindows, over_windows-Outcome, IsBefore, slices-IsBefore,
  All-tabulate,
}
use freqpanda.Optimize.SearchSpace.{
  Trial, build_search_space, suggest_params, materialize_definition,
}
use freqpanda.Optimize.Study.{
  Study, Search, WindowOptimizationResult, OptimizationResult, optimize_single_split,
  optimize_windows, optimize,
}
use freqpanda.Optimize.Study.Best.{Finds, IsSearched, optimize_single_split_lem}

module _ {F : Type 0} ⦃fl : Float F⦄ (lib : Libraries F) (parse : String → Option F)
    (study : Study F) (d : StrategyDefinition F) (search : Search F) (df : Frame F)
    (trials_of : WalkForwardWindow → List (Trial F)) (best_of : WalkForwardWindow → Trial F)
    (score_of : WalkForwardWindow → F) where
  -- The search on the training slice of a window finds the best of the window's trials.
  abbrev pub FoundStudy : WalkForwardWindow → Type 0
  FoundStudy w =
      Finds lib parse study d search (train_of w df) (trials_of w) (best_of w) (score_of w)

  -- The result of one window: the search on its training slice, tested on later rows.
  pub record IsFold (r : WindowOptimizationResult F) : Type 0 where
    pub window : WalkForwardWindow
    pub searched :
        IsSearched lib parse study d search
          (some window)
          (train_of window df)
          (test_of window df)
          (trials_of window)
          (best_of window)
          r
    pub chosen : Any (λ trial. trial ≡ best_of window) (trials_of window)
    pub separate : IsBefore (train_of window df).index (test_of window df).index

  -- The backtest of what a window's search finds has no drawdown to measure on its test slice.
  abbrev pub TestFails : WalkForwardWindow → StrategyError → Type 0
  TestFails w =
      Unmeasured lib (materialize_definition d (suggest_params (best_of w) (build_search_space d)))
        (test_of w df) search.backtest_kwargs

  abbrev body_of :
      WalkForwardWindow → Frame F → Frame F → Result StrategyError (WindowOptimizationResult F)
  body_of w = optimize_single_split lib parse study d search (some w)

  abbrev pub Folds : List WalkForwardWindow → Result StrategyError (OptimizationResult F) → Type 0
  Folds windows m =
      ((r : OptimizationResult F) × (m ≡ ok r)
        × (map (λ w. w.window) r.windows ≡ map some (select (is_full df) windows))
        × All IsFold r.windows
        × (windows ≢ []))
      ⊎ ((windows ≡ []) × (m ≡ err value_error))
      ⊎ ((e : StrategyError) × (m ≡ err e) × Blames df TestFails windows e)

  optimize_windows-Folds :
      (windows : List WalkForwardWindow)
      → Outcome {R = List (WindowOptimizationResult F)}
          (Blames df TestFails windows)
          (ForWindows df body_of some (λ r. r.window) TestFails IsFold windows)
          (over_windows body_of df windows)
      → Folds windows (optimize_windows lib parse study d search df windows)
  optimize_windows-Folds [] ran = inr (inl (refl, refl))
  optimize_windows-Folds (w ∷ ws) (inl (rs, e, (same, good))) =
      inl (record { metric = search.metric; windows = rs }, rw e refl, same, good, λ h. cc)
  optimize_windows-Folds (w ∷ ws) (inr (x, e, bad)) = inr (inr (x, rw e refl, bad))

  optimize-windows :
      (s : Split) (fuel : ℕ) (windows : List WalkForwardWindow)
      → generate_walk_forward_windows s fuel df.index ≡ some windows
      → optimize lib parse study s fuel d search df
        ≡ some (optimize_windows lib parse study d search df windows)
  unfolding optimize
  optimize-windows s fuel windows e = rw (e, optimize) refl

  module _ (keeps : KeepsLength lib.ta) (aligned : IsAligned df) (rising : IsRising 0 df.index)
      (accepts : check_definition d ≡ true) (valid : validate_definition lib.ta d ≡ ok tt)
      (complete : missing df ≡ []) where
    window-Outcome :
        (w : WalkForwardWindow)
        → w.train_end ≤ w.test_start
        → FoundStudy w
        → Outcome {R = WindowOptimizationResult F}
            (TestFails w)
            (ForWindow df body_of some (λ r. r.window) TestFails IsFold w)
            (body_of w (train_of w df) (test_of w df))
    window-Outcome w h found =
        elim (optimize_single_split_lem lib parse study d search (some w) (train_of w df)
          (test_of w df) (trials_of w) (best_of w) (score_of w) keeps accepts valid
          (slice-IsAligned w.test_start w.test_end df aligned)
          (slice-IsRising w.test_start w.test_end df rising)
          (missing-slice w.test_start w.test_end df ∙ complete) found) [
            | inr (e, fails) ↦ inr (no_time, e, fails)
            | inl (r, e, searched) ↦ inl (
              r,
              e,
              (
                searched.of_window,
                record {
                  window = w;
                  searched = searched;
                  chosen = found.chosen;
                  separate = slices-IsBefore df w h;
                },
              ),
            )
          ]

    -- A strategy that passes its checks, a frame that is aligned, complete and in the order of time, a
    -- split with a step that is not zero, and for each window trials of which the study finds the best
    -- on its training slice, with parameters that `ta` takes, if it fits in the data and has rows to
    -- train and to test on: optimize has, for each of the first windows that fit and have rows, in
    -- order, the definition of the best of those trials, backtested on its training slice and on rows
    -- that are all after those. It raises a ValueError only if no window fits, and another exception
    -- only where the backtest of what a window with rows has found raises it on the test slice, for a
    -- curve without a number to measure a drawdown by. Fuel for two rounds more than the last
    -- timestamp is enough.
    pub optimize_lem :
        (s : Split) (data_start data_end : ℕ) (index : List ℕ)
        → 0 < step_of s
        → df.index ≡ data_start ∷ index
        → get_last? (data_start ∷ index) ≡ some data_end
        → ((k : ℕ)
            → (nth_window s data_start k).test_end ≤ data_end
            → is_full df (nth_window s data_start k) ≡ true
            → FoundStudy (nth_window s data_start k))
        → (n : ℕ) × (m : Result StrategyError (OptimizationResult F)) × All
            (λ w. w.test_end ≤ data_end)
            (tabulate n (nth_window s data_start))
          × (data_end < (nth_window s data_start n).test_end)
          × (optimize lib parse study s (suc (suc data_end)) d search df ≡ some m)
          × Folds (tabulate n (nth_window s data_start)) m
    unfolding nth_window
    optimize_lem s data_start data_end index pos starts ends studied =
        let (n, made, all, past) =
          generate_walk_forward_windows-nth s data_start data_end index pos ends in
        let windows = tabulate n (nth_window s data_start) in
        let fuel = suc (suc data_end) in
        let ran =
          over_windows-Outcome df body_of some (λ r. r.window) TestFails IsFold windows
            (All-tabulate _ _ (nth_window s data_start) 0 n all (λ k fits full.
              window-Outcome (nth_window s data_start k) (omega arith) (studied k fits full))) in
        (
          n,
          optimize_windows lib parse study d search df windows,
          all,
          past,
          optimize-windows s fuel windows (ap (generate_walk_forward_windows s fuel) starts ∙ made),
          optimize_windows-Folds windows ran,
        )
