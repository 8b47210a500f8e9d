-- ===== src/Backtest/Walkforward/Runs/Separate.antt =====
-- The results of a walk-forward split: which windows have one, and what separates training and test.
use freqpanda.Prelude.{
  ℕ, zero, suc, ◌≤◌, ◌<◌, ◌≡◌, refl, ap, ◌∙◌, ◌⊎◌, inl, inr, Bool, true, not, ◌||◌, some, List, [],
  ◌∷◌, map, All, Any, IsRising, get_last?, tabulate, tabulate_from, arith, Bool-cases,
}
use freqpanda.Prelude.Result.{Result, ok, err}
use freqpanda.Prelude.Float.{Float}
use freqpanda.Strategy.Safety.{Takes}
use freqpanda.Strategy.Schema.{StrategyDefinition, check_definition}
use freqpanda.Strategy.Indicators.{Frame, StrategyError}
use freqpanda.Strategy.Validation.{validate_definition}
use freqpanda.Strategy.Interpreter.{missing}
use freqpanda.Strategy.Shape.{IsAligned}
use freqpanda.Strategy.Shape.Computed.{KeepsLength}
use freqpanda.Backtest.Metrics.{select, no_time}
use freqpanda.Backtest.Engine.{Libraries, BacktestKwargs, BacktestResult, backtest}
use freqpanda.Backtest.Engine.Accounts.{Unmeasured, backtest-Measures}
use freqpanda.Backtest.Walkforward.{
  WalkForwardWindow, Split, step_of, generate_walk_forward_windows,
}
use freqpanda.Backtest.Walkforward.Windows.{nth_window, generate_walk_forward_windows-nth}
use freqpanda.Backtest.Walkforward.Runs.{
  WalkForwardResult, slice, train_of, test_of, empty, over_windows, run_window, run_walk_forward,
}
use freqpanda.Backtest.Walkforward.Runs.Slices.{
  InRange, slice-IsAligned, slice-IsRising, missing-slice, slice-InRange,
}

-- A call that returns a value with a property, or raises an exception of a kind.
abbrev pub Outcome {ℓ} :
    {R : Type 0} → (StrategyError → Type 0) → (R → Type ℓ) → Result StrategyError R → Type ℓ
Outcome {R = R} Bad P m = ((r : R) × (m ≡ ok r) × P r) ⊎ ((e : StrategyError) × (m ≡ err e) × Bad e)

-- The windows whose slices both have rows.
abbrev pub is_full : {F : Type 0} → Frame F → WalkForwardWindow → Bool
is_full df w = not (empty (train_of w df) || empty (test_of w df))

-- One of the full windows is to blame for an exception.
abbrev pub Blames :
    {F : Type 0}
    → Frame F
    → (WalkForwardWindow → StrategyError → Type 0)
    → List WalkForwardWindow
    → StrategyError
    → Type 0
Blames df Bad ws e = Any (λ w. (is_full df w ≡ true) × Bad w e) ws

-- `window_of` is what a result keeps of its window, and `tag` makes that of a window.
module _ {F R X : Type 0} (df : Frame F)
    (body : WalkForwardWindow → Frame F → Frame F → Result StrategyError R)
    (tag : WalkForwardWindow → X) (window_of : R → X)
    (Bad : WalkForwardWindow → StrategyError → Type 0) (P : R → Type 0) where
  abbrev pub ForWindow : WalkForwardWindow → R → Type 0
  ForWindow w r = (window_of r ≡ tag w) × P r

  abbrev pub ForWindows : List WalkForwardWindow → List R → Type 0
  ForWindows ws rs = (map window_of rs ≡ map tag (select (is_full df) ws)) × All P rs

  -- The loop over windows gives one result for each full window, in order, or the exception of one.
  pub over_windows-Outcome :
      (ws : List WalkForwardWindow)
      → All
          (λ w.
            is_full df w ≡ true
            → Outcome (Bad w) (ForWindow w) (body w (train_of w df) (test_of w df)))
          ws
      → Outcome (Blames df Bad ws) (ForWindows ws) (over_windows body df ws)
  unfolding over_windows
  over_windows-Outcome [] all = inl ([], refl, (refl, tt))
  over_windows-Outcome (w ∷ ws) all =
      let rest = over_windows-Outcome ws all.1 in
      elim (Bool-cases (empty (train_of w df) || empty (test_of w df))) [
        | inl e ↦
            rw e (elim rest [
              | inl found ↦ inl found
              | inr (x, failed, bad) ↦ inr (x, failed, inr bad)
            ])
        | inr e ↦ rw e (elim (all.0 (rw e refl)) [
          | inr (x, failed, bad) ↦ inr (x, rw failed refl, inl (refl, bad))
          | inl (r, ran, good) ↦ elim rest [
            | inr (x, failed, bad) ↦ inr (x, rw (ran, failed) refl, inr bad)
            | inl (rs, later, all_good) ↦ inl (
              r ∷ rs,
              rw (ran, later) refl,
              (rw good.0 (ap (◌∷◌ (tag w)) all_good.0), (good.1, all_good.1)),
            )
          ]
        ])
      ]

map_same : (ws : List WalkForwardWindow) → map (λ w. w) ws ≡ ws
map_same [] = refl
map_same (w ∷ ws) = ap (◌∷◌ w) (map_same ws)

-- Every row of the one comes before every row of the other.
abbrev pub IsBefore : List ℕ → List ℕ → Type 0
IsBefore earlier later = All (λ t. All (λ u. t < u) later) earlier

before-All :
    (t first last : ℕ) (later : List ℕ)
    → t < first
    → All (InRange first last) later
    → All (λ u. t < u) later
before-All t first last [] h all = tt
before-All t first last (u ∷ later) h all =
    (omega (arith, all.0.0), before-All t first last later h all.1)

InRange-IsBefore :
    (a b c d : ℕ) (earlier later : List ℕ)
    → b ≤ c
    → All (InRange a b) earlier
    → All (InRange c d) later
    → IsBefore earlier later
InRange-IsBefore a b c d [] later h xs ys = tt
InRange-IsBefore a b c d (t ∷ earlier) later h xs ys = (
  before-All t c d later (omega (arith, xs.0.1)) ys,
  InRange-IsBefore a b c d earlier later h xs.1 ys,
)

-- The training rows of a window come before its test rows.
pub slices-IsBefore :
    {F : Type 0} (df : Frame F) (w : WalkForwardWindow)
    → w.train_end ≤ w.test_start
    → IsBefore (train_of w df).index (test_of w df).index
slices-IsBefore df w h =
    InRange-IsBefore w.train_start w.train_end w.test_start w.test_end _ _ h
      (slice-InRange w.train_start w.train_end df) (slice-InRange w.test_start w.test_end df)

pub All-tabulate {ℓ κ} :
    {A : Type 0} (Q : A → Type κ) (P : A → Type ℓ) (f : ℕ → A) (i n : ℕ)
    → All Q (tabulate_from i n f)
    → ((k : ℕ) → Q (f k) → P (f k))
    → All P (tabulate_from i n f)
All-tabulate Q P f i zero all h = tt
All-tabulate Q P f i (suc n) all h = (h i all.0, All-tabulate Q P f (suc i) n all.1 h)

module _ {F : Type 0} ⦃fl : Float F⦄ (lib : Libraries F) (d : StrategyDefinition F) (df : Frame F)
    (kwargs : BacktestKwargs F) where
  -- A result of a window: the two backtests of its slices, the training before the test.
  pub record IsWindowRun (r : WalkForwardResult F) : Type 0 where
    pub trained : backtest lib d (train_of r.window df) kwargs ≡ ok r.train_result
    pub tested : backtest lib d (test_of r.window df) kwargs ≡ ok r.test_result
    pub separate : IsBefore (train_of r.window df).index (test_of r.window df).index

  -- The backtest of a slice of the window has no drawdown to measure.
  abbrev pub SliceFails : WalkForwardWindow → StrategyError → Type 0
  SliceFails w e =
      Unmeasured lib d (train_of w df) kwargs e ⊎ Unmeasured lib d (test_of w df) kwargs e

  module _ (keeps : KeepsLength lib.ta) (aligned : IsAligned df) (rising : IsRising 0 df.index)
      (accepts : check_definition d ≡ true) (valid : validate_definition lib.ta d ≡ ok tt)
      (complete : missing df ≡ []) (takes : Takes lib.ta d.indicators) where
    slice-Measures :
        (first last : ℕ)
        → ((r : BacktestResult F) × (backtest lib d (slice first last df) kwargs ≡ ok r))
          ⊎ Unmeasured lib d (slice first last df) kwargs no_time
    slice-Measures first last =
        backtest-Measures lib d (slice first last df) kwargs keeps
          (slice-IsAligned first last df aligned) (slice-IsRising first last df rising) accepts
          valid (missing-slice first last df ∙ complete) takes

    run_window-Outcome :
        (w : WalkForwardWindow)
        → w.train_end ≤ w.test_start
        → Outcome {R = WalkForwardResult F}
            (SliceFails w)
            (λ r. (r.window ≡ w) × IsWindowRun r)
            (run_window lib d kwargs w (train_of w df) (test_of w df))
    unfolding run_window
    run_window-Outcome w h = elim (slice-Measures w.train_start w.train_end) [
      | inr fails ↦ inr (no_time, rw fails.0 refl, inl fails)
      | inl (a, trained) ↦ elim (slice-Measures w.test_start w.test_end) [
        | inr fails ↦ inr (no_time, rw (trained, fails.0) refl, inr fails)
        | inl (b, tested) ↦ inl (
          record { window = w; train_result = a; test_result = b },
          rw (trained, tested) refl,
          (refl, record { trained = trained; tested = tested; separate = slices-IsBefore df w h }),
        )
      ]
    ]

    run_walk_forward-windows :
        (s : Split) (fuel : ℕ) (windows : List WalkForwardWindow)
        → generate_walk_forward_windows s fuel df.index ≡ some windows
        → run_walk_forward lib s fuel d df kwargs
          ≡ some (over_windows (run_window lib d kwargs) df windows)
    unfolding run_walk_forward
    run_walk_forward-windows s fuel windows e = rw (e, run_walk_forward) refl

    -- A strategy that passes its checks, with indicators whose parameters `ta` takes, over a complete
    -- and aligned frame in the order of time, and a split with a step that is not zero:
    -- run_walk_forward has, for each of the first windows that fit in the data and have rows to train
    -- and to test on, in order, the backtests of their two slices, and every row of the training comes
    -- before every row of the test. It raises an exception only where one of those windows has a slice
    -- whose backtest raises it, for a curve without a number to measure a drawdown by. Fuel for two
    -- rounds more than the last timestamp is enough.
    pub run_walk_forward_lem :
        (s : Split) (data_start data_end : ℕ) (index : List ℕ)
        → 0 < step_of s
        → df.index ≡ data_start ∷ index
        → get_last? (data_start ∷ index) ≡ some data_end
        → (n : ℕ) × All (λ w. w.test_end ≤ data_end) (tabulate n (nth_window s data_start))
          × (data_end < (nth_window s data_start n).test_end)
          × (((results : List (WalkForwardResult F)) × (run_walk_forward lib s
                    (suc (suc data_end))
                    d
                    df
                    kwargs
                  ≡ some (ok results))
                × (map (λ r. r.window) results
                    ≡ select (is_full df) (tabulate n (nth_window s data_start)))
                × All IsWindowRun results)
              ⊎ ((e : StrategyError) × (run_walk_forward lib s (suc (suc data_end)) d df kwargs
                    ≡ some (err e))
                  × Blames df SliceFails (tabulate n (nth_window s data_start)) e))
    unfolding nth_window
    run_walk_forward_lem s data_start data_end index pos starts ends =
        let (n, made, all, past) =
          generate_walk_forward_windows-nth s data_start data_end index pos ends in
        let windows = tabulate n (nth_window s data_start) in
        let fuel = suc (suc data_end) in
        let unrolled =
          run_walk_forward-windows s fuel windows
            (ap (generate_walk_forward_windows s fuel) starts ∙ made) in
        let ran =
          over_windows-Outcome df (run_window lib d kwargs) (λ w. w) (λ r. r.window) SliceFails
            IsWindowRun windows
            (All-tabulate _ _ (nth_window s data_start) 0 n all
              (λ k fits full. run_window-Outcome (nth_window s data_start k) (omega arith))) in
        (
          n,
          all,
          past,
          elim ran [
            | inl (results, e, (same, good)) ↦
                inl (results, unrolled ∙ rw e refl, same ∙ map_same _, good)
            | inr (x, e, bad) ↦ inr (x, unrolled ∙ rw e refl, bad)
          ],
        )
