-- ===== src/Backtest/Walkforward/Runs.antt =====
-- freqpanda_backtest/walkforward.py: the backtests of a walk-forward split.
pub mod Slices
pub mod Separate
use freqpanda.Prelude.{
  ℕ, Bool, true, false, ◌&&◌, ◌||◌, Option, none, some, List, [], ◌∷◌, map, leb, ltb, if◌then◌else◌,
}
use freqpanda.Prelude.Result.{Result, ok, ◌>>=◌}
use freqpanda.Prelude.Dict.{map_values}
use freqpanda.Prelude.Float.{Float}
use freqpanda.Strategy.Schema.{StrategyDefinition, is_empty}
use freqpanda.Strategy.Indicators.{Frame, StrategyError}
use freqpanda.Backtest.Engine.{Libraries, BacktestKwargs, BacktestResult, backtest}
use freqpanda.Backtest.Walkforward.{WalkForwardWindow, Split, generate_walk_forward_windows}

pub record WalkForwardResult (F : Type 0) : Type 0 where
  pub window : WalkForwardWindow
  pub train_result : BacktestResult F
  pub test_result : BacktestResult F

-- The entries of a column on the rows that a mask selects.
abbrev pub keep {ℓ} : {A : Type ℓ} → List Bool → List A → List A
keep [] xs = []
keep (b ∷ bs) [] = []
keep (b ∷ bs) (x ∷ xs) = let rest = keep bs xs in if b then x ∷ rest else rest

-- (df.index >= first) & (df.index < last)
abbrev pub within : ℕ → ℕ → ℕ → Bool
within first last t = leb first t && ltb t last

-- df[(df.index >= first) & (df.index < last)]
unfoldable pub slice : {F : Type 0} → ℕ → ℕ → Frame F → Frame F
slice first last df =
    let mask = map (within first last) df.index in
    record { index = keep mask df.index; columns = map_values (keep mask) df.columns }

abbrev pub train_of : {F : Type 0} → WalkForwardWindow → Frame F → Frame F
train_of w = slice w.train_start w.train_end

abbrev pub test_of : {F : Type 0} → WalkForwardWindow → Frame F → Frame F
test_of w = slice w.test_start w.test_end

-- df.empty
abbrev pub empty : {F : Type 0} → Frame F → Bool
empty df = is_empty df.index || is_empty df.columns

-- The loop over windows that run_walk_forward and optimize share: a window with an empty slice is
-- skipped, and `body` runs on the two slices of any other.
unfoldable pub over_windows :
    {F R : Type 0}
    → (WalkForwardWindow → Frame F → Frame F → Result StrategyError R)
    → Frame F
    → List WalkForwardWindow
    → Result StrategyError (List R)
over_windows body df [] = ok []
over_windows body df (w ∷ ws) =
    let train = train_of w df in
    let test = test_of w df in
    let rest = over_windows body df ws in
    let run = (do result ← body w train test; results ← rest; ok (result ∷ results)) in
    if empty train || empty test then rest else run

module _ {F : Type 0} ⦃fl : Float F⦄ (lib : Libraries F) where
  unfoldable pub run_window :
      StrategyDefinition F
      → BacktestKwargs F
      → WalkForwardWindow
      → Frame F
      → Frame F
      → Result StrategyError (WalkForwardResult F)
  run_window d kwargs w train test = do
    train_result ← backtest lib d train kwargs
    test_result ← backtest lib d test kwargs
    ok (record { window = w; train_result = train_result; test_result = test_result })

  -- `none` is fuel of the windows that is spent.
  unfoldable pub run_walk_forward :
      Split
      → ℕ
      → StrategyDefinition F
      → Frame F
      → BacktestKwargs F
      → Option (Result StrategyError (List (WalkForwardResult F)))
  unfolding over_windows
  run_walk_forward s fuel d df kwargs = elim (generate_walk_forward_windows s fuel df.index) [
    | none ↦ none
    | some windows ↦ some (over_windows (run_window d kwargs) df windows)
  ]
