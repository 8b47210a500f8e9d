-- ===== src/Backtest/Walkforward.antt =====
-- freqpanda_backtest/walkforward.py: the windows. Timestamps and periods are in one unit of time, and
-- periods are not negative.
pub mod Windows
pub mod Runs
use freqpanda.Prelude.{
  ℕ, zero, suc, ◌+◌, Bool, Option, none, some, List, [], ◌∷◌, get_last?, ltb, if◌then◌else◌,
}

pub record WalkForwardWindow : Type 0 where
  pub train_start : ℕ
  pub train_end : ℕ
  pub test_start : ℕ
  pub test_end : ℕ

-- The arguments of generate_walk_forward_windows, without the index.
pub record Split : Type 0 where
  pub train_period : ℕ
  pub test_period : ℕ
  pub step : Option ℕ
  pub anchored : Bool

-- `step` after its default
abbrev pub step_of : Split → ℕ
step_of s = elim s.step [ none ↦ s.test_period | some step ↦ step ]

abbrev pub prepend {ℓ} : {A : Type ℓ} → A → Option (List A) → Option (List A)
prepend x none = none
prepend x (some xs) = some (x ∷ xs)

-- The loop, from the two variables that it changes; `none` is fuel that is spent.
unfoldable pub windows_from :
    Split → (fuel data_end train_start train_end : ℕ) → Option (List WalkForwardWindow)
windows_from s zero data_end train_start train_end = none
windows_from s (suc fuel) data_end train_start train_end =
    let test_start = train_end in
    let test_end = test_start + s.test_period in
    let next_start = if s.anchored then train_start else train_start + step_of s in
    let next_end = if s.anchored then train_end + step_of s else next_start + s.train_period in
    let rest = windows_from s fuel data_end next_start next_end in
    if ltb data_end test_end
    then some []
    else prepend
        (record {
          train_start = train_start;
          train_end = train_end;
          test_start = test_start;
          test_end = test_end;
        })
        rest

abbrev pub windows_between : Split → ℕ → ℕ → Option ℕ → Option (List WalkForwardWindow)
windows_between s fuel data_start none = some []
windows_between s fuel data_start (some data_end) =
    windows_from s fuel data_end data_start (data_start + s.train_period)

unfoldable pub generate_walk_forward_windows : Split → ℕ → List ℕ → Option (List WalkForwardWindow)
unfolding windows_from
generate_walk_forward_windows s fuel [] = some []
generate_walk_forward_windows s fuel (t ∷ index) = windows_between s fuel t (get_last? (t ∷ index))
