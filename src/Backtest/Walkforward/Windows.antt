-- ===== src/Backtest/Walkforward/Windows.antt =====
-- The windows of a walk-forward split, in a closed form.
use native.Mathlib.Nat.{suc-mul, zero-mul, le-mul_of_pos_right}
use freqpanda.Prelude.{
  ℕ, zero, suc, ◌+◌, ◌*◌, ◌≤◌, ◌<◌, ◌≡◌, refl, subst, ◌∙◌, ap₂, some, List, [], ◌∷◌, get_last?, ltb,
  arith, if◌then◌else◌, Bool-cases, inl, inr, tabulate, tabulate_from, All, ltb→lt, ltb→le,
}
use freqpanda.Backtest.Walkforward.{
  WalkForwardWindow, Split, step_of, prepend, windows_from, generate_walk_forward_windows,
}

-- The window of a number: the test begins a step later each time, and so does the training unless it
-- is anchored.
unfoldable pub nth_window : Split → ℕ → ℕ → WalkForwardWindow
nth_window s data_start k =
    let moved = k * step_of s in
    record {
      train_start = if s.anchored then data_start else data_start + moved;
      train_end = data_start + moved + s.train_period;
      test_start = data_start + moved + s.train_period;
      test_end = data_start + moved + s.train_period + s.test_period;
    }

abbrev Ends : Split → ℕ → ℕ → ℕ → ℕ → Type 0
Ends s data_start data_end k n =
    All (λ w. w.test_end ≤ data_end) (tabulate_from k n (nth_window s data_start))
    × (data_end < (nth_window s data_start (k + n)).test_end)

-- A round of the loop goes from one window to the next.
windows_from-round :
    (s : Split) (data_start data_end fuel k : ℕ)
    → let w = nth_window s data_start k in
      let next = nth_window s data_start (suc k) in
      windows_from s (suc fuel) data_end w.train_start w.train_end ≡ (
        if ltb data_end w.test_end
        then some []
        else prepend w (windows_from s fuel data_end next.train_start next.train_end))
unfolding windows_from nth_window
windows_from-round s data_start data_end fuel k =
    let w = nth_window s data_start k in
    let next = nth_window s data_start (suc k) in
    let moved = suc-mul k (step_of s) in
    let starts : (if s.anchored then w.train_start else w.train_start + step_of s)
        ≡ next.train_start =
      ground (arith, moved) in
    let ends : (if s.anchored
          then w.train_end + step_of s
          else (if s.anchored then w.train_start else w.train_start + step_of s) + s.train_period)
        ≡ next.train_end =
      ground (arith, moved) in
    ap₂
      (λ a b.
        if ltb data_end w.test_end then some [] else prepend w (windows_from s fuel data_end a b))
      starts ends

windows_from-nth :
    (s : Split) (data_start data_end : ℕ) (fuel k : ℕ)
    → 0 < step_of s
    → suc data_end < fuel + k
    → 0 < fuel
    → let w = nth_window s data_start k in
      (n : ℕ) × (windows_from s fuel data_end w.train_start w.train_end
        ≡ some (tabulate_from k n (nth_window s data_start)))
      × Ends s data_start data_end k n
unfolding nth_window
windows_from-nth s data_start data_end zero k pos h fuelled = absurd (omega arith)
windows_from-nth s data_start data_end (suc fuel) k pos h fuelled =
    let round = windows_from-round s data_start data_end fuel k in
    let far = le-mul_of_pos_right k pos in
    elim (Bool-cases (ltb data_end (nth_window s data_start k).test_end)) [
      | inl e ↦ (
        0,
        round ∙ rw e refl,
        (
          tt,
          subst (λ m. data_end < (nth_window s data_start m).test_end) (omega arith) (ltb→lt _ _ e),
        ),
      )
      | inr e ↦
          let (n, rest, (all, past)) =
            windows_from-nth s data_start data_end fuel (suc k) pos (omega arith)
              (omega (arith, far, ltb→le _ _ e)) in
          (
            suc n,
            round ∙ rw (e, rest) refl,
            (
              (ltb→le _ _ e, all),
              subst (λ m. data_end < (nth_window s data_start m).test_end) (omega arith) past,
            ),
          )
    ]

-- Over candles up to `data_end` and with a step that is not zero, the split gives the windows of the
-- numbers below some n, in order: all of them end within the data, and the next one does not. Fuel
-- for two rounds more than the last timestamp is enough.
pub generate_walk_forward_windows-nth :
    (s : Split) (data_start data_end : ℕ) (index : List ℕ)
    → 0 < step_of s
    → get_last? (data_start ∷ index) ≡ some data_end
    → (n : ℕ) × (generate_walk_forward_windows s (suc (suc data_end)) (data_start ∷ index)
        ≡ some (tabulate n (nth_window s data_start)))
      × All (λ w. w.test_end ≤ data_end) (tabulate n (nth_window s data_start))
      × (data_end < (nth_window s data_start n).test_end)
unfolding generate_walk_forward_windows nth_window
generate_walk_forward_windows-nth s data_start data_end index pos e =
    let (n, ran, (all, past)) =
      windows_from-nth s data_start data_end (suc (suc data_end)) 0 pos (omega arith)
        (omega arith) in
    (
      n,
      rw e (first ∙ ran),
      all,
      subst (λ m. data_end < (nth_window s data_start m).test_end) (omega arith) past,
    )
  where
    first :
        windows_from s (suc (suc data_end)) data_end data_start (data_start + s.train_period)
        ≡ windows_from s
            (suc (suc data_end))
            data_end
            (nth_window s data_start 0).train_start
            (nth_window s data_start 0).train_end
    first =
        ap₂ (windows_from s (suc (suc data_end)) data_end) (ground (arith, zero-mul (step_of s)))
          (ground (arith, zero-mul (step_of s)))
