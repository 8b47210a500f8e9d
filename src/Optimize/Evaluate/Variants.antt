-- ===== src/Optimize/Evaluate/Variants.antt =====
-- Ranking variants that pass their checks.
use mathlib.Core.List.{Perm}
use mathlib.Core.List.Perm
use freqpanda.Prelude.{
  String, ◌≡◌, refl, sym, ap, ◌∙◌, ◌⊎◌, inl, inr, true, false, Option, List, [], ◌∷◌, map, zip_with,
  All, Any, IsRising, subst,
}
use freqpanda.Prelude.Result.{ok, err}
use freqpanda.Prelude.Float.{Float, IsOrdered, is_nan}
use freqpanda.Strategy.Safety.{Takes}
use freqpanda.Strategy.Schema.{StrategyDefinition, check_definition}
use freqpanda.Strategy.Indicators.{Frame, StrategyError}
use freqpanda.Strategy.Validation.{validate_definition}
use freqpanda.Strategy.Interpreter.{missing}
use freqpanda.Strategy.Shape.{IsAligned}
use freqpanda.Strategy.Shape.Computed.{KeepsLength}
use freqpanda.Backtest.Engine.{Libraries, BacktestKwargs, BacktestResult, backtest, pair}
use freqpanda.Backtest.Engine.Accounts.{Unmeasured, backtest-Measures}
use freqpanda.Backtest.Metrics.{no_time}
use freqpanda.Backtest.Batch.{run_backtests_parallel}
use freqpanda.Optimize.Scoring.{MetricLike, worst_score}
use freqpanda.Optimize.Evaluate.{Ranking, sort_by, evaluate_variants}
use freqpanda.Optimize.Evaluate.Ranked.{
  HasMetric, IsRanked, IsKey, scored-HasKeys, sort_by-All, sort_by-perm, sort_by-Descending,
  Descending-IsRanked,
}

module _ {F : Type 0} ⦃fl : Float F⦄ (lib : Libraries F) (parse : String → Option F) (df : Frame F)
    (kwargs : BacktestKwargs F) where
  -- What the schema and the validation check, and that `ta` takes the parameters.
  abbrev pub Passes : StrategyDefinition F → Type 0
  Passes d =
      (check_definition d ≡ true)
      × (validate_definition lib.ta d ≡ ok tt)
      × Takes lib.ta d.indicators

  abbrev pub IsOwn : Ranking F → Type 0
  IsOwn p = backtest lib p.0 df kwargs ≡ ok p.1

  -- The backtest of one of the variants raises the exception.
  abbrev pub VariantFails : List (StrategyDefinition F) → StrategyError → Type 0
  VariantFails variants e = Any (λ d. Unmeasured lib d df kwargs e) variants

  record Batch (variants : List (StrategyDefinition F)) (results : List (BacktestResult F))
      : Type 0 where
    ran : run_backtests_parallel lib variants df kwargs ≡ ok results
    own : All IsOwn (zip_with pair variants results)
    names : map (λ p. p.0) (zip_with pair variants results) ≡ variants

  module _ (keeps : KeepsLength lib.ta) (aligned : IsAligned df) (rising : IsRising 0 df.index)
      (complete : missing df ≡ []) where
    run_backtests_parallel-Batch :
        (variants : List (StrategyDefinition F))
        → All Passes variants
        → ((results : List (BacktestResult F)) × Batch variants results)
          ⊎ ((e : StrategyError) × (run_backtests_parallel lib variants df kwargs ≡ err e)
              × VariantFails variants e)
    unfolding run_backtests_parallel
    run_backtests_parallel-Batch [] all = inl ([], record { ran = refl; own = tt; names = refl })
    run_backtests_parallel-Batch (d ∷ ds) (passes, all) =
        let rest = run_backtests_parallel-Batch ds all in
        elim (backtest-Measures lib d df kwargs keeps aligned rising passes.0 passes.1 complete
          passes.2) [
            | inr fails ↦ inr (no_time, rw fails.0 refl, inl fails)
            | inl (r, e) ↦ elim rest [
              | inr (x, failed, bad) ↦ inr (x, rw (e, failed) refl, inr bad)
              | inl (rs, b) ↦ inl (
                r ∷ rs,
                record { ran = rw (e, b.ran) refl; own = (e, b.own); names = ap (◌∷◌ d) b.names },
              )
            ]
          ]

    All-map_pairs :
        (P : Ranking F → Type 0) (keyed : List (F × Ranking F))
        → All P (map (λ e. e.1) keyed)
        → All (λ e. P e.1) keyed
    All-map_pairs P [] all = tt
    All-map_pairs P (e ∷ es) all = (all.0, All-map_pairs P es all.1)

    All-pairs_map :
        (P : Ranking F → Type 0) (keyed : List (F × Ranking F))
        → All (λ e. P e.1) keyed
        → All P (map (λ e. e.1) keyed)
    All-pairs_map P [] all = tt
    All-pairs_map P (e ∷ es) all = (all.0, All-pairs_map P es all.1)

    -- Over a frame that is aligned, complete and in the order of time, with variants that pass their
    -- checks and have parameters that `ta` takes, and a metric that every result has:
    -- evaluate_variants returns every variant once, each with its own backtest, and no variant scores
    -- better than one before it, where NaN scores worst; or it raises the exception that the backtest
    -- of one of the variants raises, for a curve without a number to measure a drawdown by.
    pub evaluate_variants_lem :
        (variants : List (StrategyDefinition F)) (metric : MetricLike F)
        → IsOrdered F
        → is_nan (worst_score lib.np) ≡ false
        → HasMetric lib parse metric
        → All Passes variants
        → ((pairs : List (Ranking F)) × (evaluate_variants lib parse variants df metric kwargs
              ≡ ok pairs)
            × Perm (map (λ p. p.0) pairs) variants
            × All IsOwn pairs
            × IsRanked lib parse metric pairs)
          ⊎ ((e : StrategyError) × (evaluate_variants lib parse variants df metric kwargs ≡ err e)
              × VariantFails variants e)
    unfolding evaluate_variants
    evaluate_variants_lem variants metric ordered worst has passes =
        elim (run_backtests_parallel-Batch variants passes) [
          | inr (x, failed, bad) ↦ inr (x, rw failed refl, bad)
          | inl (results, b) ↦
              let ps = zip_with pair variants results in
              let (keyed, s) = scored-HasKeys lib parse metric ps worst has in
              let sorted = sort_by lib parse keyed in
              let own = All-map_pairs IsOwn keyed (rw (sym s.pairs) at b.own) in
              let named : map (λ (e : F × Ranking F). e.1.0) keyed ≡ variants =
                names keyed ∙ ap (map (λ p. p.0)) s.pairs ∙ b.names in
              inl (
                map (λ e. e.1) sorted,
                rw (b.ran, s.ran) refl,
                subst (λ l. Perm (map (λ p. p.0) (map (λ e. e.1) sorted)) l) named
                    (rw (sym (names sorted))
                      (Perm.map (λ (e : F × Ranking F). e.1.0) (sort_by-perm lib parse keyed))),
                All-pairs_map IsOwn sorted (sort_by-All lib parse (λ e. IsOwn e.1) keyed own),
                Descending-IsRanked lib parse metric sorted
                    (sort_by-All lib parse (IsKey lib parse metric) keyed s.keys)
                    (sort_by-Descending lib parse ordered keyed s.numbers),
              )
        ]
      where
        names :
            (es : List (F × Ranking F))
            → map (λ (e : F × Ranking F). e.1.0) es ≡ map (λ p. p.0) (map (λ e. e.1) es)
        names [] = refl
        names (e ∷ es) = ap (◌∷◌ e.1.0) (names es)
