-- ===== src/Optimize/Evaluate/Ranked.antt =====
-- The ranking of variants: all of them, each with its own backtest, the best score first.
use mathlib.Core.List.{Perm}
use mathlib.Core.List.Perm
use freqpanda.Prelude.{
  String, ◌≡◌, refl, ap, inl, inr, false, Option, List, [], ◌∷◌, map, All, Bool-cases,
}
use freqpanda.Prelude.Result.{Result, ok}
use freqpanda.Prelude.Float.{Float, IsOrdered, is_nan}
use freqpanda.Strategy.Indicators.{StrategyError}
use freqpanda.Backtest.Metrics.Extreme.{not_lt_asym, not_lt_trans}
use freqpanda.Backtest.Engine.{Libraries, BacktestResult}
use freqpanda.Optimize.Scoring.{MetricLike, score_from_result, value_of, worst_score}
use freqpanda.Optimize.Evaluate.{Ranking, scored, insert_by, sort_by}

module _ {F : Type 0} ⦃fl : Float F⦄ (lib : Libraries F) (parse : String → Option F) where
  open fl use {lt}

  -- A metric that is a number, or NaN, of every result.
  abbrev pub HasMetric : MetricLike F → Type 0
  HasMetric metric = (r : BacktestResult F) → (v : F) × (value_of parse r metric ≡ ok v)

  abbrev pub score : MetricLike F → BacktestResult F → Result StrategyError F
  score metric r = score_from_result lib.np parse r metric

  pub score_from_result-number :
      (metric : MetricLike F) (r : BacktestResult F)
      → is_nan (worst_score lib.np) ≡ false
      → HasMetric metric
      → (v : F) × (score metric r ≡ ok v) × (is_nan v ≡ false)
  unfolding score_from_result
  score_from_result-number metric r worst has =
      let (v, e) = has r in
      elim (Bool-cases (is_nan v)) [
        | inl n ↦ (worst_score lib.np, rw (e, n) refl, worst)
        | inr n ↦ (v, rw (e, n) refl, n)
      ]

  -- No later pair has a better score.
  abbrev pub IsRanked : MetricLike F → List (Ranking F) → Type 0
  IsRanked metric [] = Unit
  IsRanked metric (p ∷ ps) =
      All (λ q. (x y : F) → score metric p.1 ≡ ok x → score metric q.1 ≡ ok y → lt x y ≡ false) ps
      × IsRanked metric ps

  abbrev pub Descending : List (F × Ranking F) → Type 0
  Descending [] = Unit
  Descending (e ∷ es) = All (λ f. lt e.0 f.0 ≡ false) es × Descending es

  abbrev pub Numbers : List (F × Ranking F) → Type 0
  Numbers = All (λ e. is_nan e.0 ≡ false)

  insert_by-All :
      (P : F × Ranking F → Type 0) (e : F × Ranking F) (es : List (F × Ranking F))
      → P e
      → All P es
      → All P (insert_by lib parse e es)
  unfolding insert_by
  insert_by-All P e [] p all = (p, tt)
  insert_by-All P e (f ∷ es) p all = elim (Bool-cases (lt e.0 f.0)) [
    | inl h ↦ rw h (all.0, insert_by-All P e es p all.1)
    | inr h ↦ rw h (p, all)
  ]

  pub sort_by-All :
      (P : F × Ranking F → Type 0) (es : List (F × Ranking F))
      → All P es
      → All P (sort_by lib parse es)
  unfolding sort_by
  sort_by-All P [] all = tt
  sort_by-All P (e ∷ es) all =
      insert_by-All P e (sort_by lib parse es) all.0 (sort_by-All P es all.1)

  insert_by-perm :
      (e : F × Ranking F) (es : List (F × Ranking F)) → Perm (insert_by lib parse e es) (e ∷ es)
  unfolding insert_by
  insert_by-perm e [] = Perm.refl (e ∷ [])
  insert_by-perm e (f ∷ es) = elim (Bool-cases (lt e.0 f.0)) [
    | inl h ↦ rw h (Perm.trans (Perm.cons f (insert_by-perm e es)) (Perm.swap e f es))
    | inr h ↦ rw h (Perm.refl (e ∷ f ∷ es))
  ]

  pub sort_by-perm : (es : List (F × Ranking F)) → Perm (sort_by lib parse es) es
  unfolding sort_by
  sort_by-perm [] = Perm.refl []
  sort_by-perm (e ∷ es) =
      Perm.trans (insert_by-perm e (sort_by lib parse es)) (Perm.cons e (sort_by-perm es))

  module _ (ordered : IsOrdered F) where
    below-All :
        (e f : F × Ranking F) (es : List (F × Ranking F))
        → is_nan f.0 ≡ false
        → lt e.0 f.0 ≡ false
        → All (λ g. lt f.0 g.0 ≡ false) es
        → All (λ g. lt e.0 g.0 ≡ false) es
    below-All e f [] n h all = tt
    below-All e f (g ∷ es) n h all =
        (not_lt_trans ordered e.0 f.0 g.0 n h all.0, below-All e f es n h all.1)

    insert_by-Descending :
        (e : F × Ranking F) (es : List (F × Ranking F))
        → Numbers es
        → Descending es
        → Descending (insert_by lib parse e es)
    unfolding insert_by
    insert_by-Descending e [] numbers desc = (tt, tt)
    insert_by-Descending e (f ∷ es) numbers desc = elim (Bool-cases (lt e.0 f.0)) [
      | inl h ↦ rw h (
        insert_by-All (λ g. lt f.0 g.0 ≡ false) e es (not_lt_asym ordered e.0 f.0 h) desc.0,
        insert_by-Descending e es numbers.1 desc.1,
      )
      | inr h ↦ rw h ((h, below-All e f es numbers.0 h desc.0), desc)
    ]

    pub sort_by-Descending :
        (es : List (F × Ranking F)) → Numbers es → Descending (sort_by lib parse es)
    unfolding sort_by
    sort_by-Descending [] numbers = tt
    sort_by-Descending (e ∷ es) numbers =
        insert_by-Descending e (sort_by lib parse es)
          (sort_by-All (λ e. is_nan e.0 ≡ false) es numbers.1) (sort_by-Descending es numbers.1)

  module _ (metric : MetricLike F) where
    abbrev pub IsKey : F × Ranking F → Type 0
    IsKey e = score metric e.1.1 ≡ ok e.0

    pub Descending-IsRanked :
        (es : List (F × Ranking F))
        → All IsKey es
        → Descending es
        → IsRanked metric (map (λ e. e.1) es)
    Descending-IsRanked [] keys desc = tt
    Descending-IsRanked (e ∷ es) keys desc =
        (later e es keys.0 keys.1 desc.0, Descending-IsRanked es keys.1 desc.1)
      where
        later :
            (e : F × Ranking F) (fs : List (F × Ranking F))
            → IsKey e
            → All IsKey fs
            → All (λ f. lt e.0 f.0 ≡ false) fs
            → All
                (λ q.
                  (x y : F) → score metric e.1.1 ≡ ok x → score metric q.1 ≡ ok y → lt x y ≡ false)
                (map (λ e. e.1) fs)
        later e [] k ks all = tt
        later e (f ∷ fs) k ks all = (λ x y ex ey. cc, later e fs k ks.1 all.1)

    pub record HasKeys (ps : List (Ranking F)) (keyed : List (F × Ranking F)) : Type 0 where
      pub ran : scored lib parse metric ps ≡ ok keyed
      pub pairs : map (λ e. e.1) keyed ≡ ps
      pub keys : All IsKey keyed
      pub numbers : Numbers keyed

    pub scored-HasKeys :
        (ps : List (Ranking F))
        → is_nan (worst_score lib.np) ≡ false
        → HasMetric metric
        → (keyed : List (F × Ranking F)) × HasKeys ps keyed
    unfolding scored
    scored-HasKeys [] worst has = ([], record { ran = refl; pairs = refl; keys = tt; numbers = tt })
    scored-HasKeys (p ∷ ps) worst has =
        let (x, e, n) = score_from_result-number metric p.1 worst has in
        let (keyed, s) = scored-HasKeys ps worst has in
        (
          (x, p) ∷ keyed,
          record {
            ran = rw (e, s.ran) refl;
            pairs = ap (◌∷◌ p) s.pairs;
            keys = (e, s.keys);
            numbers = (n, s.numbers);
          },
        )
