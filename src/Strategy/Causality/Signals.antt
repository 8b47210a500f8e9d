-- ===== src/Strategy/Causality/Signals.antt =====
-- No lookahead in `compute_indicators` and in the signals, for indicators that look only backwards.
use freqpanda.Prelude.{
  ℕ, String, ◌≡◌, refl, sym, ◌∙◌, ap, Bool, true, false, Option, none, some, List, [], ◌∷◌, take,
  take-zip_with, take-map, All,
}
use freqpanda.Prelude.Result.{Result, ok, err, ◌>>=◌, map_ok}
use freqpanda.Prelude.Dict
use freqpanda.Prelude.Dict.{map_values, put-map_values, get-All}
use freqpanda.Prelude.Float.{Float}
use freqpanda.Strategy.Schema.{ConditionNode, IndicatorConfig, StrategyDefinition}
use freqpanda.Strategy.Indicators.{
  Ta, Frame, Params, Outputs, StrategyError, column_of, IndicatorHandler, indicator_registry,
  called, rsi, ema, sma, macd, bbands,
}
use freqpanda.Strategy.Conditions.{evaluate_condition}
use freqpanda.Strategy.Interpreter.{
  Row, Signals, assign, compute_indicators, rows_of, signals_of, exit_series, with_signals,
  apply_handler, with_prices, resolved,
}
use freqpanda.Strategy.Causality.{cut, column_of-cut, evaluate_condition-cut}

-- Every indicator of the library looks only at the rows so far.
pub record IsCausal {F : Type 0} (ta : Ta F) : Type 0 where
  pub rsi_cut : (n : ℕ) (w : F) (xs : List F) → ta.rsi w (take n xs) ≡ take n (ta.rsi w xs)
  pub ema_cut : (n : ℕ) (w : F) (xs : List F) → ta.ema w (take n xs) ≡ take n (ta.ema w xs)
  pub sma_cut : (n : ℕ) (w : F) (xs : List F) → ta.sma w (take n xs) ≡ take n (ta.sma w xs)
  pub macd_cut :
      (n : ℕ) (a b c : F) (xs : List F) → ta.macd a b c (take n xs) ≡ take n (ta.macd a b c xs)
  pub macd_signal_cut :
      (n : ℕ) (a b c : F) (xs : List F)
      → ta.macd_signal a b c (take n xs) ≡ take n (ta.macd_signal a b c xs)
  pub macd_diff_cut :
      (n : ℕ) (a b c : F) (xs : List F)
      → ta.macd_diff a b c (take n xs) ≡ take n (ta.macd_diff a b c xs)
  pub hband_cut :
      (n : ℕ) (w d : F) (xs : List F)
      → ta.bollinger_hband w d (take n xs) ≡ take n (ta.bollinger_hband w d xs)
  pub mavg_cut :
      (n : ℕ) (w d : F) (xs : List F)
      → ta.bollinger_mavg w d (take n xs) ≡ take n (ta.bollinger_mavg w d xs)
  pub lband_cut :
      (n : ℕ) (w d : F) (xs : List F)
      → ta.bollinger_lband w d (take n xs) ≡ take n (ta.bollinger_lband w d xs)

-- What a frame's close column gives, cut.
with_column-cut :
    {F : Type 0} (n : ℕ) (returns : Bool) (f g : List F → Outputs F)
    (r : Result StrategyError (List F))
    → ((xs : List F) → f (take n xs) ≡ map_values (take n) (g xs))
    → (map_ok (take n) r >>= λ xs. called returns (f xs))
      ≡ map_ok (map_values (take n)) (r >>= λ xs. called returns (g xs))
with_column-cut n true f g (ok xs) h = ap ok (h xs)
with_column-cut n false f g (ok xs) h = refl
with_column-cut n true f g (err e) h = refl
with_column-cut n false f g (err e) h = refl

module _ {F : Type 0} ⦃fl : Float F⦄ where
  abbrev pub IsCausalHandler : IndicatorHandler F → Type 0
  IsCausalHandler h =
      (n : ℕ) (df : Frame F) (alias : String) (params : Params F)
      → h.compute (cut n df) alias params ≡ map_ok (map_values (take n)) (h.compute df alias params)

  assign-cut :
      (n : ℕ) (outputs : Outputs F) (df : Frame F)
      → assign (map_values (take n) outputs) (cut n df) ≡ cut n (assign outputs df)
  unfolding assign
  assign-cut n [] df = refl
  assign-cut n ((name, series) ∷ rest) df =
      ap
        (λ columns.
          assign (map_values (take n) rest) (record { index = take n df.index; columns = columns }))
        (put-map_values (take n) name series df.columns)
      ∙ assign-cut n rest (record df { columns = Dict.put name series df.columns })

  assign_result-cut :
      (n : ℕ) (df : Frame F) (r : Result StrategyError (Outputs F))
      → (map_ok (map_values (take n)) r >>= λ outputs. ok (assign outputs (cut n df)))
        ≡ map_ok (cut n) (r >>= λ outputs. ok (assign outputs df))
  assign_result-cut n df (ok outputs) = ap ok (assign-cut n outputs df)
  assign_result-cut n df (err e) = refl

  then-cut :
      (n : ℕ) (next : Frame F → Result StrategyError (Frame F))
      → ((df : Frame F) → next (cut n df) ≡ map_ok (cut n) (next df))
      → (r : Result StrategyError (Frame F))
      → (map_ok (cut n) r >>= next) ≡ map_ok (cut n) (r >>= next)
  then-cut n next h (ok df) = h df
  then-cut n next h (err e) = refl

  module _ (ta : Ta F) (causal : IsCausal ta) where
    handlers_causal : All (λ e. IsCausalHandler e.1) (indicator_registry ta)
    unfolding indicator_registry rsi ema sma macd bbands
    handlers_causal = (
      λ n df alias params. rw column_of-cut (with_column-cut n _ _ _ _ (λ xs. simp causal.rsi_cut)),
      (
        λ n df alias params.
            rw column_of-cut (with_column-cut n _ _ _ _ (λ xs. simp causal.ema_cut)),
        (
          λ n df alias params.
              rw column_of-cut (with_column-cut n _ _ _ _ (λ xs. simp causal.sma_cut)),
          (
            λ n df alias params. rw column_of-cut (
                with_column-cut n _ _ _ _
                  (λ xs. simp (causal.macd_cut, causal.macd_signal_cut, causal.macd_diff_cut))),
            (
              λ n df alias params. rw column_of-cut (
                  with_column-cut n _ _ _ _
                    (λ xs. simp (causal.hband_cut, causal.mavg_cut, causal.lband_cut))),
              tt,
            ),
          ),
        ),
      ),
    )

    apply_handler-cut :
        (ind : IndicatorConfig F) (n : ℕ) (df : Frame F) (handler : Option (IndicatorHandler F))
        → ((h : IndicatorHandler F) → handler ≡ some h → IsCausalHandler h)
        → apply_handler ta ind (cut n df) handler ≡ map_ok (cut n) (apply_handler ta ind df handler)
    apply_handler-cut ind n df none all = refl
    apply_handler-cut ind n df (some h) all =
        ap (λ r. r >>= λ outputs. ok (assign outputs (cut n df)))
          (all h refl n df ind.alias (resolved ta ind))
        ∙ assign_result-cut n df (h.compute df ind.alias (resolved ta ind))

    pub compute_indicators-cut :
        (inds : List (IndicatorConfig F)) (n : ℕ) (df : Frame F)
        → compute_indicators ta (cut n df) inds ≡ map_ok (cut n) (compute_indicators ta df inds)
    unfolding compute_indicators
    compute_indicators-cut [] n df = refl
    compute_indicators-cut (ind ∷ inds) n df =
        ap (λ r. r >>= λ df'. compute_indicators ta df' inds)
          (apply_handler-cut ind n df (Dict.get ind.name (indicator_registry ta))
            (λ h. get-All IsCausalHandler ind.name (indicator_registry ta) h handlers_causal))
        ∙ then-cut n (λ df'. compute_indicators ta df' inds)
            (λ df'. compute_indicators-cut inds n df')
            (apply_handler ta ind df (Dict.get ind.name (indicator_registry ta)))

  -- The rows from the four price columns, and the signals from the rows.
  abbrev rows_from :
      List ℕ
      → (opens highs lows closes : Result StrategyError (List F))
      → Result StrategyError (List (Row F))
  rows_from index opens highs lows closes = do
    o ← opens
    h ← highs
    l ← lows
    c ← closes
    ok (with_prices index o h l c)

  rows_from-cut :
      (n : ℕ) (index : List ℕ) (o h l c : Result StrategyError (List F))
      → rows_from
          (take n index)
          (map_ok (take n) o)
          (map_ok (take n) h)
          (map_ok (take n) l)
          (map_ok (take n) c)
        ≡ map_ok (take n) (rows_from index o h l c)
  rows_from-cut n index (ok o) (ok h) (ok l) (ok c) = simp take-zip_with
  rows_from-cut n index (ok o) (ok h) (ok l) (err e) = refl
  rows_from-cut n index (ok o) (ok h) (err e) c = refl
  rows_from-cut n index (ok o) (err e) l c = refl
  rows_from-cut n index (err e) h l c = refl

  rows_of-cut : (n : ℕ) (df : Frame F) → rows_of (cut n df) ≡ map_ok (take n) (rows_of df)
  unfolding rows_of
  rows_of-cut n df = simp column_of-cut (
      rows_from-cut n df.index (column_of df "open") (column_of df "high") (column_of df "low")
        (column_of df "close"))

  exit_series-cut :
      (c : Option (ConditionNode F)) (n : ℕ) (df : Frame F)
      → exit_series c (cut n df) ≡ map_ok (take n) (exit_series c df)
  exit_series-cut none n df = ap ok (sym (take-map (λ _. false) n df.index))
  exit_series-cut (some c) n df = evaluate_condition-cut c n df

  abbrev signals_from :
      (entries exits : Result StrategyError (List Bool))
      (rows : Result StrategyError (List (Row F)))
      → Result StrategyError (List (Signals F))
  signals_from entries exits rows = do e ← entries; x ← exits; r ← rows; ok (with_signals r e x)

  signals_from-cut :
      (n : ℕ) (e x : Result StrategyError (List Bool)) (r : Result StrategyError (List (Row F)))
      → signals_from (map_ok (take n) e) (map_ok (take n) x) (map_ok (take n) r)
        ≡ map_ok (take n) (signals_from e x r)
  signals_from-cut n (ok e) (ok x) (ok r) = simp take-zip_with
  signals_from-cut n (ok e) (ok x) (err f) = refl
  signals_from-cut n (ok e) (err f) r = refl
  signals_from-cut n (err f) x r = refl

  -- The signals of the first n rows are the first n of the signals of all rows.
  pub signals_of-cut :
      (d : StrategyDefinition F) (n : ℕ) (df : Frame F)
      → signals_of d (cut n df) ≡ map_ok (take n) (signals_of d df)
  unfolding signals_of
  signals_of-cut d n df =
      rw (evaluate_condition-cut, exit_series-cut, rows_of-cut)
        (signals_from-cut n (evaluate_condition d.entry_conditions df)
          (exit_series d.exit_conditions df) (rows_of df))
