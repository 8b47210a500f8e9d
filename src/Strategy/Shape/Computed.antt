-- ===== src/Strategy/Shape/Computed.antt =====
-- `compute_indicators` keeps the rows of a frame, and the signals are one for each row.
use freqpanda.Prelude.{
  ℕ, String, ◌≡◌, refl, sym, ◌∙◌, Bool, true, false, Option, none, some, List, [], ◌∷◌, length, All,
  length-map, length-zip_with,
}
use freqpanda.Prelude.Result.{ok, ◌>>=◌, IfOk, IfOk-bind}
use freqpanda.Prelude.Dict
use freqpanda.Prelude.Dict.{get-All, put-All}
use freqpanda.Prelude.Float.{Float}
use freqpanda.Strategy.Schema.{ConditionNode, IndicatorConfig, StrategyDefinition}
use freqpanda.Strategy.Indicators.{
  Ta, Frame, Params, Outputs, column_of, IndicatorHandler, indicator_registry, called, rsi, ema,
  sma, macd, bbands,
}
use freqpanda.Strategy.Conditions.{evaluate_condition}
use freqpanda.Strategy.Interpreter.{
  assign, compute_indicators, rows_of, signals_of, exit_series, apply_handler, with_prices,
  resolved, row, signalled_row,
}
use freqpanda.Strategy.Shape.{IsAligned, column_of-IfOk, evaluate_condition-IfOk}

-- Every indicator of the library gives a series as long as its input.
pub record KeepsLength {F : Type 0} (ta : Ta F) : Type 0 where
  pub rsi_length : (w : F) (xs : List F) → length (ta.rsi w xs) ≡ length xs
  pub ema_length : (w : F) (xs : List F) → length (ta.ema w xs) ≡ length xs
  pub sma_length : (w : F) (xs : List F) → length (ta.sma w xs) ≡ length xs
  pub macd_length : (a b c : F) (xs : List F) → length (ta.macd a b c xs) ≡ length xs
  pub macd_signal_length : (a b c : F) (xs : List F) → length (ta.macd_signal a b c xs) ≡ length xs
  pub macd_diff_length : (a b c : F) (xs : List F) → length (ta.macd_diff a b c xs) ≡ length xs
  pub hband_length : (w d : F) (xs : List F) → length (ta.bollinger_hband w d xs) ≡ length xs
  pub mavg_length : (w d : F) (xs : List F) → length (ta.bollinger_mavg w d xs) ≡ length xs
  pub lband_length : (w d : F) (xs : List F) → length (ta.bollinger_lband w d xs) ≡ length xs

abbrev OfLength : {F : Type 0} → ℕ → Outputs F → Type 0
OfLength n = All (λ o. length o.1 ≡ n)

assign-IsAligned :
    {F : Type 0} (n : ℕ) (outputs : Outputs F) (df : Frame F)
    → length df.index ≡ n
    → IsAligned df
    → OfLength n outputs
    → ((assign outputs df).index ≡ df.index) × IsAligned (assign outputs df)
unfolding assign
assign-IsAligned n [] df e h all = (refl, h)
assign-IsAligned n ((name, series) ∷ rest) df e h all =
    assign-IsAligned n rest (record df { columns = Dict.put name series df.columns }) e
      (put-All (λ s. length s ≡ length df.index) name series df.columns (all.0 ∙ sym e) h) all.1

module _ {F : Type 0} ⦃fl : Float F⦄ where
  abbrev IsEven : IndicatorHandler F → Type 0
  IsEven h =
      (df : Frame F) (alias : String) (params : Params F)
      → IsAligned df
      → IfOk (OfLength (length df.index)) (h.compute df alias params)

  from_close :
      (df : Frame F) (returns : Bool) (f : List F → Outputs F)
      → IsAligned df
      → ((xs : List F) → length xs ≡ length df.index → OfLength (length df.index) (f xs))
      → IfOk (OfLength (length df.index)) (column_of df "close" >>= λ xs. called returns (f xs))
  from_close df true f h p =
      IfOk-bind (λ xs. length xs ≡ length df.index) _ (column_of df "close") (λ xs. ok (f xs))
        (column_of-IfOk df "close" h) p
  from_close df false f h p =
      IfOk-bind (λ xs. length xs ≡ length df.index) _ (column_of df "close")
        (λ xs. called false (f xs)) (column_of-IfOk df "close" h) (λ xs e. tt)

  module _ (ta : Ta F) (keeps : KeepsLength ta) where
    handlers-IsEven : All (λ e. IsEven e.1) (indicator_registry ta)
    unfolding indicator_registry rsi ema sma macd bbands
    handlers-IsEven = (
      λ df alias params h. from_close df _ _ h (λ xs e. (keeps.rsi_length _ xs ∙ e, tt)),
      (
        λ df alias params h. from_close df _ _ h (λ xs e. (keeps.ema_length _ xs ∙ e, tt)),
        (
          λ df alias params h. from_close df _ _ h (λ xs e. (keeps.sma_length _ xs ∙ e, tt)),
          (
            λ df alias params h. from_close df _ _ h (λ xs e. (
              keeps.macd_length _ _ _ xs ∙ e,
              (keeps.macd_signal_length _ _ _ xs ∙ e, (keeps.macd_diff_length _ _ _ xs ∙ e, tt)),
            )),
            (
              λ df alias params h. from_close df _ _ h (λ xs e. (
                keeps.hband_length _ _ xs ∙ e,
                (keeps.mavg_length _ _ xs ∙ e, (keeps.lband_length _ _ xs ∙ e, tt)),
              )),
              tt,
            ),
          ),
        ),
      ),
    )

    -- The same rows, aligned.
    abbrev pub Extends : Frame F → Frame F → Type 0
    Extends df frame = (frame.index ≡ df.index) × IsAligned frame

    apply_handler-Extends :
        (ind : IndicatorConfig F) (df : Frame F) (handler : Option (IndicatorHandler F))
        → ((h : IndicatorHandler F) → handler ≡ some h → IsEven h)
        → IsAligned df
        → IfOk (Extends df) (apply_handler ta ind df handler)
    apply_handler-Extends ind df none even h = tt
    apply_handler-Extends ind df (some handler) even h =
        IfOk-bind (OfLength (length df.index)) (Extends df)
          (handler.compute df ind.alias (resolved ta ind)) (λ outputs. ok (assign outputs df))
          (even handler refl df ind.alias (resolved ta ind) h)
          (λ outputs all. assign-IsAligned (length df.index) outputs df refl h all)

    -- Every frame that `compute_indicators` returns has the rows of its input, and is aligned.
    pub compute_indicators-Extends :
        (inds : List (IndicatorConfig F)) (df : Frame F)
        → IsAligned df
        → IfOk (Extends df) (compute_indicators ta df inds)
    unfolding compute_indicators
    compute_indicators-Extends [] df h = (refl, h)
    compute_indicators-Extends (ind ∷ inds) df h =
        let handler = Dict.get ind.name (indicator_registry ta) in
        IfOk-bind (Extends df) (Extends df) (apply_handler ta ind df handler)
          (λ df'. compute_indicators ta df' inds)
          (apply_handler-Extends ind df handler
            (λ k. get-All IsEven ind.name (indicator_registry ta) k handlers-IsEven) h)
          (λ df' e. rw (← e.0) (compute_indicators-Extends inds df' e.1))

  exit_series-IfOk :
      (c : Option (ConditionNode F)) (df : Frame F)
      → IsAligned df
      → IfOk (λ xs. length xs ≡ length df.index) (exit_series c df)
  exit_series-IfOk none df h = length-map (λ _. false) df.index
  exit_series-IfOk (some c) df h = evaluate_condition-IfOk c df h

  length-with_prices :
      (index : List ℕ) (o h l c : List F)
      → length o ≡ length index
      → length h ≡ length index
      → length l ≡ length index
      → length c ≡ length index
      → length (with_prices index o h l c) ≡ length index
  length-with_prices index o h l c eo eh el ec =
      let n = length index in
      length-zip_with _ n _ c
        (length-zip_with _ n _ l
          (length-zip_with _ n _ h (length-zip_with row n index o refl eo) eh) el)
        ec

  rows_of-IfOk :
      (df : Frame F) → IsAligned df → IfOk (λ rows. length rows ≡ length df.index) (rows_of df)
  unfolding rows_of
  rows_of-IfOk df a =
      let fits = λ (name : String). column_of-IfOk df name a in
      IfOk-bind _ _ (column_of df "open") _ (fits "open") λ o eo.
        IfOk-bind _ _ (column_of df "high") _ (fits "high") λ h eh.
          IfOk-bind _ _ (column_of df "low") _ (fits "low") λ l el.
            IfOk-bind _ _ (column_of df "close") _ (fits "close")
              λ c ec. length-with_prices df.index o h l c eo eh el ec

  -- One signal for each row.
  pub signals_of-IfOk :
      (d : StrategyDefinition F) (df : Frame F)
      → IsAligned df
      → IfOk (λ signals. length signals ≡ length df.index) (signals_of d df)
  unfolding signals_of
  signals_of-IfOk d df a =
      let n = length df.index in
      IfOk-bind _ _ (evaluate_condition d.entry_conditions df) _
        (evaluate_condition-IfOk d.entry_conditions df a)
        λ e ee.
          IfOk-bind _ _ (exit_series d.exit_conditions df) _
            (exit_series-IfOk d.exit_conditions df a)
            λ x ex.
              IfOk-bind _ _ (rows_of df) _ (rows_of-IfOk df a)
                λ r er. length-zip_with _ n _ x (length-zip_with signalled_row n r e er ee) ex
