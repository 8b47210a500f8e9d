-- ===== src/Strategy/Indicators.antt =====
-- freqpanda_strategy/indicators.py. The `ta` library that computes the series is a parameter.
use freqpanda.Prelude.{ℕ, String, Bool, true, false, none, some, List, [], ◌∷◌}
use freqpanda.Prelude.Result.{Result, ok, err, ◌>>=◌}
use freqpanda.Prelude.Dict
use freqpanda.Prelude.Float.{Float}
use Prim.Native.String.{◌++◌}

-- The problems that `validate_definition` collects.
pub data Problem : Type 0 where
  unknown_indicator : String → String → Problem
  unknown_params : String → String → List String → Problem
  unknown_column : String → String → Problem

pub data StrategyError : Type 0 where
  validation_error : List Problem → StrategyError
  missing_columns : List String → StrategyError
  key_error : String → StrategyError
  index_error type_error value_error indicator_error : StrategyError

-- A DataFrame: timestamps in milliseconds, and named columns of floats.
pub record Frame (F : Type 0) : Type 0 where
  pub index : List ℕ
  pub columns : List (String × List F)

-- df[name]
unfoldable pub column_of : {F : Type 0} → Frame F → String → Result StrategyError (List F)
unfolding Dict.get
column_of df name = elim (Dict.get name df.columns) [ none ↦ err (key_error name) | some s ↦ ok s ]

-- The indicators of `ta`: from a close series and its windows to the output series, and whether the
-- calls for an indicator of INDICATOR_REGISTRY return with its parameters; if not, they raise.
pub record Ta (F : Type 0) : Type 0 where
  pub rsi : F → List F → List F
  pub ema : F → List F → List F
  pub sma : F → List F → List F
  pub macd : F → F → F → List F → List F
  pub macd_signal : F → F → F → List F → List F
  pub macd_diff : F → F → F → List F → List F
  pub bollinger_hband : F → F → List F → List F
  pub bollinger_mavg : F → F → List F → List F
  pub bollinger_lband : F → F → List F → List F
  pub accepts : String → List (String × F) → Bool

abbrev pub Params : Type 0 → Type 0
Params F = List (String × F)

abbrev pub Outputs : Type 0 → Type 0
Outputs F = List (String × List F)

pub record IndicatorHandler (F : Type 0) : Type 0 where
  pub compute : Frame F → String → Params F → Result StrategyError (Outputs F)
  pub outputs : String → List String
  pub param_names : List String

-- What calls of `ta` give, if they return.
abbrev pub called : {F : Type 0} → Bool → Outputs F → Result StrategyError (Outputs F)
called true outputs = ok outputs
called false outputs = err indicator_error

abbrev pub single_output : String → List String
single_output alias = alias ∷ []

abbrev pub macd_outputs : String → List String
macd_outputs alias = (alias ++ "_macd") ∷ (alias ++ "_signal") ∷ (alias ++ "_hist") ∷ []

abbrev pub bbands_outputs : String → List String
bbands_outputs alias = (alias ++ "_upper") ∷ (alias ++ "_middle") ∷ (alias ++ "_lower") ∷ []

module _ {F : Type 0} ⦃fl : Float F⦄ where
  -- params.get(name, default)
  unfoldable pub param_or : String → ℕ → Params F → F
  unfolding Dict.get
  param_or name default params = elim (Dict.get name params) [
    | none ↦ fl.of_nat default
    | some v ↦ v
  ]

  -- int(params.get(name, default))
  unfoldable pub int_param : String → ℕ → Params F → F
  unfolding param_or
  int_param name default params = fl.trunc (param_or name default params)

  module _ (ta : Ta F) where
    unfoldable pub rsi : Frame F → String → Params F → Result StrategyError (Outputs F)
    rsi df alias params = do
      close ← column_of df "close"
      called (ta.accepts "rsi" params) ((alias, ta.rsi (int_param "period" 14 params) close) ∷ [])

    unfoldable pub ema : Frame F → String → Params F → Result StrategyError (Outputs F)
    ema df alias params = do
      close ← column_of df "close"
      called (ta.accepts "ema" params) ((alias, ta.ema (int_param "period" 20 params) close) ∷ [])

    unfoldable pub sma : Frame F → String → Params F → Result StrategyError (Outputs F)
    sma df alias params = do
      close ← column_of df "close"
      called (ta.accepts "sma" params) ((alias, ta.sma (int_param "period" 20 params) close) ∷ [])

    unfoldable pub macd : Frame F → String → Params F → Result StrategyError (Outputs F)
    macd df alias params = do
      let fast = int_param "fast_period" 12 params
      let slow = int_param "slow_period" 26 params
      let signal = int_param "signal_period" 9 params
      close ← column_of df "close"
      called (ta.accepts "macd" params) (
          (alias ++ "_macd", ta.macd slow fast signal close)
          ∷ (alias ++ "_signal", ta.macd_signal slow fast signal close)
          ∷ (alias ++ "_hist", ta.macd_diff slow fast signal close)
          ∷ [])

    unfoldable pub bbands : Frame F → String → Params F → Result StrategyError (Outputs F)
    bbands df alias params = do
      let period = int_param "period" 20 params
      let std_dev = param_or "std_dev" 2 params
      close ← column_of df "close"
      called (ta.accepts "bbands" params) (
          (alias ++ "_upper", ta.bollinger_hband period std_dev close)
          ∷ (alias ++ "_middle", ta.bollinger_mavg period std_dev close)
          ∷ (alias ++ "_lower", ta.bollinger_lband period std_dev close)
          ∷ [])

    -- INDICATOR_REGISTRY
    unfoldable pub indicator_registry : List (String × IndicatorHandler F)
    indicator_registry =
        ("rsi", record { compute = rsi; outputs = single_output; param_names = "period" ∷ [] })
        ∷ ("ema", record { compute = ema; outputs = single_output; param_names = "period" ∷ [] })
        ∷ ("sma", record { compute = sma; outputs = single_output; param_names = "period" ∷ [] })
        ∷ (
          "macd",
          record {
            compute = macd;
            outputs = macd_outputs;
            param_names = "fast_period" ∷ "slow_period" ∷ "signal_period" ∷ [];
          },
        )
        ∷ (
          "bbands",
          record {
            compute = bbands;
            outputs = bbands_outputs;
            param_names = "period" ∷ "std_dev" ∷ [];
          },
        )
        ∷ []
