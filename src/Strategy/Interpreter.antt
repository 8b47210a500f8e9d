-- ===== src/Strategy/Interpreter.antt =====
-- freqpanda_strategy/interpreter.py. A row is what `iterrows` gives of one candle; the index has no
-- duplicate timestamps, so `signal.loc[ts]` is the signal's entry beside the row.
use freqpanda.Prelude.{
  ℕ, String, Bool, true, false, Option, none, some, List, [], ◌∷◌, ◌++◌, map, zip_with,
  if◌then◌else◌,
}
use freqpanda.Prelude.Result.{Result, ok, err, ◌>>=◌, ◌>>◌}
use freqpanda.Prelude.Dict
use freqpanda.Prelude.Float.{Float, max, one}
use freqpanda.Strategy.Schema.{
  StrategyDefinition, IndicatorConfig, ConditionNode, RiskManagement, resolve_param, is_empty,
}
use freqpanda.Strategy.Indicators.{
  Ta, Frame, Params, Outputs, IndicatorHandler, StrategyError, key_error, type_error,
  missing_columns, indicator_registry, column_of,
}
use freqpanda.Strategy.Validation.{ohlcv_columns, validate_definition, without}
use freqpanda.Strategy.Conditions.{evaluate_condition}

pub data ExitReason : Type 0 where
  stop_loss take_profit trailing_stop exit_signal hard_stop_loss : ExitReason

pub record Trade (F : Type 0) : Type 0 where
  pub entry_time : ℕ
  pub entry_price : F
  pub exit_time : ℕ
  pub exit_price : F
  pub exit_reason : ExitReason
  pub pnl_pct : F

pub record Row (F : Type 0) : Type 0 where
  pub timestamp : ℕ
  pub open_price : F
  pub high : F
  pub low : F
  pub close : F

-- A row with the entry and the exit signal beside it.
pub record Signals (F : Type 0) : Type 0 where
  pub row : Row F
  pub entry : Bool
  pub exit : Bool

-- The variables of the loop.
pub record Loop (F : Type 0) : Type 0 where
  pub trades : List (Trade F)
  pub in_position : Bool
  pub entry_price : Option F
  pub entry_time : Option ℕ
  pub highest_since_entry : Option F

abbrev pub start : {F : Type 0} → Loop F
start = record {
  trades = [];
  in_position = false;
  entry_price = none;
  entry_time = none;
  highest_since_entry = none;
}

-- A use of a variable that is None.
abbrev pub required : {A : Type 0} → Option A → Result StrategyError A
required none = err type_error
required (some a) = ok a

abbrev pub or_else : {A : Type 0} → Option A → Option A → Option A
or_else none o = o
or_else (some a) o = some a

module _ {F : Type 0} ⦃fl : Float F⦄ where
  open fl use {add, sub, mul, div, le}

  abbrev pub stopped_at : RiskManagement F → F → F
  stopped_at risk entry_price = mul entry_price (sub one risk.stop_loss_pct)

  abbrev pub taken_at : RiskManagement F → F → F
  taken_at risk entry_price = mul entry_price (add one risk.take_profit_pct)

  abbrev pub trailed_at : F → F → F
  trailed_at pct highest = mul highest (sub one pct)

  abbrev when_low : F → F → ExitReason → Option (F × ExitReason)
  when_low low price reason = if le low price then some (price, reason) else none

  abbrev when_high : F → F → ExitReason → Option (F × ExitReason)
  when_high high price reason = if le price high then some (price, reason) else none

  abbrev when_trailed : Option F → F → F → Option (F × ExitReason)
  when_trailed none highest low = none
  when_trailed (some pct) highest low = when_low low (trailed_at pct highest) trailing_stop

  abbrev when_signalled : Signals F → Option (F × ExitReason)
  when_signalled s = if s.exit then some (s.row.close, exit_signal) else none

  -- The four tests of a candle: each counts only if none above it has fired.
  unfoldable pub exit_of : RiskManagement F → F → F → Signals F → Option (F × ExitReason)
  exit_of risk entry_price highest s =
      or_else
        (or_else
          (or_else (when_low s.row.low (stopped_at risk entry_price) stop_loss)
            (when_high s.row.high (taken_at risk entry_price) take_profit))
          (when_trailed risk.trailing_stop_pct highest s.row.low))
        (when_signalled s)

  -- The end of the body: an exit is recorded, and the variables are reset.
  abbrev leave : Loop F → ℕ → F → F → ℕ → Option (F × ExitReason) → Loop F
  leave l entry_time entry_price highest ts none = record l { highest_since_entry = some highest }
  leave l entry_time entry_price highest ts (some (exit_price, exit_reason)) = record {
    trades =
        l.trades
        ++ (record {
          entry_time = entry_time;
          entry_price = entry_price;
          exit_time = ts;
          exit_price = exit_price;
          exit_reason = exit_reason;
          pnl_pct = sub (div exit_price entry_price) one;
        }
            ∷ []);
    in_position = false;
    entry_price = none;
    entry_time = none;
    highest_since_entry = none;
  }

  -- One round of the loop.
  unfoldable pub step : RiskManagement F → Loop F → Signals F → Result StrategyError (Loop F)
  unfolding exit_of
  step risk l s =
      let ts = s.row.timestamp in
      let held = (do
        old ← required l.highest_since_entry
        let highest = max old s.row.high
        entry_price ← required l.entry_price
        entry_time ← required l.entry_time
        ok (leave l entry_time entry_price highest ts (exit_of risk entry_price highest s))) in
      if l.in_position
      then held
      else if s.entry
      then ok (record l {
        in_position = true;
        entry_price = some s.row.close;
        entry_time = some ts;
        highest_since_entry = some s.row.close;
      })
      else ok l

  unfoldable pub run_loop :
      RiskManagement F → Loop F → List (Signals F) → Result StrategyError (Loop F)
  run_loop risk l [] = ok l
  run_loop risk l (s ∷ rest) = step risk l s >>= λ l'. run_loop risk l' rest

  -- The rows of `iterrows`, with the signals beside them.
  abbrev pub row : ℕ → F → F → F → F → Row F
  row ts o h l c = record { timestamp = ts; open_price = o; high = h; low = l; close = c }

  abbrev pub with_prices : List ℕ → List F → List F → List F → List F → List (Row F)
  with_prices index opens highs lows closes =
      zip_with (λ (f : F → Row F). f)
        (zip_with (λ (f : F → F → Row F). f)
          (zip_with (λ (f : F → F → F → Row F). f) (zip_with row index opens) highs) lows)
        closes

  unfoldable pub rows_of : Frame F → Result StrategyError (List (Row F))
  rows_of df = do
    opens ← column_of df "open"
    highs ← column_of df "high"
    lows ← column_of df "low"
    closes ← column_of df "close"
    ok (with_prices df.index opens highs lows closes)

  abbrev pub signalled_row : Row F → Bool → Bool → Signals F
  signalled_row r e x = record { row = r; entry = e; exit = x }

  abbrev pub with_signals : List (Row F) → List Bool → List Bool → List (Signals F)
  with_signals rows entries exits =
      zip_with (λ (f : Bool → Signals F). f) (zip_with signalled_row rows entries) exits

  -- pd.Series(False) where the strategy has no exit conditions
  abbrev pub exit_series : Option (ConditionNode F) → Frame F → Result StrategyError (List Bool)
  exit_series none df = ok (map (λ _. false) df.index)
  exit_series (some c) df = evaluate_condition c df

  -- The signals of every row, as `run_strategy` and `latest_signal` compute them.
  unfoldable pub signals_of :
      StrategyDefinition F → Frame F → Result StrategyError (List (Signals F))
  unfolding rows_of
  signals_of d df = do
    entries ← evaluate_condition d.entry_conditions df
    exits ← exit_series d.exit_conditions df
    rows ← rows_of df
    ok (with_signals rows entries exits)

-- for column, series in …: result[column] = series
unfoldable pub assign : {F : Type 0} → Outputs F → Frame F → Frame F
unfolding Dict.put
assign [] df = df
assign ((name, series) ∷ rest) df =
    assign rest (record df { columns = Dict.put name series df.columns })

-- REQUIRED_OHLCV_COLUMNS that the input lacks
unfoldable pub missing : {F : Type 0} → Frame F → List String
missing df = without (map (λ c. c.0) df.columns) ohlcv_columns

module _ {F : Type 0} ⦃fl : Float F⦄ (ta : Ta F) where
  abbrev pub resolved : IndicatorConfig F → Params F
  resolved ind = map (λ p. (p.0, resolve_param p.1)) ind.params

  abbrev pub apply_handler :
      IndicatorConfig F → Frame F → Option (IndicatorHandler F) → Result StrategyError (Frame F)
  apply_handler ind df none = err (key_error ind.name)
  apply_handler ind df (some handler) =
      handler.compute df ind.alias (resolved ind) >>= λ outputs. ok (assign outputs df)

  unfoldable pub compute_indicators :
      Frame F → List (IndicatorConfig F) → Result StrategyError (Frame F)
  compute_indicators df [] = ok df
  compute_indicators df (ind ∷ inds) =
      apply_handler ind df (Dict.get ind.name (indicator_registry ta)) >>= λ df'.
      compute_indicators df' inds

  unfoldable pub run_strategy :
      StrategyDefinition F → Frame F → Result StrategyError (List (Trade F))
  run_strategy d df = do
    validate_definition ta d
    (if is_empty (missing df) then ok tt else err (missing_columns (missing df)))
    frame ← compute_indicators df d.indicators
    signals ← signals_of d frame
    loop ← run_loop d.risk_management start signals
    ok loop.trades
