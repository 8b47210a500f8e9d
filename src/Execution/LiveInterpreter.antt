-- ===== src/Execution/LiveInterpreter.antt =====
-- freqpanda_execution/live_interpreter.py
use freqpanda.Prelude.{ℕ, Bool, Option, none, some, get_last?, if◌then◌else◌}
use freqpanda.Prelude.Result.{Result, ok, err, ◌>>=◌}
use freqpanda.Prelude.Float.{Float, max}
use freqpanda.Strategy.Schema.{StrategyDefinition, RiskManagement}
use freqpanda.Strategy.Indicators.{Ta, Frame, StrategyError, index_error}
use freqpanda.Strategy.Interpreter.{
  ExitReason, stop_loss, take_profit, trailing_stop, exit_signal, Signals, signals_of,
  compute_indicators, stopped_at, taken_at, trailed_at,
}

pub record SignalSnapshot (F : Type 0) : Type 0 where
  pub timestamp : ℕ
  pub open_price : F
  pub high : F
  pub low : F
  pub close : F
  pub entry_signal : Bool
  pub exit_signal : Bool

pub record OpenPosition (F : Type 0) : Type 0 where
  pub entry_time : ℕ
  pub entry_price : F
  pub highest_since_entry : F

pub data TradeAction (F : Type 0) : Type 0 where
  enter : F → TradeAction F
  exit : F → ExitReason → TradeAction F

abbrev pub snapshot_of : {F : Type 0} → Signals F → SignalSnapshot F
snapshot_of s = record {
  timestamp = s.row.timestamp;
  open_price = s.row.open_price;
  high = s.row.high;
  low = s.row.low;
  close = s.row.close;
  entry_signal = s.entry;
  exit_signal = s.exit;
}

module _ {F : Type 0} ⦃fl : Float F⦄ where
  open fl use {le}

  abbrev pub last_of : Option (Signals F) → Result StrategyError (SignalSnapshot F)
  last_of none = err index_error
  last_of (some s) = ok (snapshot_of s)

  -- The signals of the last row of `df`.
  unfoldable pub latest_signal :
      Ta F → StrategyDefinition F → Frame F → Result StrategyError (SignalSnapshot F)
  latest_signal ta d df = do
    frame ← compute_indicators ta df d.indicators
    signals ← signals_of d frame
    last_of (get_last? signals)

  -- LivePositionTracker._close
  abbrev pub closed : F → ExitReason → Option (OpenPosition F) × Option (TradeAction F)
  closed price reason = (none, some (exit price reason))

  -- The tests after the trailing stop.
  abbrev pub on_signal :
      OpenPosition F → SignalSnapshot F → Option (OpenPosition F) × Option (TradeAction F)
  on_signal p s = if s.exit_signal then closed s.close exit_signal else (some p, none)

  abbrev pub on_trail :
      Option F
      → OpenPosition F
      → SignalSnapshot F
      → Option (OpenPosition F) × Option (TradeAction F)
  on_trail none p s = on_signal p s
  on_trail (some pct) p s =
      let trailing_stop_price = trailed_at pct p.highest_since_entry in
      if le s.low trailing_stop_price
      then closed trailing_stop_price trailing_stop
      else on_signal p s

  -- LivePositionTracker.process: the new position, and the action. An early return ends each test.
  unfoldable pub process :
      RiskManagement F
      → Option (OpenPosition F)
      → SignalSnapshot F
      → Option (OpenPosition F) × Option (TradeAction F)
  process risk none s =
      if s.entry_signal
      then (
        some (record {
          entry_time = s.timestamp;
          entry_price = s.close;
          highest_since_entry = s.close;
        }),
        some (enter s.close),
      )
      else (none, none)
  process risk (some held) s =
      let p = record held { highest_since_entry = max held.highest_since_entry s.high } in
      let stop_loss_price = stopped_at risk p.entry_price in
      let take_profit_price = taken_at risk p.entry_price in
      if le s.low stop_loss_price
      then closed stop_loss_price stop_loss
      else if le take_profit_price s.high
      then closed take_profit_price take_profit
      else on_trail risk.trailing_stop_pct p s
