-- ===== src/Examples/Sample.antt =====
-- Sample candles and a sample strategy, over fixed-point numbers.
use freqpanda.Prelude.{true, ℕ, ◌*◌, refl, none, List, [], ◌∷◌, map}
use freqpanda.Prelude.Fixed.{Fixed, fixed_float, bp}
use freqpanda.Strategy.Schema.{
  StrategyDefinition, RiskManagement, comparison, constant, column, ComparisonOp, number,
}
use freqpanda.Strategy.Indicators.{Ta, Frame}
use freqpanda.Strategy.Interpreter.{Trade, take_profit}
use freqpanda.Strategy.Causality.Signals.{IsCausal}
use freqpanda.Strategy.Shape.Computed.{KeepsLength}

abbrev pub whole : ℕ → Fixed
whole n = bp (n * 10_000)

-- A library whose every indicator is the series itself.
abbrev pub plain : Ta Fixed
plain = record {
  rsi = λ w xs. xs;
  ema = λ w xs. xs;
  sma = λ w xs. xs;
  macd = λ a b c xs. xs;
  macd_signal = λ a b c xs. xs;
  macd_diff = λ a b c xs. xs;
  bollinger_hband = λ w d xs. xs;
  bollinger_mavg = λ w d xs. xs;
  bollinger_lband = λ w d xs. xs;
  accepts = λ name params. true;
}

pub plain-IsCausal : IsCausal plain
plain-IsCausal = record {
  rsi_cut = λ n w xs. refl;
  ema_cut = λ n w xs. refl;
  sma_cut = λ n w xs. refl;
  macd_cut = λ n a b c xs. refl;
  macd_signal_cut = λ n a b c xs. refl;
  macd_diff_cut = λ n a b c xs. refl;
  hband_cut = λ n w d xs. refl;
  mavg_cut = λ n w d xs. refl;
  lband_cut = λ n w d xs. refl;
}

pub plain-KeepsLength : KeepsLength plain
plain-KeepsLength = record {
  rsi_length = λ w xs. refl;
  ema_length = λ w xs. refl;
  sma_length = λ w xs. refl;
  macd_length = λ a b c xs. refl;
  macd_signal_length = λ a b c xs. refl;
  macd_diff_length = λ a b c xs. refl;
  hband_length = λ w d xs. refl;
  mavg_length = λ w d xs. refl;
  lband_length = λ w d xs. refl;
}

abbrev pub candles : Frame Fixed
candles = record {
  index = 1000 ∷ 2000 ∷ 3000 ∷ 4000 ∷ [];
  columns =
      ("open", map whole (98 ∷ 99 ∷ 101 ∷ 110 ∷ []))
      ∷ ("high", map whole (100 ∷ 102 ∷ 112 ∷ 95 ∷ []))
      ∷ ("low", map whole (98 ∷ 100 ∷ 105 ∷ 85 ∷ []))
      ∷ ("close", map whole (99 ∷ 101 ∷ 110 ∷ 90 ∷ []))
      ∷ ("volume", map whole (1 ∷ 1 ∷ 1 ∷ 1 ∷ []))
      ∷ [];
}

abbrev pub cautious : RiskManagement Fixed
cautious = record { stop_loss_pct = bp 500; take_profit_pct = bp 1000; trailing_stop_pct = none }

-- Buy below 100.
abbrev pub dip : StrategyDefinition Fixed
dip = record {
  name = "dip";
  description = none;
  timeframe = none;
  indicators =
      record { name = "sma"; alias = "mean"; params = ("period", number (whole 5)) ∷ [] } ∷ [];
  entry_conditions = comparison (column "mean") ComparisonOp.lt (constant (whole 100));
  exit_conditions = none;
  risk_management = cautious;
}

-- The one trade that is complete: in at 99, and out ten percent above.
abbrev pub dip_trades : List (Trade Fixed)
dip_trades =
    record {
      entry_time = 1000;
      entry_price = whole 99;
      exit_time = 3000;
      exit_price = bp 1_089_000;
      exit_reason = take_profit;
      pnl_pct = bp 1000;
    }
    ∷ []
