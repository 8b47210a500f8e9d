-- ===== src/Backtest/Costs.antt =====
-- freqpanda_backtest/costs.py
use freqpanda.Prelude.Float.{Float, one}

pub record TradingCosts (F : Type 0) : Type 0 where
  pub fee_pct : F
  pub slippage_pct : F

module _ {F : Type 0} ⦃fl : Float F⦄ where
  open fl use {add, sub, mul}

  unfoldable pub entry_fill_price : TradingCosts F → F → F
  entry_fill_price costs raw_price = mul raw_price (add one costs.slippage_pct)

  unfoldable pub exit_fill_price : TradingCosts F → F → F
  exit_fill_price costs raw_price = mul raw_price (sub one costs.slippage_pct)
