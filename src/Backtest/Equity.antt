-- ===== src/Backtest/Equity.antt =====
-- freqpanda_backtest/equity.py. The numpy array of the curve is a list that slices are written to.
pub mod Curve
pub mod Positions
use freqpanda.Prelude.{
  ℕ, zero, suc, ◌+◌, Option, none, some, List, [], ◌∷◌, ◌++◌, map, Bool, ◌&&◌, length, get_elem?,
  ltb, leb, ◌==◌, if◌then◌else◌,
}
use freqpanda.Prelude.Result.{Result, ok, err, ◌>>=◌}
use freqpanda.Prelude.Float.{Float, one}
use freqpanda.Strategy.Indicators.{Frame, StrategyError, key_error, column_of}
use freqpanda.Strategy.Interpreter.{Trade}
use freqpanda.Backtest.Costs.{TradingCosts, entry_fill_price, exit_fill_price}

pub record TradeCostResult (F : Type 0) : Type 0 where
  pub trade : Trade F
  pub entry_fill : F
  pub exit_fill : F
  pub quantity : F
  pub equity_before : F
  pub equity_after : F
  pub net_pnl_pct : F
  pub net_pnl_abs : F

-- index.get_loc(ts), from the position of the index's first timestamp
unfoldable pub get_loc_from : ℕ → List ℕ → ℕ → Result StrategyError ℕ
get_loc_from i [] ts = err (key_error "timestamp")
get_loc_from i (t ∷ index) ts =
    let rest = get_loc_from (suc i) index ts in if t == ts then ok i else rest

abbrev pub get_loc : List ℕ → ℕ → Result StrategyError ℕ
get_loc = get_loc_from 0

-- values[first:last] = …, for the values from position i on
unfoldable pub write_from {ℓ} : {A : Type ℓ} → ℕ → ℕ → ℕ → (ℕ → A) → List A → List A
write_from i first last f [] = []
write_from i first last f (v ∷ vs) =
    (if leb first i && ltb i last then f i else v) ∷ write_from (suc i) first last f vs

abbrev pub write {ℓ} : {A : Type ℓ} → ℕ → ℕ → (ℕ → A) → List A → List A
write = write_from 0

module _ {F : Type 0} ⦃fl : Float F⦄ where
  open fl use {sub, mul, div}

  -- One round of the loop.
  unfoldable pub apply_costs : TradingCosts F → F → Trade F → TradeCostResult F
  apply_costs costs equity trade =
      let entry_fill = entry_fill_price costs trade.entry_price in
      let exit_fill = exit_fill_price costs trade.exit_price in
      let quantity = div (mul equity (sub one costs.fee_pct)) entry_fill in
      let proceeds = mul quantity exit_fill in
      let equity_after = mul proceeds (sub one costs.fee_pct) in
      record {
        trade = trade;
        entry_fill = entry_fill;
        exit_fill = exit_fill;
        quantity = quantity;
        equity_before = equity;
        equity_after = equity_after;
        net_pnl_pct = sub (div equity_after equity) one;
        net_pnl_abs = sub equity_after equity;
      }

  unfoldable pub apply_costs_to_trades :
      List (Trade F) → F → TradingCosts F → List (TradeCostResult F)
  unfolding apply_costs
  apply_costs_to_trades [] equity costs = []
  apply_costs_to_trades (trade ∷ trades) equity costs =
      let result = apply_costs costs equity trade in
      result ∷ apply_costs_to_trades trades result.equity_after costs

  -- close[i], inside the array
  abbrev pub close_at : List F → ℕ → F
  close_at close i = elim (get_elem? close i) [ none ↦ fl.nan | some c ↦ c ]

  -- The writes of one trade, from the end of the one before.
  -- A slice that ends where it starts writes nothing, so the guard on `exit_pos > entry_pos + 1` is
  -- the empty slice here.
  unfoldable pub write_trade : List F → F → ℕ → TradeCostResult F → ℕ → ℕ → List F → List F
  unfolding write_from
  write_trade close equity cursor tc entry_pos exit_pos values =
      write exit_pos (suc exit_pos) (λ i. tc.equity_after)
        (write (suc entry_pos) exit_pos (λ i. mul tc.quantity (close_at close i))
          (write entry_pos (suc entry_pos) (λ i. mul tc.quantity tc.entry_fill)
            (write cursor entry_pos (λ i. equity) values)))

  unfoldable pub curve_from :
      List ℕ → List F → F → ℕ → List F → List (TradeCostResult F) → Result StrategyError (List F)
  unfolding get_loc_from write_trade
  curve_from index close equity cursor values [] =
      ok (write_from 0 cursor (cursor + length values) (λ i. equity) values)
  curve_from index close equity cursor values (tc ∷ rest) = do
    entry_pos ← get_loc index tc.trade.entry_time
    exit_pos ← get_loc index tc.trade.exit_time
    curve_from index close tc.equity_after (suc exit_pos)
        (write_trade close equity cursor tc entry_pos exit_pos values) rest

  -- `blank` are the contents of `np.empty`.
  unfoldable pub build_equity_curve :
      (ℕ → F) → Frame F → List (TradeCostResult F) → F → Result StrategyError (List F)
  unfolding curve_from
  build_equity_curve blank df trade_costs initial_capital = do
    close ← column_of df "close"
    curve_from df.index close initial_capital 0 (map blank df.index) trade_costs
