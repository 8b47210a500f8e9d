-- ===== src/Backtest/Engine.antt =====
-- freqpanda_backtest/backtest.py and result.py. `ta`, numpy and pandas are parameters, and so is
-- what the array of `np.empty` holds.
pub mod Total
pub mod Accounts
use freqpanda.Prelude.{
  ℕ, String, Option, none, some, List, [], ◌∷◌, map, zip_with, get_last?, length,
}
use freqpanda.Prelude.Result.{Result, ok, ◌>>=◌}
use freqpanda.Prelude.Json.{Json, text, int, float, object, array, fields_of, items_of}
use freqpanda.Prelude.Float.{Float, one}
use freqpanda.Strategy.Schema.{StrategyDefinition}
use freqpanda.Strategy.Indicators.{Ta, Frame, StrategyError}
use freqpanda.Strategy.Interpreter.{
  run_strategy, ExitReason, stop_loss, take_profit, trailing_stop, exit_signal, hard_stop_loss,
}
use freqpanda.Backtest.Costs.{TradingCosts}
use freqpanda.Backtest.Equity.{TradeCostResult, apply_costs_to_trades, build_equity_curve}
use freqpanda.Backtest.Metrics.{
  Numpy, Series, DrawdownInfo, TradeStats, infer_periods_per_year, compute_return_ratios,
  compute_drawdown, compute_trade_stats,
}

-- The keyword arguments of `backtest`.
pub record BacktestKwargs (F : Type 0) : Type 0 where
  pub initial_capital : F
  pub fee_pct : F
  pub slippage_pct : F
  pub risk_free_rate : F

pub record BacktestResult (F : Type 0) : Type 0 where
  pub strategy_name : String
  pub initial_capital : F
  pub final_capital : F
  pub total_return_pct : F
  pub total_return_abs : F
  pub sharpe_ratio : F
  pub sortino_ratio : F
  pub max_drawdown_pct : F
  pub max_drawdown_duration : ℕ
  pub num_trades : ℕ
  pub win_rate : F
  pub avg_win_pct : F
  pub avg_loss_pct : F
  pub profit_factor : F
  pub trades : List (TradeCostResult F)
  pub equity_curve : Series F
  pub costs : TradingCosts F

abbrev pub costs_of : {F : Type 0} → BacktestKwargs F → TradingCosts F
costs_of kwargs = record { fee_pct = kwargs.fee_pct; slippage_pct = kwargs.slippage_pct }

-- What runs beside the code: the indicator library, numpy, and an unwritten array.
pub record Libraries (F : Type 0) : Type 0 where
  pub ta : Ta F
  pub np : Numpy F
  pub blank : ℕ → F

abbrev pub pair {ℓ κ} : {A : Type ℓ} {B : Type κ} → A → B → A × B
pair a b = (a, b)

-- pd.Series(values, index=index)
abbrev pub series : {F : Type 0} → List ℕ → List F → Series F
series = zip_with pair

module _ {F : Type 0} ⦃fl : Float F⦄ where
  open fl use {sub, div}

  -- float(equity_curve.iloc[-1]) if len(equity_curve) else initial_capital
  abbrev pub final_of : F → List F → F
  final_of initial_capital values = elim (get_last? values) [ none ↦ initial_capital | some v ↦ v ]

  -- The result, from the parts that `backtest` has computed.
  abbrev pub result_of :
      Numpy F
      → BacktestKwargs F
      → String
      → List ℕ
      → List (TradeCostResult F)
      → List F
      → DrawdownInfo F
      → BacktestResult F
  result_of np kwargs name index trade_costs values drawdown =
      let periods_per_year = infer_periods_per_year np index in
      let ratios = compute_return_ratios np values periods_per_year kwargs.risk_free_rate in
      let trade_stats = compute_trade_stats np trade_costs in
      let final_capital = final_of kwargs.initial_capital values in
      record {
        strategy_name = name;
        initial_capital = kwargs.initial_capital;
        final_capital = final_capital;
        total_return_pct = sub (div final_capital kwargs.initial_capital) one;
        total_return_abs = sub final_capital kwargs.initial_capital;
        sharpe_ratio = ratios.0;
        sortino_ratio = ratios.1;
        max_drawdown_pct = drawdown.max_drawdown_pct;
        max_drawdown_duration = drawdown.duration;
        num_trades = trade_stats.num_trades;
        win_rate = trade_stats.win_rate;
        avg_win_pct = trade_stats.avg_win_pct;
        avg_loss_pct = trade_stats.avg_loss_pct;
        profit_factor = trade_stats.profit_factor;
        trades = trade_costs;
        equity_curve = series index values;
        costs = costs_of kwargs;
      }

  unfoldable pub backtest :
      Libraries F
      → StrategyDefinition F
      → Frame F
      → BacktestKwargs F
      → Result StrategyError (BacktestResult F)
  backtest lib d df kwargs = do
    trades ← run_strategy lib.ta d df
    let costs = costs_of kwargs
    let trade_costs = apply_costs_to_trades trades kwargs.initial_capital costs
    values ← build_equity_curve lib.blank df trade_costs kwargs.initial_capital
    drawdown ← compute_drawdown lib.np (series df.index values)
    ok (result_of lib.np kwargs d.name df.index trade_costs values drawdown)

  -- Timedelta.total_seconds()
  abbrev total_seconds : ℕ → F
  total_seconds ms = div (fl.of_nat ms) (fl.of_nat 1000)

  unfoldable pub metrics_dict : BacktestResult F → List (String × Json F)
  metrics_dict r =
      ("strategy_name", text r.strategy_name)
      ∷ ("initial_capital", float r.initial_capital)
      ∷ ("final_capital", float r.final_capital)
      ∷ ("total_return_pct", float r.total_return_pct)
      ∷ ("total_return_abs", float r.total_return_abs)
      ∷ ("sharpe_ratio", float r.sharpe_ratio)
      ∷ ("sortino_ratio", float r.sortino_ratio)
      ∷ ("max_drawdown_pct", float r.max_drawdown_pct)
      ∷ ("max_drawdown_duration_seconds", float (total_seconds r.max_drawdown_duration))
      ∷ ("num_trades", int r.num_trades)
      ∷ ("win_rate", float r.win_rate)
      ∷ ("avg_win_pct", float r.avg_win_pct)
      ∷ ("avg_loss_pct", float r.avg_loss_pct)
      ∷ ("profit_factor", float r.profit_factor)
      ∷ ("fee_pct", float r.costs.fee_pct)
      ∷ ("slippage_pct", float r.costs.slippage_pct)
      ∷ []

abbrev reason_text : ExitReason → String
reason_text stop_loss = "stop_loss"
reason_text take_profit = "take_profit"
reason_text trailing_stop = "trailing_stop"
reason_text exit_signal = "exit_signal"
reason_text hard_stop_loss = "hard_stop_loss"

-- `isoformat` is that of pandas.
module _ {F : Type 0} (isoformat : ℕ → String) where
  abbrev trade_record : TradeCostResult F → Json F
  trade_record tc = object (
      fields_of (
        ("entry_time", text (isoformat tc.trade.entry_time))
        ∷ ("exit_time", text (isoformat tc.trade.exit_time))
        ∷ ("entry_price", float tc.trade.entry_price)
        ∷ ("exit_price", float tc.trade.exit_price)
        ∷ ("entry_fill_price", float tc.entry_fill)
        ∷ ("exit_fill_price", float tc.exit_fill)
        ∷ ("exit_reason", text (reason_text tc.trade.exit_reason))
        ∷ ("quantity", float tc.quantity)
        ∷ ("net_pnl_pct", float tc.net_pnl_pct)
        ∷ ("net_pnl_abs", float tc.net_pnl_abs)
        ∷ []))

  unfoldable pub trade_records : BacktestResult F → Json F
  trade_records r = array (items_of (map trade_record r.trades))

  abbrev equity_record : ℕ × F → Json F
  equity_record e =
      object (fields_of (("timestamp", text (isoformat e.0)) ∷ ("equity", float e.1) ∷ []))

  unfoldable pub equity_curve_records : BacktestResult F → Json F
  equity_curve_records r = array (items_of (map equity_record r.equity_curve))
