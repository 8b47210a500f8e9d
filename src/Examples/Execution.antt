-- ===== src/Examples/Execution.antt =====
-- The bot on sample candles.
use freqpanda.Prelude.{◌↔◌, ◌⊎◌, ◌≡◌, refl, true, false, none, some, [], ◌∷◌, ◌++◌, length, arith}
use freqpanda.Prelude.Result.{ok, err}
use freqpanda.Prelude.Float.{nought}
use freqpanda.Prelude.Fixed.{Fixed, fixed_float, bp}
use freqpanda.Strategy.Interpreter.{Trade, take_profit}
use freqpanda.Backtest.Equity.{apply_costs}
use freqpanda.Execution.LiveInterpreter.{process, SignalSnapshot, OpenPosition}
use freqpanda.Execution.Risk.{
  RiskMiddleware, circuit_breaker_tripped, check_order, check_hard_stop_loss,
}
use freqpanda.Execution.Risk.Limits.{update_all, Falls, update_equity_lem}
use freqpanda.Execution.Broker.{paper}
use freqpanda.Execution.Parity.{Live, no_trades}
use freqpanda.Execution.Parity.Candles.{live_feed, live_feed-run_strategy}
use freqpanda.Execution.Parity.Chronology.{IsChronological}
use freqpanda.Execution.Parity.Order.{run_strategy-IsChronological}
use freqpanda.Execution.Bot.State.{Bot, Config, trade_row, event, exit_event, state_of}
use freqpanda.Execution.Bot.{execute_entry, close_position, on_snapshot, act}
use freqpanda.Execution.Bot.Accounts.{paper_round_trip, row_of}
use freqpanda.Execution.Bot.Persistence.{last_saved, on_snapshot-last_saved}
use freqpanda.Examples.Sample.{
  whole, plain, plain-IsCausal, plain-KeepsLength, candles, dip, dip_trades,
}
use freqpanda.Examples.Strategy.{dip_run}
use freqpanda.Examples.Backtest.{sample_costs}

live_feed-run_strategy_example :
    (l : Live Fixed) × (live_feed plain dip candles 0 (length candles.index) no_trades ≡ ok l)
    × (l.trades ≡ dip_trades)
live_feed-run_strategy_example =
    live_feed-run_strategy plain dip candles dip_trades plain-IsCausal plain-KeepsLength
      (refl, (refl, (refl, (refl, (refl, tt))))) dip_run

run_strategy-IsChronological_example : IsChronological 0 dip_trades
run_strategy-IsChronological_example =
    run_strategy-IsChronological plain dip candles dip_trades plain-KeepsLength
      (refl, (refl, (refl, (refl, (refl, tt))))) (omega arith) dip_run

abbrev middleware : RiskMiddleware Fixed
middleware = record {
  limits = record {
    max_drawdown_pct = bp 2000;
    max_position_notional_pct = whole 1;
    max_price_deviation_pct = bp 1000;
    min_seconds_between_orders = whole 1;
  };
  peak_equity = whole 1000;
  last_order_at = none;
}

-- 1200 is a new peak, and 900 is a quarter below it; the limit is twenty percent.
update_equity_lem_example :
    let equities = whole 1200 ∷ whole 1100 ∷ whole 900 ∷ [] in
    (update_all equities middleware).0 ≡ err circuit_breaker_tripped
    ↔ Falls (bp 2000) (whole 1000) equities
update_equity_lem_example = update_equity_lem (whole 1200 ∷ whole 1100 ∷ whole 900 ∷ []) middleware

abbrev paper_config : Config Fixed
paper_config = record {
  symbol = "BTC/USDT";
  definition = dip;
  broker = paper sample_costs;
  costs = sample_costs;
}

abbrev opened : OpenPosition Fixed
opened = record { entry_time = 1000; entry_price = whole 99; highest_since_entry = whole 99 }

-- The tracker has just opened a position, and the order is still to come.
abbrev about_to_enter : Bot Fixed
about_to_enter = record {
  position = some opened;
  equity = whole 1000;
  equity_at_entry = whole 1000;
  current_quantity = nought;
  entry_order_id = none;
  risk = middleware;
  log = [];
}

abbrev low_candle : SignalSnapshot Fixed
low_candle = record {
  timestamp = 1000;
  open_price = whole 98;
  high = whole 100;
  low = whole 98;
  close = whole 99;
  entry_signal = true;
  exit_signal = false;
}

abbrev crash : SignalSnapshot Fixed
crash = record low_candle { timestamp = 2000; high = whole 60; low = whole 40; close = whole 50 }

abbrev sample_trade : Trade Fixed
sample_trade = record {
  entry_time = 1000;
  entry_price = whole 99;
  exit_time = 3000;
  exit_price = bp 1_089_000;
  exit_reason = take_profit;
  pnl_pct = bp 1000;
}

abbrev entered_bot : Bot Fixed
entered_bot = (execute_entry paper_config (whole 50) low_candle about_to_enter).1

paper_round_trip_example :
    let result = apply_costs sample_costs (whole 1000) sample_trade in
    let b' = (close_position paper_config opened (bp 1_089_000) take_profit 3000 entered_bot).1 in
    (b'.equity ≡ result.equity_after)
    × (b'.current_quantity ≡ nought)
    × (b'.log
        ≡ (entered_bot.log
            ++ (trade_row (record (row_of paper_config refl sample_trade (whole 1000) entered_bot) {
              entry_time = 1000;
              entry_price = whole 99;
            })
                ∷ []))
          ++ (event exit_event ∷ []))
unfolding check_order
paper_round_trip_example =
    paper_round_trip paper_config refl (whole 50) low_candle sample_trade about_to_enter entered_bot
      opened opened refl refl refl refl refl

-- The position is open, bought with all the equity.
abbrev holding : Bot Fixed
holding = record about_to_enter {
  equity = whole 998;
  current_quantity = whole 10;
  risk = middleware;
  log = [];
}

on_snapshot-last_saved_example :
    let last = some (whole 99) in
    let b' = (on_snapshot paper_config (whole 60) low_candle last holding).1 in
    (last_saved b'.log ≡ some (state_of b' last))
    ⊎ ((last_saved b'.log ≡ last_saved holding.log)
        × (b'.equity ≡ holding.equity)
        × (b'.current_quantity ≡ holding.current_quantity)
        × (b'.equity_at_entry ≡ holding.equity_at_entry)
        × (b'.risk ≡ holding.risk))
unfolding on_snapshot process act check_hard_stop_loss
on_snapshot-last_saved_example =
    on_snapshot-last_saved paper_config (whole 60) low_candle (some (whole 99)) holding refl
