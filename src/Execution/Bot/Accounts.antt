-- ===== src/Execution/Bot/Accounts.antt =====
-- The money of a paper bot, against the accounts of a backtest.
use freqpanda.Prelude.{◌≡◌, none, some, [], ◌∷◌, ◌++◌, ◌∙◌, arith}
use freqpanda.Prelude.Result.{Result, ok}
use freqpanda.Prelude.Float.{Float, one, nought}
use freqpanda.Strategy.Interpreter.{Trade}
use freqpanda.Backtest.Equity.{apply_costs}
use freqpanda.Execution.LiveInterpreter.{SignalSnapshot, OpenPosition}
use freqpanda.Execution.Risk.{BotError, check_order}
use freqpanda.Execution.Broker.{paper, open_long, close_long}
use freqpanda.Execution.Bot.State.{Bot, Config, TradeRow, trade_row, event, exit_event}
use freqpanda.Execution.Bot.{execute_entry, close_position}

module _ {F : Type 0} ⦃fl : Float F⦄ (config : Config F)
    (simulated : config.broker ≡ paper config.costs) where
  open fl use {div, mul, sub}

  -- The check that an entry has to pass.
  abbrev pub entry_check : F → SignalSnapshot F → Bot F → Result BotError (Unit {0})
  entry_check now s b =
      let quantity = div (mul b.equity (sub one config.costs.fee_pct)) s.close in
      (check_order quantity s.close b.equity (some s.close) (some now) b.risk).0

  execute_entry-apply_costs :
      (now : F) (s : SignalSnapshot F) (trade : Trade F) (b : Bot F) (p : OpenPosition F)
      → b.position ≡ some p
      → trade.entry_price ≡ s.close
      → entry_check now s b ≡ ok tt
      → let result = apply_costs config.costs b.equity trade in
        let b' = (execute_entry config now s b).1 in
        ((execute_entry config now s b).0 ≡ ok tt)
        × (b'.current_quantity ≡ result.quantity)
        × (b'.equity_at_entry ≡ result.equity_before)
        × (b'.equity ≡ mul result.quantity result.entry_fill)
        × (b'.position
            ≡ some (record p {
              entry_price = result.entry_fill;
              highest_since_entry = result.entry_fill;
            }))
  unfolding execute_entry apply_costs open_long
  execute_entry-apply_costs now s trade b p held priced passed = ground arith

  -- What the row of the trade says of the money.
  abbrev pub row_of : Trade F → F → Bot F → TradeRow F
  row_of trade equity b =
      let result = apply_costs config.costs equity trade in
      record {
        entry_time = trade.entry_time;
        exit_time = trade.exit_time;
        entry_price = trade.entry_price;
        exit_price = result.exit_fill;
        quantity = result.quantity;
        exit_reason = trade.exit_reason;
        net_pnl_pct = result.net_pnl_pct;
        net_pnl_abs = result.net_pnl_abs;
        entry_order_id = b.entry_order_id;
        exit_order_id = none;
      }

  close_position-apply_costs :
      (trade : Trade F) (equity : F) (b : Bot F) (p : OpenPosition F)
      → b.current_quantity ≡ (apply_costs config.costs equity trade).quantity
      → b.equity_at_entry ≡ equity
      → let result = apply_costs config.costs equity trade in
        let b' = (close_position config p trade.exit_price trade.exit_reason trade.exit_time b).1 in
        (b'.equity ≡ result.equity_after)
        × (b'.current_quantity ≡ nought)
        × (b'.log
            ≡ (b.log
                ++ (trade_row (record (row_of trade equity b) {
                  entry_time = p.entry_time;
                  entry_price = p.entry_price;
                })
                    ∷ []))
              ++ (event exit_event ∷ []))
  unfolding close_position apply_costs close_long
  close_position-apply_costs trade equity b p bought paid = ground arith

  -- From an entry of a paper bot that passes the order check to the close of what it bought, however
  -- long after, its equity changes as a backtest with the same costs says of the trade from the
  -- candle's close to the exit price. The row of the trade has the backtest's quantity, fill and
  -- net result, also where the circuit breaker trips on the close.
  pub paper_round_trip :
      (now : F) (s : SignalSnapshot F) (trade : Trade F) (b later : Bot F) (p q : OpenPosition F)
      → b.position ≡ some p
      → trade.entry_price ≡ s.close
      → entry_check now s b ≡ ok tt
      → later.current_quantity ≡ (execute_entry config now s b).1.current_quantity
      → later.equity_at_entry ≡ (execute_entry config now s b).1.equity_at_entry
      → let result = apply_costs config.costs b.equity trade in
        let b' =
          (close_position config q trade.exit_price trade.exit_reason trade.exit_time later).1 in
        (b'.equity ≡ result.equity_after)
        × (b'.current_quantity ≡ nought)
        × (b'.log
            ≡ (later.log
                ++ (trade_row (record (row_of trade b.equity later) {
                  entry_time = q.entry_time;
                  entry_price = q.entry_price;
                })
                    ∷ []))
              ++ (event exit_event ∷ []))
  unfolding apply_costs
  paper_round_trip now s trade b later p q held priced passed bought paid =
      let (done, quantity, equity, _, _) =
        execute_entry-apply_costs now s trade b p held priced passed in
      close_position-apply_costs trade b.equity later q (bought ∙ quantity) (paid ∙ equity)
