-- ===== src/Execution/Bot.antt =====
-- freqpanda_execution/bot.py. A method is an action on the bot's state that returns or raises; what
-- it has written to the database stays written, and is kept in order in `log`. Messages are left out.
pub mod State
pub mod Accounts
pub mod Persistence
use freqpanda.Prelude.{
  ℕ, Bool, false, Option, none, some, List, [], ◌∷◌, ◌++◌, get_last?, if◌then◌else◌,
}
use freqpanda.Prelude.Result.{Result, ok, err}
use freqpanda.Prelude.Float.{Float, one, nought}
use freqpanda.Strategy.Schema.{StrategyDefinition}
use freqpanda.Strategy.Indicators.{Ta, Frame, StrategyError, column_of}
use freqpanda.Strategy.Interpreter.{ExitReason, hard_stop_loss}
use freqpanda.Execution.LiveInterpreter.{
  SignalSnapshot, OpenPosition, TradeAction, enter, exit, process, latest_signal,
}
use freqpanda.Execution.Risk.{
  RiskLimits, RiskMiddleware, BotError, circuit_breaker_tripped, attribute_error, strategy_error,
  check_hard_stop_loss, update_equity, check_order, new_middleware,
}
use freqpanda.Execution.Broker.{Fill, open_long, close_long}
use freqpanda.Execution.Bot.State.{
  Bot, Config, SavedState, SavedPosition, Write, status, event, trade_row, state_saved, heartbeat,
  Status, running, circuit_broken, error, stopped, EventKind, started, circuit_breaker, error_event,
  stopped_event, hard_stop, order_rejected_event, entry, exit_event, state_of, Action, ◌>>=◌, ◌>>◌,
  pure, raise, lift, modify, write, with_risk, catch_rejected,
}

-- Bot._save_state; `last_price` is the close of the feed's last candle.
unfoldable pub save_state : {F : Type 0} → Option F → Action F (Unit {0})
save_state last_price b = write (state_saved (state_of b last_price)) b

module _ {F : Type 0} ⦃fl : Float F⦄ where
  open fl use {sub, mul, div}

  -- Bot.__init__
  unfoldable pub new_bot : RiskLimits F → F → Result BotError (Bot F)
  new_bot limits initial_capital = elim (new_middleware limits initial_capital) [
    | err e ↦ err e
    | ok middleware ↦ ok (record {
      position = none;
      equity = initial_capital;
      equity_at_entry = initial_capital;
      current_quantity = nought;
      entry_order_id = none;
      risk = middleware;
      log = [];
    })
  ]

  abbrev resume_position : SavedState F → Option (SavedPosition F) → Bot F → Bot F
  resume_position s none b = b
  resume_position s (some p) b = record b {
    position = some (record {
      entry_time = p.entry_time;
      entry_price = p.entry_price;
      highest_since_entry = p.highest_since_entry;
    });
    current_quantity = p.quantity;
    equity_at_entry = p.equity_at_entry;
    entry_order_id = p.entry_order_id;
  }

  -- Bot.resume_from_state
  unfoldable pub resume_from_state : SavedState F → Bot F → Bot F
  resume_from_state s b =
      resume_position s s.position
        (record b { equity = s.equity; risk = record b.risk { peak_equity = s.peak_equity } })

module _ {F : Type 0} ⦃fl : Float F⦄ (config : Config F) where
  open fl use {sub, mul, div}

  -- The part of _execute_entry after the order is filled.
  abbrev pub entered : SignalSnapshot F → Fill F → Option (OpenPosition F) → Action F (Unit {0})
  entered s fill none = raise attribute_error
  entered s fill (some p) = do
    modify (λ b. record b {
      position = some (record p { entry_price = fill.price; highest_since_entry = fill.price });
      current_quantity = fill.quantity;
      entry_order_id = fill.order_id;
      equity_at_entry = b.equity;
      equity = mul fill.quantity fill.price;
    })
    write (event entry)

  -- Bot._execute_entry, at the time `now`
  unfoldable pub execute_entry : F → SignalSnapshot F → Action F (Unit {0})
  execute_entry now s b =
      let estimated_quantity = div (mul b.equity (sub one config.costs.fee_pct)) s.close in
      let (checked, m) =
        check_order estimated_quantity s.close b.equity (some s.close) (some now) b.risk in
      catch_rejected checked
        (do write (event order_rejected_event); modify (λ b. record b { position = none }))
        (λ b.
          (do
            fill ←
                lift (open_long config.broker config.symbol b.equity config.costs.fee_pct s.close)
            entered s fill b.position)
            b)
        (record b { risk = m })

  -- Bot._close_position
  unfoldable pub close_position : OpenPosition F → F → ExitReason → ℕ → Action F (Unit {0})
  close_position position exit_price exit_reason exit_time b =
      (do
        let quantity = b.current_quantity
        fill ← lift (close_long config.broker config.symbol quantity exit_price)
        let proceeds = mul fill.quantity fill.price
        let equity_after = mul proceeds (sub one config.costs.fee_pct)
        write (
            trade_row (record {
              entry_time = position.entry_time;
              exit_time = exit_time;
              entry_price = position.entry_price;
              exit_price = fill.price;
              quantity = quantity;
              exit_reason = exit_reason;
              net_pnl_pct = sub (div equity_after b.equity_at_entry) one;
              net_pnl_abs = sub equity_after b.equity_at_entry;
              entry_order_id = b.entry_order_id;
              exit_order_id = fill.order_id;
            }))
        write (event exit_event)
        modify (λ b. record b {
          equity = equity_after;
          current_quantity = nought;
          entry_order_id = none;
        })
        with_risk (update_equity equity_after))
        b

  abbrev close_before : Option (OpenPosition F) → F → ExitReason → ℕ → Action F (Unit {0})
  close_before none price reason ts = raise attribute_error
  close_before (some p) price reason ts = close_position p price reason ts

  -- _on_candle_close after the tracker has processed the candle
  unfoldable pub act :
      F
      → SignalSnapshot F
      → Option F
      → Option (OpenPosition F)
      → Option (TradeAction F)
      → Action F (Unit {0})
  act now s last_price before none = write heartbeat
  act now s last_price before (some (enter price)) = do execute_entry now s; save_state last_price
  act now s last_price before (some (exit price reason)) = do
    close_before before price reason s.timestamp
    save_state last_price

  abbrev pub hard_stopped : Option (OpenPosition F) → SignalSnapshot F → Bool
  hard_stopped none s = false
  hard_stopped (some p) s =
      check_hard_stop_loss p.entry_price config.definition.risk_management.stop_loss_pct s.close

  -- the branch of the independent stop-loss
  unfoldable pub hard_stop_exit :
      SignalSnapshot F → Option F → Option (OpenPosition F) → Action F (Unit {0})
  hard_stop_exit s last_price before = do
    write (event hard_stop)
    close_before before s.close hard_stop_loss s.timestamp
    modify (λ b. record b { position = none })
    save_state last_price

  -- Bot._on_candle_close, given the snapshot of the last candle
  unfoldable pub on_snapshot : F → SignalSnapshot F → Option F → Action F (Unit {0})
  on_snapshot now s last_price b =
      let (position, action) = process config.definition.risk_management b.position s in
      if hard_stopped b.position s
      then hard_stop_exit s last_price b.position b
      else act now s last_price b.position action (record b { position = position })

  abbrev snapshot_result :
      Result StrategyError (SignalSnapshot F) → Result BotError (SignalSnapshot F)
  snapshot_result (ok s) = ok s
  snapshot_result (err e) = err (strategy_error e)

  abbrev series_last : Result StrategyError (List F) → Option F
  series_last (ok closes) = get_last? closes
  series_last (err e) = none

  -- Bot._on_candle_close: the feed calls it with its history at the time `now`.
  unfoldable pub on_candle_close : Ta F → F → Frame F → Action F (Unit {0})
  on_candle_close ta now history = do
    s ← lift (snapshot_result (latest_signal ta config.definition history))
    on_snapshot now s (series_last (column_of history "close"))

  -- The feed up to the stop event: the histories that it calls back with, and when.
  unfoldable pub run_feed : Ta F → List (F × Frame F) → Action F (Unit {0})
  run_feed ta [] = pure tt
  run_feed ta ((now, history) ∷ rest) = do on_candle_close ta now history; run_feed ta rest

  -- the three ends of Bot.run
  abbrev finish : Result BotError (Unit {0}) → Action F (Unit {0})
  finish (ok u) = do write (status stopped); write (event stopped_event)
  finish (err circuit_breaker_tripped) = do
    write (status circuit_broken)
    write (event circuit_breaker)
  finish (err e) = do write (status error); write (event error_event); raise e

  -- Bot.run
  unfoldable pub run : Ta F → Option F → List (F × Frame F) → Action F (Unit {0})
  run ta last_price feed b =
      let (u, b') = (do write (status running); write (event started); save_state last_price) b in
      let (r, b'') = run_feed ta feed b' in finish r b''
