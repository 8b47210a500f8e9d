-- ===== src/Examples/Runtime.antt =====
-- What a bot writes in a trade, in the tables.
use freqpanda.Prelude.{◌⊎◌, ℕ, String, ◌≡◌, Option, none, some, List, [], ◌∷◌, ◌++◌, take}
use freqpanda.Prelude.Fixed.{Fixed, bp}
use freqpanda.Strategy.Interpreter.{take_profit, or_else}
use freqpanda.Execution.Bot.State.{
  SavedState, TradeRow, Write, Status, status, trade_row, state_saved, heartbeat,
}
use freqpanda.Execution.Bot.Persistence.{last_saved}
use freqpanda.Execution.Runtime.{Runtime, get_state, list_trades, replay}
use freqpanda.Execution.Runtime.Replay.{
  Owns, saved_of, saved_in, trades_in, trades_of, writes_of, replay_lem,
}
use freqpanda.Api.Rows.{newest_first}
use freqpanda.Examples.Sample.{whole}
use freqpanda.Examples.Api.{db}

abbrev bought : SavedState Fixed
bought = record {
  equity = whole 1000;
  peak_equity = whole 1000;
  position = some (record {
    entry_time = 1000;
    entry_price = whole 99;
    highest_since_entry = whole 99;
    quantity = whole 10;
    equity_at_entry = whole 1000;
    entry_order_id = none;
  });
  last_price = some (whole 99);
}

abbrev sold : SavedState Fixed
sold = record {
  equity = whole 1090;
  peak_equity = whole 1090;
  position = none;
  last_price = some (whole 109);
}

abbrev trade : TradeRow Fixed
trade = record {
  entry_time = 1000;
  exit_time = 3000;
  entry_price = whole 99;
  exit_price = whole 109;
  quantity = whole 10;
  exit_reason = take_profit;
  net_pnl_pct = bp 900;
  net_pnl_abs = whole 90;
  entry_order_id = none;
  exit_order_id = none;
}

abbrev writes : List ((ℕ × Option String) × Write Fixed)
writes =
    ((10, none), status Status.running)
    ∷ ((20, none), state_saved bought)
    ∷ ((30, none), heartbeat)
    ∷ ((40, none), trade_row trade)
    ∷ ((40, none), state_saved sold)
    ∷ []

abbrev blank : Runtime Fixed
blank = record { states = []; trades = []; events = [] }

replay_lem_example :
    let after = replay "b1" writes (db, blank) in
    let state = saved_of (get_state after.0 after.1 "b1" "ann") in
    let trades = list_trades after.0 after.1 "b1" "ann" 200 in
    (Owns "b1" db "ann"
      × (state ≡ or_else (last_saved (writes_of writes)) (saved_in "b1" blank))
      × (trades
          ≡ take 200 (
              newest_first
                (λ (t : TradeRow Fixed). t.exit_time)
                (trades_in "b1" blank ++ trades_of (writes_of writes)))))
    ⊎ ((Owns "b1" db "ann" → ⊥) × (state ≡ none) × (trades ≡ []))
replay_lem_example = replay_lem "b1" writes db blank "ann" 200
