-- ===== src/Execution/Bot/State.antt =====
-- The state of a bot, what it writes to the database, and actions on it.
use freqpanda.Prelude.{ℕ, String, Option, none, some, List, [], ◌∷◌, ◌++◌}
use freqpanda.Prelude.Result.{Result, ok, err}
use freqpanda.Strategy.Schema.{StrategyDefinition}
use freqpanda.Strategy.Interpreter.{ExitReason}
use freqpanda.Backtest.Costs.{TradingCosts}
use freqpanda.Execution.LiveInterpreter.{OpenPosition}
use freqpanda.Execution.Risk.{RiskMiddleware, BotError, order_rejected}
use freqpanda.Execution.Broker.{Broker}

pub data Status : Type 0 where
  running circuit_broken error stopped : Status

pub data EventKind : Type 0 where
  started circuit_breaker error_event stopped_event hard_stop order_rejected_event entry
        exit_event :
      EventKind

-- The `position` object of a row of bot_state.
pub record SavedPosition (F : Type 0) : Type 0 where
  pub entry_time : ℕ
  pub entry_price : F
  pub highest_since_entry : F
  pub quantity : F
  pub equity_at_entry : F
  pub entry_order_id : Option String

-- A row of bot_state, as `upsert_state` writes it.
pub record SavedState (F : Type 0) : Type 0 where
  pub equity : F
  pub peak_equity : F
  pub position : Option (SavedPosition F)
  pub last_price : Option F

-- A row of bot_trades.
pub record TradeRow (F : Type 0) : Type 0 where
  pub entry_time : ℕ
  pub exit_time : ℕ
  pub entry_price : F
  pub exit_price : F
  pub quantity : F
  pub exit_reason : ExitReason
  pub net_pnl_pct : F
  pub net_pnl_abs : F
  pub entry_order_id : Option String
  pub exit_order_id : Option String

-- A call of the repository that writes.
pub data Write (F : Type 0) : Type 0 where
  status : Status → Write F
  event : EventKind → Write F
  trade_row : TradeRow F → Write F
  state_saved : SavedState F → Write F
  heartbeat : Write F

-- What a bot is built with and never changes.
pub record Config (F : Type 0) : Type 0 where
  pub symbol : String
  pub definition : StrategyDefinition F
  pub broker : Broker F
  pub costs : TradingCosts F

-- The attributes that change; `position` is the tracker's.
pub record Bot (F : Type 0) : Type 0 where
  pub position : Option (OpenPosition F)
  pub equity : F
  pub equity_at_entry : F
  pub current_quantity : F
  pub entry_order_id : Option String
  pub risk : RiskMiddleware F
  pub log : List (Write F)

abbrev pub saved_position :
    {F : Type 0} → Bot F → Option (OpenPosition F) → Option (SavedPosition F)
saved_position b none = none
saved_position b (some p) = some (record {
  entry_time = p.entry_time;
  entry_price = p.entry_price;
  highest_since_entry = p.highest_since_entry;
  quantity = b.current_quantity;
  equity_at_entry = b.equity_at_entry;
  entry_order_id = b.entry_order_id;
})

-- What Bot._save_state writes.
abbrev pub state_of : {F : Type 0} → Bot F → Option F → SavedState F
state_of b last_price = record {
  equity = b.equity;
  peak_equity = b.risk.peak_equity;
  position = saved_position b b.position;
  last_price = last_price;
}

abbrev pub Action : Type 0 → Type 0 → Type 0
Action F A = Bot F → Result BotError A × Bot F

abbrev pub continue :
    {F A B : Type 0} → Result BotError A → (A → Action F B) → Bot F → Result BotError B × Bot F
continue (ok a) f b = f a b
continue (err e) f b = (err e, b)

infixl 5 ◌>>=◌ ◌>>◌
abbrev pub ◌>>=◌ : {F A B : Type 0} → Action F A → (A → Action F B) → Action F B
◌>>=◌ m f b = let (r, b') = m b in continue r f b'

abbrev pub ◌>>◌ : {F B : Type 0} → Action F (Unit {0}) → Action F B → Action F B
m >> n = m >>= λ _. n

abbrev pub pure : {F A : Type 0} → A → Action F A
pure a b = (ok a, b)

abbrev pub raise : {F A : Type 0} → BotError → Action F A
raise e b = (err e, b)

abbrev pub lift : {F A : Type 0} → Result BotError A → Action F A
lift r b = (r, b)

abbrev pub modify : {F : Type 0} → (Bot F → Bot F) → Action F (Unit {0})
modify f b = (ok tt, f b)

abbrev pub write : {F : Type 0} → Write F → Action F (Unit {0})
write w b = (ok tt, record b { log = b.log ++ (w ∷ []) })

-- self.risk.…(…): the bot's middleware is the one after the call
abbrev pub with_risk :
    {F : Type 0}
    → (RiskMiddleware F → Result BotError (Unit {0}) × RiskMiddleware F)
    → Action F (Unit {0})
with_risk f b = let (r, m) = f b.risk in (r, record b { risk = m })

-- try: check … except OrderRejected: rejected … else: passed
abbrev pub catch_rejected :
    {F : Type 0}
    → Result BotError (Unit {0})
    → Action F (Unit {0})
    → Action F (Unit {0})
    → Action F (Unit {0})
catch_rejected (ok u) rejected passed b = passed b
catch_rejected (err (order_rejected p)) rejected passed b = rejected b
catch_rejected (err e) rejected passed b = (err e, b)
