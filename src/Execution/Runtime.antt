-- ===== src/Execution/Runtime.antt =====
-- freqpanda_execution/repository.py: the runtime state, the trades and the events of bots, and the
-- routes that read them (freqpanda_api/routers/bots.py). The numbers of a position are finite, so
-- _json_safe leaves them; the message and the data of an event are left out.
pub mod Replay
use freqpanda.Prelude.{
  ℕ, String, Bool, true, false, not, ◌&&◌, Option, none, some, List, [], ◌∷◌, ◌++◌, map, take,
  str_eq, if◌then◌else◌,
}
use freqpanda.Prelude.Result.{Result, ok, err}
use freqpanda.Execution.Bot.State.{
  SavedState, TradeRow, EventKind, Write, status, event, trade_row, state_saved, heartbeat,
}
use freqpanda.Execution.Repository.{
  Database, BotRecord, select, first, is_none_of, update, is_own, update_status,
}
use freqpanda.Api.Rows.{newest_first}
use freqpanda.Api.Bots.{HttpError, not_found}

-- BotState, with what a bot saves as one field
pub record StateRow (F : Type 0) : Type 0 where
  pub bot_id : String
  pub saved : SavedState F
  pub last_heartbeat_at : ℕ
  pub updated_at : ℕ

pub record EventRow : Type 0 where
  pub bot_id : String
  pub event_type : EventKind
  pub created_at : ℕ

pub record Runtime (F : Type 0) : Type 0 where
  pub states : List (StateRow F)
  pub trades : List (String × TradeRow F)
  pub events : List EventRow

module _ {F : Type 0} where
  abbrev pub is_state_of : String → StateRow F → Bool
  is_state_of bot_id row = str_eq row.bot_id bot_id

  abbrev pub new_state : String → ℕ → SavedState F → StateRow F
  new_state bot_id now saved = record {
    bot_id = bot_id;
    saved = saved;
    last_heartbeat_at = now;
    updated_at = now;
  }

  -- insert … on conflict (bot_id) do update set …
  unfoldable pub upsert_into : String → ℕ → SavedState F → List (StateRow F) → List (StateRow F)
  upsert_into bot_id now saved [] = new_state bot_id now saved ∷ []
  upsert_into bot_id now saved (row ∷ rows) =
      let rest = upsert_into bot_id now saved rows in
      if is_state_of bot_id row then new_state bot_id now saved ∷ rows else row ∷ rest

  unfoldable pub upsert_state : String → ℕ → SavedState F → Runtime F → Runtime F
  unfolding upsert_into
  upsert_state bot_id now saved rt = record rt { states = upsert_into bot_id now saved rt.states }

  unfoldable pub beat : String → ℕ → Runtime F → Runtime F
  beat bot_id now rt = record rt {
    states = update (is_state_of bot_id) (λ row. record row { last_heartbeat_at = now }) rt.states;
  }

  unfoldable pub record_trade : String → TradeRow F → Runtime F → Runtime F
  record_trade bot_id trade rt = record rt { trades = rt.trades ++ ((bot_id, trade) ∷ []) }

  unfoldable pub record_event : String → ℕ → EventKind → Runtime F → Runtime F
  record_event bot_id now kind rt = record rt {
    events = rt.events ++ (record { bot_id = bot_id; event_type = kind; created_at = now } ∷ []);
  }

  -- join bots b on … where b.created_by = …; the id of a bot is a primary key
  abbrev pub joins : Database F → String → String → Bool
  joins db bot_id created_by = not (is_none_of (select (is_own bot_id created_by) db.bots))

  unfoldable pub get_state : Database F → Runtime F → String → String → Option (StateRow F)
  get_state db rt bot_id created_by =
      if joins db bot_id created_by then first (select (is_state_of bot_id) rt.states) else none

  unfoldable pub list_trades : Database F → Runtime F → String → String → ℕ → List (TradeRow F)
  list_trades db rt bot_id created_by limit =
      if joins db bot_id created_by
      then take limit (
          newest_first (λ t. t.exit_time)
            (map (λ row. row.1) (select (λ row. str_eq row.0 bot_id) rt.trades)))
      else []

  unfoldable pub list_events : Database F → Runtime F → String → String → ℕ → List EventRow
  list_events db rt bot_id created_by limit =
      if joins db bot_id created_by
      then take limit
          (newest_first (λ e. e.created_at) (select (λ e. str_eq e.bot_id bot_id) rt.events))
      else []

  unfoldable pub get_bot_state :
      Database F → Runtime F → String → String → Result HttpError (StateRow F)
  unfolding get_state
  get_bot_state db rt bot_id created_by = elim (get_state db rt bot_id created_by) [
    | none ↦ err not_found
    | some row ↦ ok row
  ]

  -- One call of the repository by a bot, at a time and with the message of a status.
  unfoldable pub apply_write :
      String → ℕ × Option String → Write F → Database F × Runtime F → Database F × Runtime F
  unfolding upsert_state beat record_trade record_event
  apply_write bot_id (now, message) (status s) (db, rt) =
      (update_status db bot_id now s message, rt)
  apply_write bot_id (now, message) (event kind) (db, rt) = (db, record_event bot_id now kind rt)
  apply_write bot_id (now, message) (trade_row t) (db, rt) = (db, record_trade bot_id t rt)
  apply_write bot_id (now, message) (state_saved s) (db, rt) = (db, upsert_state bot_id now s rt)
  apply_write bot_id (now, message) heartbeat (db, rt) = (db, beat bot_id now rt)

  unfoldable pub replay :
      String
      → List ((ℕ × Option String) × Write F)
      → Database F × Runtime F
      → Database F × Runtime F
  unfolding apply_write
  replay bot_id [] tables = tables
  replay bot_id ((stamp, w) ∷ ws) tables = replay bot_id ws (apply_write bot_id stamp w tables)
