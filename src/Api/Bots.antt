-- ===== src/Api/Bots.antt =====
-- freqpanda_api/routers/bots.py and the bot schemas of freqpanda_api/schemas.py. A handler gives its
-- response or an error of HTTP, and the database after it. `created_by` is the caller.
pub mod Tenants
use freqpanda.Prelude.{
  ℕ, String, Bool, true, false, not, ◌&&◌, ◌||◌, Option, none, some, List, [], ◌∷◌, str_eq,
  if◌then◌else◌,
}
use freqpanda.Prelude.Result.{Result, ok, err}
use freqpanda.Prelude.Float.{Float, nought, one}
use freqpanda.Execution.Repository.{
  Mode, paper_mode, live_mode, DesiredStatus, desired_running, desired_stopped, wants, BotFields,
  BotRecord, Credential, Database, IntegrityError, select, is_none_of, list_credentials,
}
use freqpanda.Execution.Repository

pub data HttpError : Type 0 where
  not_found conflict unprocessable server_error : HttpError

-- BotCreateRequest
pub record BotCreateRequest (F : Type 0) : Type 0 where
  pub fields : BotFields F
  pub confirm_live : Bool

abbrev pub Reply : Type 0 → Type 0 → Type 0
Reply F A = Result HttpError A × Database F

-- The requests that write.
pub data Request (F : Type 0) : Type 0 where
  create : String → ℕ → BotCreateRequest F → Request F
  delete : String → Request F
  start : String → ℕ → Request F
  stop : String → ℕ → Request F

-- BotCreateRequest._check_live_transition_is_explicit
unfoldable pub check_live_transition : Mode → Option String → Bool → Bool
check_live_transition live_mode none confirm_live = false
check_live_transition live_mode (some c) confirm_live = confirm_live
check_live_transition paper_mode none confirm_live = true
check_live_transition paper_mode (some c) confirm_live = false

abbrev pub is_given : Option String → Bool
is_given none = false
is_given (some c) = true

abbrev pub is_live : Mode → Bool
is_live live_mode = true
is_live paper_mode = false

module _ {F : Type 0} ⦃fl : Float F⦄ where
  open fl use {lt, le}

  -- Every check that parsing the request makes.
  unfoldable pub check_request : BotCreateRequest F → Bool
  unfolding check_live_transition
  check_request body =
      let f = body.fields in
      lt nought f.initial_capital
      && le nought f.fee_pct
      && le nought f.slippage_pct
      && (lt nought f.max_drawdown_pct && lt f.max_drawdown_pct one)
      && lt nought f.max_position_notional_pct
      && lt nought f.max_price_deviation_pct
      && check_live_transition f.mode f.credential_id body.confirm_live

  -- _require_owned_credential, of an id that may be None
  abbrev pub owns : Database F → String → Option String → Bool
  owns db created_by none = false
  owns db created_by (some c) =
      not (
        is_none_of
          (select (λ (row : Credential). str_eq row.id c) (list_credentials db created_by)))

  abbrev pub inserted : Result IntegrityError (BotRecord F) × Database F → Reply F (BotRecord F)
  inserted (ok row, db) = (ok row, db)
  inserted (err e, db) = (err server_error, db)

  -- create_bot, of a request before it is parsed; the id and the time are the repository's.
  unfoldable pub create_bot :
      (bot_id : String)
      → (now : ℕ) → BotCreateRequest F
      → String
      → Database F
      → Reply F (BotRecord F)
  create_bot bot_id now body created_by db =
      let credential = body.fields.credential_id in
      if not (check_request body)
      then (err unprocessable, db)
      else if is_given credential && not (owns db created_by credential)
      then (err not_found, db)
      else inserted (Repository.create_bot db bot_id created_by now body.fields)

  abbrev pub found : Option (BotRecord F) → Database F → Reply F (BotRecord F)
  found none db = (err not_found, db)
  found (some row) db = (ok row, db)

  unfoldable pub get_bot : String → String → Database F → Reply F (BotRecord F)
  get_bot bot_id created_by db = found (Repository.get_bot db bot_id created_by) db

  unfoldable pub list_bots : String → Database F → Reply F (List (BotRecord F))
  list_bots created_by db = (ok (Repository.list_bots db created_by), db)

  abbrev pub delete_found : String → String → Option (BotRecord F) → Database F → Reply F (Unit {0})
  delete_found bot_id created_by none db = (err not_found, db)
  delete_found bot_id created_by (some row) db =
      if wants row.desired_status desired_running
      then (err conflict, db)
      else (ok tt, (Repository.delete_bot db bot_id created_by).1)

  unfoldable pub delete_bot : String → String → Database F → Reply F (Unit {0})
  delete_bot bot_id created_by db =
      delete_found bot_id created_by (Repository.get_bot db bot_id created_by) db

  -- The response to an update that found a row, or none: the former reads its fields, of None.
  abbrev pub after_start : Option (BotRecord F) × Database F → Reply F (BotRecord F)
  after_start (none, db) = (err server_error, db)
  after_start (some row, db) = (ok row, db)

  abbrev pub start_found :
      String → ℕ → String → Option (BotRecord F) → Database F → Reply F (BotRecord F)
  start_found bot_id now created_by none db = (err not_found, db)
  start_found bot_id now created_by (some row) db =
      if is_live row.fields.mode && not (owns db created_by row.fields.credential_id)
      then (err not_found, db)
      else after_start (Repository.set_desired_status db bot_id created_by now desired_running)

  unfoldable pub start_bot : String → ℕ → String → Database F → Reply F (BotRecord F)
  start_bot bot_id now created_by db =
      start_found bot_id now created_by (Repository.get_bot db bot_id created_by) db

  abbrev pub after_stop : Option (BotRecord F) × Database F → Reply F (BotRecord F)
  after_stop (none, db) = (err not_found, db)
  after_stop (some row, db) = (ok row, db)

  unfoldable pub stop_bot : String → ℕ → String → Database F → Reply F (BotRecord F)
  stop_bot bot_id now created_by db =
      after_stop (Repository.set_desired_status db bot_id created_by now desired_stopped)

  -- The database after a request of a caller.
  unfoldable pub serve : String → Request F → Database F → Database F
  serve created_by (create bot_id now body) db = (create_bot bot_id now body created_by db).1
  serve created_by (delete bot_id) db = (delete_bot bot_id created_by db).1
  serve created_by (start bot_id now) db = (start_bot bot_id now created_by db).1
  serve created_by (stop bot_id now) db = (stop_bot bot_id now created_by db).1
