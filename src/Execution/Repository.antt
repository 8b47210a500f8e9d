-- ===== src/Execution/Repository.antt =====
-- freqpanda_execution/repository.py: bots and credentials. The SQL statements act on tables that are
-- lists of rows in the order of insertion; ids and the time are given. Ciphertexts are left out.
use freqpanda.Prelude.{
  ℕ, String, Bool, true, false, not, ◌&&◌, Option, none, some, List, [], ◌∷◌, ◌++◌, leb, str_eq,
  if◌then◌else◌,
}
use freqpanda.Prelude.Result.{Result, ok, err}
use freqpanda.Execution.Bot.State.{Status, stopped}

pub data Mode : Type 0 where
  paper_mode live_mode : Mode

pub data DesiredStatus : Type 0 where
  desired_running desired_stopped : DesiredStatus

-- What a caller chooses of a bot: the keyword arguments of create_bot.
pub record BotFields (F : Type 0) : Type 0 where
  pub name : String
  pub strategy_id : String
  pub exchange_id : String
  pub symbol : String
  pub timeframe : String
  pub mode : Mode
  pub credential_id : Option String
  pub initial_capital : F
  pub fee_pct : F
  pub slippage_pct : F
  pub max_drawdown_pct : F
  pub max_position_notional_pct : F
  pub max_price_deviation_pct : F

pub record BotRecord (F : Type 0) : Type 0 where
  pub id : String
  pub fields : BotFields F
  pub desired_status : DesiredStatus
  pub status : Status
  pub status_message : Option String
  pub created_by : String
  pub created_at : ℕ
  pub updated_at : ℕ

pub record Credential : Type 0 where
  pub id : String
  pub created_by : String
  pub exchange_id : String
  pub label : String
  pub created_at : ℕ

-- The tables that these statements read and write; of a strategy only its id and its owner.
pub record Database (F : Type 0) : Type 0 where
  pub bots : List (BotRecord F)
  pub credentials : List Credential
  pub strategies : List (String × String)

-- A constraint of the database that an insert violates.
pub data IntegrityError : Type 0 where
  no_strategy no_credential : IntegrityError

abbrev pub select {ℓ} : {A : Type ℓ} → (A → Bool) → List A → List A
select p [] = []
select p (x ∷ xs) = if p x then x ∷ select p xs else select p xs

abbrev pub first {ℓ} : {A : Type ℓ} → List A → Option A
first [] = none
first (x ∷ xs) = some x

abbrev pub is_none_of {ℓ} : {A : Type ℓ} → List A → Bool
is_none_of [] = true
is_none_of (x ∷ xs) = false

-- update … set … where …, and the rows that it returns
abbrev pub update {ℓ} : {A : Type ℓ} → (A → Bool) → (A → A) → List A → List A
update p f [] = []
update p f (x ∷ xs) = (if p x then f x else x) ∷ update p f xs

abbrev pub updated {ℓ} : {A : Type ℓ} → (A → Bool) → (A → A) → List A → List A
updated p f [] = []
updated p f (x ∷ xs) = if p x then f x ∷ updated p f xs else updated p f xs

abbrev pub wants : DesiredStatus → DesiredStatus → Bool
wants desired_running desired_running = true
wants desired_stopped desired_stopped = true
wants _ _ = false

module _ {F : Type 0} where
  -- where id = … and created_by = …
  abbrev pub is_own : String → String → BotRecord F → Bool
  is_own bot_id created_by row = str_eq row.id bot_id && str_eq row.created_by created_by

  abbrev pub has_id : String → BotRecord F → Bool
  has_id bot_id row = str_eq row.id bot_id

  -- order by created_at desc
  abbrev pub newest_into : BotRecord F → List (BotRecord F) → List (BotRecord F)
  newest_into row [] = row ∷ []
  newest_into row (x ∷ xs) =
      if leb row.created_at x.created_at then x ∷ newest_into row xs else row ∷ x ∷ xs

  abbrev pub newest_first : List (BotRecord F) → List (BotRecord F)
  newest_first [] = []
  newest_first (x ∷ xs) = newest_into x (newest_first xs)

  unfoldable pub get_bot : Database F → String → String → Option (BotRecord F)
  get_bot db bot_id created_by = first (select (is_own bot_id created_by) db.bots)

  unfoldable pub get_bot_unscoped : Database F → String → Option (BotRecord F)
  get_bot_unscoped db bot_id = first (select (has_id bot_id) db.bots)

  unfoldable pub list_bots : Database F → String → List (BotRecord F)
  list_bots db created_by = newest_first (select (λ row. str_eq row.created_by created_by) db.bots)

  unfoldable pub list_bots_by_desired_status : Database F → DesiredStatus → List (BotRecord F)
  list_bots_by_desired_status db s = select (λ row. wants row.desired_status s) db.bots

  -- The row that create_bot inserts, with the defaults of the table.
  abbrev pub new_row : String → String → ℕ → BotFields F → BotRecord F
  new_row bot_id created_by now fields = record {
    id = bot_id;
    fields = fields;
    desired_status = desired_stopped;
    status = stopped;
    status_message = none;
    created_by = created_by;
    created_at = now;
    updated_at = now;
  }

  -- references exchange_credentials(id), where there is one
  abbrev pub dangling : Database F → Option String → Bool
  dangling db none = false
  dangling db (some c) = is_none_of (select (λ (row : Credential). str_eq row.id c) db.credentials)

  unfoldable pub create_bot :
      Database F
      → (bot_id created_by : String) → ℕ
      → BotFields F
      → Result IntegrityError (BotRecord F) × Database F
  create_bot db bot_id created_by now fields =
      let row = new_row bot_id created_by now fields in
      if is_none_of (select (λ (s : String × String). str_eq s.0 fields.strategy_id) db.strategies)
      then (err no_strategy, db)
      else if dangling db fields.credential_id
      then (err no_credential, db)
      else (ok row, record db { bots = db.bots ++ (row ∷ []) })

  unfoldable pub set_desired_status :
      Database F
      → (bot_id created_by : String) → ℕ
      → DesiredStatus
      → Option (BotRecord F) × Database F
  set_desired_status db bot_id created_by now s =
      let set = λ (row : BotRecord F). record row { desired_status = s; updated_at = now } in
      (
        first (updated (is_own bot_id created_by) set db.bots),
        record db { bots = update (is_own bot_id created_by) set db.bots },
      )

  unfoldable pub update_status : Database F → String → ℕ → Status → Option String → Database F
  update_status db bot_id now s message = record db {
    bots =
        update (has_id bot_id)
          (λ row. record row { status = s; status_message = message; updated_at = now }) db.bots;
  }

  unfoldable pub delete_bot : Database F → String → String → Bool × Database F
  delete_bot db bot_id created_by = (
    not (is_none_of (select (is_own bot_id created_by) db.bots)),
    record db { bots = select (λ row. not (is_own bot_id created_by row)) db.bots },
  )

  -- The credentials of a caller, in the order of insertion; the callers only look at the ids.
  unfoldable pub list_credentials : Database F → String → List Credential
  list_credentials db created_by = select (λ row. str_eq row.created_by created_by) db.credentials
