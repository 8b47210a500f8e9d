-- ===== src/Api/Bots/Tenants.antt =====
-- What a caller's requests do to the bots of others.
use mathlib.Core.List.{append-nil}
use freqpanda.Prelude.{
  ℕ, String, ◌≡◌, refl, ◌∙◌, Bool, true, false, not, ◌&&◌, Option, none, some, List, [], ◌∷◌, ◌++◌,
  str_eq, eq_iff, arith, if◌then◌else◌,
}
use freqpanda.Prelude.Result.{Result, ok, err}
use freqpanda.Prelude.Float.{Float}
use freqpanda.Execution.Repository.{
  BotFields, BotRecord, Database, DesiredStatus, select, update, updated, is_own, new_row, dangling,
  is_none_of, Credential, IntegrityError, wants, desired_running, desired_stopped,
}
use freqpanda.Execution.Repository
use freqpanda.Api.Bots.{
  Request, create, delete, start, stop, serve, create_bot, delete_bot, start_bot, stop_bot,
  BotCreateRequest, inserted, after_start, after_stop, delete_found, start_found, is_live, owns,
  not_found,
}

module _ {F : Type 0} where
  -- The bots that are not the caller's.
  abbrev pub others : String → List (BotRecord F) → List (BotRecord F)
  others created_by = select (λ row. not (str_eq row.created_by created_by))

  others-append :
      (created_by : String) (xs ys : List (BotRecord F))
      → others created_by (xs ++ ys) ≡ others created_by xs ++ others created_by ys
  others-append created_by [] ys = refl
  others-append created_by (x ∷ xs) ys = ground (arith, others-append created_by xs ys)

  others-delete :
      (bot_id created_by : String) (xs : List (BotRecord F))
      → others created_by (select (λ row. not (is_own bot_id created_by row)) xs)
        ≡ others created_by xs
  others-delete bot_id created_by [] = refl
  others-delete bot_id created_by (x ∷ xs) = ground (arith, others-delete bot_id created_by xs)

  others-update :
      (bot_id created_by : String) (f : BotRecord F → BotRecord F) (xs : List (BotRecord F))
      → ((row : BotRecord F) → (f row).created_by ≡ row.created_by)
      → others created_by (update (is_own bot_id created_by) f xs) ≡ others created_by xs
  others-update bot_id created_by f [] keeps = refl
  others-update bot_id created_by f (x ∷ xs) keeps =
      ground (arith, others-update bot_id created_by f xs keeps, keeps x)

  -- A result after which the bots of others are as they were.
  record Keeps {κ} {A : Type κ} (created_by : String) (db : Database F) (after : A × Database F)
      : Type 0 where
    kept : others created_by after.1.bots ≡ others created_by db.bots

  same {κ} :
      {A : Type κ} (created_by : String) (db : Database F) (a : A) → Keeps created_by db (a, db)
  same created_by db a = record { kept = refl }

  if-Keeps {κ} :
      {A : Type κ} (created_by : String) (db : Database F) (b : Bool) (x y : A × Database F)
      → Keeps created_by db x
      → Keeps created_by db y
      → Keeps created_by db (if b then x else y)
  if-Keeps created_by db true x y hx hy = hx
  if-Keeps created_by db false x y hx hy = hy

  insert-Keeps :
      (db : Database F) (bot_id created_by : String) (now : ℕ) (fields : BotFields F)
      (r : Result IntegrityError (BotRecord F))
      → Keeps created_by db
          (r, record db { bots = db.bots ++ (new_row bot_id created_by now fields ∷ []) })
  insert-Keeps db bot_id created_by now fields r = record {
    kept =
        others-append created_by db.bots (new_row bot_id created_by now fields ∷ [])
        ∙ ground (arith, eq_iff created_by created_by, append-nil (others created_by db.bots));
  }

  create_bot-Keeps :
      (db : Database F) (bot_id created_by : String) (now : ℕ) (fields : BotFields F)
      → Keeps created_by db (Repository.create_bot db bot_id created_by now fields)
  unfolding Repository.create_bot
  create_bot-Keeps db bot_id created_by now fields = search (if-Keeps, same, insert-Keeps)

  set_desired_status-Keeps :
      (db : Database F) (bot_id created_by : String) (now : ℕ) (s : DesiredStatus)
      → Keeps created_by db (Repository.set_desired_status db bot_id created_by now s)
  unfolding Repository.set_desired_status
  set_desired_status-Keeps db bot_id created_by now s = record {
    kept = others-update bot_id created_by _ db.bots (λ row. refl);
  }

module _ {F : Type 0} ⦃fl : Float F⦄ where
  inserted-Keeps :
      (created_by : String) (db : Database F) (m : Result IntegrityError (BotRecord F) × Database F)
      → Keeps created_by db m
      → Keeps created_by db (inserted m)
  inserted-Keeps created_by db (ok row, after) h = record { kept = h.kept }
  inserted-Keeps created_by db (err e, after) h = record { kept = h.kept }

  after-Keeps :
      (created_by : String) (db : Database F) (m : Option (BotRecord F) × Database F)
      → Keeps created_by db m
      → Keeps created_by db (after_start m) × Keeps created_by db (after_stop m)
  after-Keeps created_by db (none, after) h = (record { kept = h.kept }, record { kept = h.kept })
  after-Keeps created_by db (some row, after) h =
      (record { kept = h.kept }, record { kept = h.kept })

  delete_found-Keeps :
      (bot_id created_by : String) (row : Option (BotRecord F)) (db : Database F)
      → Keeps created_by db (delete_found bot_id created_by row db)
  unfolding Repository.delete_bot
  delete_found-Keeps bot_id created_by none db = same created_by db _
  delete_found-Keeps bot_id created_by (some row) db =
      if-Keeps created_by db (wants row.desired_status desired_running) _ _ (same created_by db _)
        (record { kept = others-delete bot_id created_by db.bots })

  start_found-Keeps :
      (bot_id : String) (now : ℕ) (created_by : String) (row : Option (BotRecord F))
      (db : Database F)
      → Keeps created_by db (start_found bot_id now created_by row db)
  start_found-Keeps bot_id now created_by none db = same created_by db _
  start_found-Keeps bot_id now created_by (some row) db =
      let unowned = not (owns db created_by row.fields.credential_id) in
      let set = Repository.set_desired_status db bot_id created_by now desired_running in
      if-Keeps created_by db (is_live row.fields.mode && unowned) (err not_found, db)
        (after_start set) (same created_by db (err not_found))
        (after-Keeps created_by db set
          (set_desired_status-Keeps db bot_id created_by now desired_running)).0

  create-Keeps :
      (bot_id : String) (now : ℕ) (body : BotCreateRequest F) (created_by : String)
      (db : Database F)
      → Keeps created_by db (create_bot bot_id now body created_by db)
  unfolding create_bot
  create-Keeps bot_id now body created_by db =
      search (if-Keeps, same, inserted-Keeps, create_bot-Keeps)

  -- Whatever a caller requests of the bots, the bots of all others stay as they are, in their order.
  pub serve-others :
      (created_by : String) (request : Request F) (db : Database F)
      → others created_by (serve created_by request db).bots ≡ others created_by db.bots
  unfolding serve create_bot delete_bot start_bot stop_bot
  serve-others created_by (create bot_id now body) db =
      (create-Keeps bot_id now body created_by db).kept
  serve-others created_by (delete bot_id) db =
      (delete_found-Keeps bot_id created_by (Repository.get_bot db bot_id created_by) db).kept
  serve-others created_by (start bot_id now) db =
      (start_found-Keeps bot_id now created_by (Repository.get_bot db bot_id created_by) db).kept
  serve-others created_by (stop bot_id now) db =
      (after-Keeps created_by db _
        (set_desired_status-Keeps db bot_id created_by now desired_stopped)).1.kept
