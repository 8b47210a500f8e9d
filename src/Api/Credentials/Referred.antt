-- ===== src/Api/Credentials/Referred.antt =====
-- The credentials that bots name, under all requests of freqpanda_api/routers/bots.py.
use freqpanda.Prelude.{
  ℕ, String, ◌≡◌, Bool, Bool-cases, inl, inr, true, false, not, ◌&&◌, Option, none, some, [], ◌∷◌,
  str_eq, arith, All-append, if◌then◌else◌,
}
use freqpanda.Prelude.Result.{Result, ok, err}
use freqpanda.Prelude.Float.{Float}
use freqpanda.Execution.Repository.{
  BotFields, BotRecord, Credential, Database, select, first, update, is_none_of, is_own, dangling,
  new_row, wants, desired_running, IntegrityError,
}
use freqpanda.Execution.Repository
use freqpanda.Api.Bots.{
  Request, create, delete, start, stop, serve, create_bot, delete_bot, start_bot, stop_bot,
  inserted, after_start, after_stop, delete_found, start_found, is_live, is_given, check_request,
  check_live_transition, owns, BotCreateRequest,
}
use freqpanda.Api.Credentials.{Vault, CredentialRequest, create_credential, delete_credential}
use freqpanda.Api.System.Tables.{All-select, All-update}
use freqpanda.Api.Credentials.Kept.{
  IsReferential, HasOwn, owns-HasOwn, create_credential-IsReferential,
  delete_credential-IsReferential,
}

module _ {F : Type 0} where
  -- A result after which every bot has its credential.
  record Holds {κ} {A : Type κ} (after : A × Database F) : Type 0 where
    held : IsReferential after.1

  if-Holds {κ} :
      {A : Type κ} (b : Bool) (x y : A × Database F)
      → Holds x
      → Holds y
      → Holds (if b then x else y)
  if-Holds true x y hx hy = hx
  if-Holds false x y hx hy = hy

  kept {κ} : {A : Type κ} (a : A) (db : Database F) → IsReferential db → Holds (a, db)
  kept a db h = record { held = h }

  insert-Holds :
      (db : Database F) (bot_id created_by : String) (now : ℕ) (fields : BotFields F)
      → HasOwn db.credentials created_by fields.mode fields.credential_id
      → IsReferential db
      → Holds (Repository.create_bot db bot_id created_by now fields)
  unfolding Repository.create_bot
  insert-Holds db bot_id created_by now fields own h =
      elim (Bool-cases (
        is_none_of
          (select (λ (s : String × String). str_eq s.0 fields.strategy_id) db.strategies))) [
            | inl e ↦ rw e (kept _ db h)
            | inr e ↦ elim (Bool-cases (dangling db fields.credential_id)) [
              | inl d ↦ rw (e, d) (kept _ db h)
              | inr d ↦
                  rw (e, d)
                    (record {
                      held =
                          All-append
                            (λ (bot : BotRecord F).
                              HasOwn db.credentials bot.created_by bot.fields.mode
                                bot.fields.credential_id)
                            db.bots (new_row bot_id created_by now fields ∷ []) h (own, tt);
                    })
            ]
          ]

  set-Holds :
      (db : Database F) (bot_id created_by : String) (now : ℕ) (s : Repository.DesiredStatus)
      → IsReferential db
      → Holds (Repository.set_desired_status db bot_id created_by now s)
  unfolding Repository.set_desired_status
  set-Holds db bot_id created_by now s h = record {
    held =
        All-update
          (λ (bot : BotRecord F).
            HasOwn db.credentials bot.created_by bot.fields.mode bot.fields.credential_id)
          (is_own bot_id created_by) _ db.bots (λ row own r. r) h;
  }

module _ {F : Type 0} ⦃fl : Float F⦄ where
  inserted-Holds :
      (m : Result IntegrityError (BotRecord F) × Database F) → Holds m → Holds (inserted m)
  inserted-Holds (ok row, after) h = record { held = h.held }
  inserted-Holds (err e, after) h = record { held = h.held }

  after-Holds :
      (m : Option (BotRecord F) × Database F)
      → Holds m
      → Holds (after_start m) × Holds (after_stop m)
  after-Holds (none, after) h = (record { held = h.held }, record { held = h.held })
  after-Holds (some row, after) h = (record { held = h.held }, record { held = h.held })

  delete-Holds :
      (bot_id created_by : String) (row : Option (BotRecord F)) (db : Database F)
      → IsReferential db
      → Holds (delete_found bot_id created_by row db)
  unfolding Repository.delete_bot
  delete-Holds bot_id created_by none db h = kept _ db h
  delete-Holds bot_id created_by (some row) db h =
      if-Holds (wants row.desired_status desired_running) _ _ (kept _ db h)
        (record { held = All-select _ _ _ db.bots (λ r stays r_there. r_there) h })

  start-Holds :
      (bot_id : String) (now : ℕ) (created_by : String) (row : Option (BotRecord F))
      (db : Database F)
      → IsReferential db
      → Holds (start_found bot_id now created_by row db)
  start-Holds bot_id now created_by none db h = kept _ db h
  start-Holds bot_id now created_by (some row) db h =
      if-Holds (is_live row.fields.mode && not (owns db created_by row.fields.credential_id)) _ _
        (kept _ db h)
        (after-Holds (Repository.set_desired_status db bot_id created_by now desired_running)
          (set-Holds db bot_id created_by now desired_running h)).0

  check_request-transition :
      (body : BotCreateRequest F)
      → check_request body ≡ true
      → check_live_transition body.fields.mode body.fields.credential_id body.confirm_live ≡ true
  unfolding check_request
  check_request-transition body e = ground arith

  create-Holds :
      (bot_id : String) (now : ℕ) (body : BotCreateRequest F) (created_by : String)
      (db : Database F)
      → IsReferential db
      → Holds (create_bot bot_id now body created_by db)
  unfolding create_bot
  create-Holds bot_id now body created_by db h =
      let c = body.fields.credential_id in
      elim (Bool-cases (check_request body)) [
        | inr invalid ↦ rw invalid (kept _ db h)
        | inl checked ↦ elim (Bool-cases (is_given c && not (owns db created_by c))) [
          | inl refused ↦ rw (checked, refused) (kept _ db h)
          | inr passed ↦
              let own : HasOwn db.credentials created_by body.fields.mode c =
                owns-HasOwn db created_by body.fields.mode c body.confirm_live
                  (check_request-transition body checked) passed in
              rw (checked, passed)
                (inserted-Holds (Repository.create_bot db bot_id created_by now body.fields)
                  (insert-Holds db bot_id created_by now body.fields own h))
        ]
      ]

  serve-IsReferential :
      (created_by : String) (request : Request F) (db : Database F)
      → IsReferential db
      → IsReferential (serve created_by request db)
  unfolding serve create_bot delete_bot start_bot stop_bot
  serve-IsReferential created_by (create bot_id now body) db h =
      (create-Holds bot_id now body created_by db h).held
  serve-IsReferential created_by (delete bot_id) db h =
      (delete-Holds bot_id created_by (Repository.get_bot db bot_id created_by) db h).held
  serve-IsReferential created_by (start bot_id now) db h =
      (start-Holds bot_id now created_by (Repository.get_bot db bot_id created_by) db h).held
  serve-IsReferential created_by (stop bot_id now) db h =
      (after-Holds
        (Repository.set_desired_status db bot_id created_by now Repository.desired_stopped)
        (set-Holds db bot_id created_by now Repository.desired_stopped h)).1.held

  -- Where every live bot names a credential in the table that is of the bot's owner, and every paper
  -- bot names none, it stays so after any request on bots, and after a credential is stored, or
  -- refused, or deleted.
  pub requests-IsReferential :
      (v : Vault F)
      → IsReferential v.db
      → (created_by : String) (request : Request F) (encrypt : String → String) (id : String)
        (now : ℕ) (body : CredentialRequest)
      → IsReferential (serve created_by request v.db)
        × IsReferential (create_credential encrypt id created_by now body v).1.db
        × IsReferential (delete_credential id created_by v).1.db
  requests-IsReferential v h created_by request encrypt id now body = (
    serve-IsReferential created_by request v.db h,
    create_credential-IsReferential encrypt id created_by now body v h,
    delete_credential-IsReferential id created_by v h,
  )
