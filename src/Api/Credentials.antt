-- ===== src/Api/Credentials.antt =====
-- The credentials of freqpanda_execution/repository.py and their routes in freqpanda_api/routers/bots.py.
-- A table keeps its ciphertexts apart from what a listing shows. `encrypt` and `decrypt` are those of
-- crypto.py, a cipher of a library with the key of the environment.
pub mod Sealed
pub mod Kept
pub mod Referred
use freqpanda.Prelude.{
  ℕ, String, Bool, true, false, not, ◌&&◌, Option, none, some, List, [], ◌∷◌, ◌++◌, map, str_eq,
  if◌then◌else◌,
}
use freqpanda.Prelude.Result.{Result, ok, err}
use freqpanda.Execution.Repository.{
  Credential, Database, BotRecord, select, first, is_none_of, list_credentials,
}
use freqpanda.Api.Bots.{HttpError, not_found, server_error}

pub record Secrets : Type 0 where
  pub id : String
  pub encrypted_api_key : String
  pub encrypted_api_secret : String
  pub encrypted_password : Option String

pub record DecryptedCredential : Type 0 where
  pub exchange_id : String
  pub api_key : String
  pub api_secret : String
  pub password : Option String

-- The database with the ciphertexts of its credentials.
pub record Vault (F : Type 0) : Type 0 where
  pub db : Database F
  pub secrets : List Secrets

-- ExchangeCredentialCreateRequest
pub record CredentialRequest : Type 0 where
  pub exchange_id : String
  pub label : String
  pub api_key : String
  pub api_secret : String
  pub password : Option String

-- The password that is given and not empty.
abbrev pub given : Option String → Option String
given none = none
given (some p) = if str_eq p "" then none else some p

abbrev pub map_option : (String → String) → Option String → Option String
map_option f none = none
map_option f (some p) = some (f p)

abbrev pub refers_to : String → Option String → Bool
refers_to id none = false
refers_to id (some c) = str_eq c id

abbrev pub new_credential : String → String → ℕ → CredentialRequest → Credential
new_credential id created_by now body = record {
  id = id;
  created_by = created_by;
  exchange_id = body.exchange_id;
  label = body.label;
  created_at = now;
}

abbrev pub is_owned : String → String → Credential → Bool
is_owned id created_by row = str_eq row.id id && str_eq row.created_by created_by

abbrev pub has_label : String → String → Credential → Bool
has_label created_by label row = str_eq row.created_by created_by && str_eq row.label label

module _ (encrypt : String → String) where
  abbrev pub new_secrets : String → CredentialRequest → Secrets
  new_secrets id body = record {
    id = id;
    encrypted_api_key = encrypt body.api_key;
    encrypted_api_secret = encrypt body.api_secret;
    encrypted_password = map_option encrypt (given body.password);
  }

  -- unique (created_by, label); `none` is its violation, and nothing is stored.
  unfoldable pub create_credential :
      {F : Type 0} → String → String → ℕ → CredentialRequest → Vault F → Option Credential × Vault F
  create_credential id created_by now body v =
      let row = new_credential id created_by now body in
      if is_none_of (select (has_label created_by body.label) v.db.credentials)
      then (
        some row,
        record {
          db = record v.db { credentials = v.db.credentials ++ (row ∷ []) };
          secrets = v.secrets ++ (new_secrets id body ∷ []);
        },
      )
      else (none, v)

  -- create_exchange_credential, which answers what a listing shows
  unfoldable pub create_exchange_credential :
      {F : Type 0}
      → String
      → String
      → ℕ
      → CredentialRequest
      → Vault F
      → Result HttpError Credential × Vault F
  unfolding create_credential
  create_exchange_credential id created_by now body v =
      let made = create_credential id created_by now body v in
      (elim made.0 [ none ↦ err server_error | some row ↦ ok row ], made.1)

module _ {F : Type 0} where
  -- `none` is a bot that refers to the row: nothing is deleted.
  unfoldable pub delete_credential : String → String → Vault F → Option Bool × Vault F
  delete_credential id created_by v =
      if is_none_of (select (is_owned id created_by) v.db.credentials)
      then (some false, v)
      else if is_none_of
          (select (λ (row : BotRecord F). refers_to id row.fields.credential_id) v.db.bots)
      then (
        some true,
        record {
          db = record v.db {
            credentials = select (λ row. not (is_owned id created_by row)) v.db.credentials;
          };
          secrets = select (λ s. not (str_eq s.id id)) v.secrets;
        },
      )
      else (none, v)

  unfoldable pub get_decrypted_credential :
      (String → String) → Vault F → String → Option DecryptedCredential
  get_decrypted_credential decrypt v id =
      elim (first (select (λ (row : Credential). str_eq row.id id) v.db.credentials)) [
        | none ↦ none
        | some row ↦ elim (first (select (λ (s : Secrets). str_eq s.id id) v.secrets)) [
          | none ↦ none
          | some s ↦ some (record {
            exchange_id = row.exchange_id;
            api_key = decrypt s.encrypted_api_key;
            api_secret = decrypt s.encrypted_api_secret;
            password = map_option decrypt (given s.encrypted_password);
          })
        ]
      ]

  abbrev pub after_delete : Option Bool × Vault F → Result HttpError (Unit {0}) × Vault F
  after_delete (none, v) = (err server_error, v)
  after_delete (some false, v) = (err not_found, v)
  after_delete (some true, v) = (ok tt, v)

  unfoldable pub delete_exchange_credential :
      String → String → Vault F → Result HttpError (Unit {0}) × Vault F
  unfolding delete_credential
  delete_exchange_credential id created_by v = after_delete (delete_credential id created_by v)
