-- ===== src/Examples/Vault.antt =====
-- A stored credential, under a cipher that puts a letter in front.
use freqpanda.Prelude.{
  String, ◌≡◌, refl, ap, Bool, Bool-cases, inl, inr, true, false, none, some, [], Any, ◌⊎◌, str_eq,
  eq_iff, arith,
}
use freqpanda.Prelude.Fixed.{Fixed, fixed_float}
use freqpanda.Api.Bots.{stop, serve}
use freqpanda.Api.Credentials.{
  Vault, CredentialRequest, given, create_credential, delete_credential, get_decrypted_credential,
}
use freqpanda.Api.Credentials.Sealed.{HasLabel, create_credential-get_decrypted_credential}
use freqpanda.Api.Credentials.Kept.{IsReferential}
use freqpanda.Api.Credentials.Referred.{requests-IsReferential}
use freqpanda.Examples.Api.{db}

abbrev encrypt : String → String
encrypt s = String.◌∷◌ "k" s

abbrev decrypt : String → String
decrypt String.[] = String.[]
decrypt (String.◌∷◌ c s) = s

abbrev is_blank : String → Bool
is_blank String.[] = true
is_blank (String.◌∷◌ c s) = false

encrypt_long : (x : String) → str_eq (encrypt x) "" ≡ false
encrypt_long x = elim (Bool-cases (str_eq (encrypt x) "")) [
  | inl e ↦ absurd (ground (arith, ap is_blank ((eq_iff (encrypt x) "").0 e)))
  | inr e ↦ e
]

abbrev vault : Vault Fixed
vault = record { db = db; secrets = [] }

abbrev body : CredentialRequest
body = record {
  exchange_id = "binance";
  label = "second";
  api_key = "key";
  api_secret = "secret";
  password = some "";
}

-- The caller's other credential has another label.
create_credential-get_decrypted_credential_example :
    let after = (create_credential encrypt "c2" "ann" 7 body vault).1 in
    ((Any (HasLabel "ann" "second") db.credentials → ⊥)
      × (get_decrypted_credential decrypt after "c2"
          ≡ some (record {
            exchange_id = "binance";
            api_key = "key";
            api_secret = "secret";
            password = given (some "");
          })))
    ⊎ (Any (HasLabel "ann" "second") db.credentials
        × (after ≡ vault)
        × (get_decrypted_credential decrypt after "c2" ≡ none))
create_credential-get_decrypted_credential_example =
    create_credential-get_decrypted_credential encrypt decrypt "c2" "ann" 7 body vault (λ x. refl)
      encrypt_long refl refl

-- The bot b1 refers to c1, which is then not deleted.
requests-IsReferential_example :
    IsReferential (serve "ann" (stop "b1" 9) db)
    × IsReferential (create_credential encrypt "c1" "ann" 9 body vault).1.db
    × IsReferential (delete_credential "c1" "ann" vault).1.db
requests-IsReferential_example =
    requests-IsReferential vault (inl (refl, refl), tt) "ann" (stop "b1" 9) encrypt "c1" 9 body
