-- ===== src/Api/Credentials/Sealed.antt =====
-- A bot that goes live gets the credential that its owner has stored.
use freqpanda.Prelude.{
  ◌⊎◌, Any, ℕ, String, ◌≡◌, refl, ◌∙◌, ap, Bool, Bool-cases, inl, inr, true, false, Option, none,
  some, List, [], ◌∷◌, ◌++◌, str_eq, eq_iff, arith,
}
use freqpanda.Execution.Repository.{Credential, select, first, is_none_of}
use freqpanda.Api.Credentials.{
  has_label, Secrets, Vault, CredentialRequest, given, map_option, new_credential, new_secrets,
  create_credential, get_decrypted_credential,
}

last-found {ℓ} :
    {A : Type ℓ} (p : A → Bool) (xs : List A) (x : A)
    → is_none_of (select p xs) ≡ true
    → p x ≡ true
    → first (select p (xs ++ (x ∷ []))) ≡ some x
last-found p [] x h e = ground (arith, e)
last-found p (y ∷ ys) x h e = elim (Bool-cases (p y)) [
  | inl here ↦ absurd (ground (arith, h, here))
  | inr gone ↦ ground (arith, gone, h, e, last-found p ys x (ground (arith, h, gone)) e)
]

-- The caller's label.
abbrev pub HasLabel : String → String → Credential → Type 0
HasLabel created_by label row = (row.created_by ≡ created_by) × (row.label ≡ label)

label-cases :
    (created_by label : String) (rows : List Credential)
    → ((is_none_of (select (has_label created_by label) rows) ≡ true)
        × (Any (HasLabel created_by label) rows → ⊥))
      ⊎ ((is_none_of (select (has_label created_by label) rows) ≡ false)
          × Any (HasLabel created_by label) rows)
label-cases created_by label [] = inl (refl, λ h. h)
label-cases created_by label (row ∷ rows) = elim (Bool-cases (has_label created_by label row)) [
  | inl e ↦
      let mine = (eq_iff row.created_by created_by).0 (ground (arith, e)) in
      let same = (eq_iff row.label label).0 (ground (arith, e)) in inr (rw e refl, inl (mine, same))
  | inr e ↦ elim (label-cases created_by label rows) [
    | inr (used, there) ↦ inr (rw e used, inr there)
    | inl (free, nowhere) ↦
        let other : HasLabel created_by label row → ⊥ = λ (mine, same). absurd (
          ground (
            arith,
            e,
            (eq_iff row.created_by created_by).1 mine,
            (eq_iff row.label label).1 same,
          )) in
        inl (rw e free, λ h. elim h [ inl own ↦ other own | inr later ↦ nowhere later ])
  ]
]

unfound {ℓ} :
    {A : Type ℓ} (p : A → Bool) (xs : List A)
    → is_none_of (select p xs) ≡ true
    → first (select p xs) ≡ none
unfound p [] h = refl
unfound p (x ∷ xs) h = elim (Bool-cases (p x)) [
  | inl e ↦ absurd (ground (arith, h, e))
  | inr e ↦ ground (arith, e, unfound p xs (ground (arith, h, e)))
]

module _ (encrypt : String → String) (decrypt : String → String) where
  given-sealed :
      (password : Option String)
      → ((x : String) → decrypt (encrypt x) ≡ x)
      → ((x : String) → str_eq (encrypt x) "" ≡ false)
      → map_option decrypt (given (map_option encrypt (given password))) ≡ given password
  given-sealed none opens long = refl
  given-sealed (some p) opens long = ground (arith, opens p, long p)

  -- The vault with one more credential.
  abbrev with_credential :
      {F : Type 0} → String → String → ℕ → CredentialRequest → Vault F → Vault F
  with_credential id created_by now body v = record {
    db = record v.db {
      credentials = v.db.credentials ++ (new_credential id created_by now body ∷ []);
    };
    secrets = v.secrets ++ (new_secrets encrypt id body ∷ []);
  }

  with_credential-get :
      {F : Type 0} (id created_by : String) (now : ℕ) (body : CredentialRequest) (v : Vault F)
      → ((x : String) → decrypt (encrypt x) ≡ x)
      → ((x : String) → str_eq (encrypt x) "" ≡ false)
      → is_none_of (select (λ (row : Credential). str_eq row.id id) v.db.credentials) ≡ true
      → is_none_of (select (λ (s : Secrets). str_eq s.id id) v.secrets) ≡ true
      → get_decrypted_credential decrypt (with_credential id created_by now body v) id
        ≡ some (record {
          exchange_id = body.exchange_id;
          api_key = body.api_key;
          api_secret = body.api_secret;
          password = given body.password;
        })
  unfolding get_decrypted_credential
  with_credential-get id created_by now body v opens long fresh unsealed =
      rw
        (
          last-found (λ (row : Credential). str_eq row.id id) v.db.credentials
              (new_credential id created_by now body) fresh (ground (arith, eq_iff id id)),
          last-found (λ (s : Secrets). str_eq s.id id) v.secrets (new_secrets encrypt id body)
              unsealed (ground (arith, eq_iff id id)),
          opens body.api_key,
          opens body.api_secret,
          given-sealed body.password opens long,
          get_decrypted_credential,
        )
        refl

  unfound-get :
      {F : Type 0} (v : Vault F) (id : String)
      → is_none_of (select (λ (row : Credential). str_eq row.id id) v.db.credentials) ≡ true
      → get_decrypted_credential decrypt v id ≡ none
  unfolding get_decrypted_credential
  unfound-get v id fresh =
      rw
        (
          unfound (λ (row : Credential). str_eq row.id id) v.db.credentials fresh,
          get_decrypted_credential,
        )
        refl

  -- Where the caller has no credential of the label, the key, the secret and the password of a new one
  -- are read back as they were given, but an empty password as none; where the caller has one, nothing
  -- is stored, and no credential is read under the id. The cipher is to decrypt what it has encrypted
  -- and to give no empty ciphertext, and no row is to have the id.
  pub create_credential-get_decrypted_credential :
      {F : Type 0} (id created_by : String) (now : ℕ) (body : CredentialRequest) (v : Vault F)
      → ((x : String) → decrypt (encrypt x) ≡ x)
      → ((x : String) → str_eq (encrypt x) "" ≡ false)
      → is_none_of (select (λ (row : Credential). str_eq row.id id) v.db.credentials) ≡ true
      → is_none_of (select (λ (s : Secrets). str_eq s.id id) v.secrets) ≡ true
      → let after = (create_credential encrypt id created_by now body v).1 in
        ((Any (HasLabel created_by body.label) v.db.credentials → ⊥)
          × (get_decrypted_credential decrypt after id
              ≡ some (record {
                exchange_id = body.exchange_id;
                api_key = body.api_key;
                api_secret = body.api_secret;
                password = given body.password;
              })))
        ⊎ (Any (HasLabel created_by body.label) v.db.credentials
            × (after ≡ v)
            × (get_decrypted_credential decrypt after id ≡ none))
  unfolding create_credential
  create_credential-get_decrypted_credential id created_by now body v opens long fresh unsealed =
      elim (label-cases created_by body.label v.db.credentials) [
        | inr (used, there) ↦
            let same : (create_credential encrypt id created_by now body v).1 ≡ v = rw used refl in
            inr (
              there,
              same,
              ap (λ v'. get_decrypted_credential decrypt v' id) same ∙ unfound-get v id fresh,
            )
        | inl (free, nowhere) ↦
            let stored : (create_credential encrypt id created_by now body v).1
                ≡ with_credential id created_by now body v =
              rw free refl in
            inl (
              nowhere,
              ap (λ v'. get_decrypted_credential decrypt v' id) stored
                  ∙ with_credential-get id created_by now body v opens long fresh unsealed,
            )
      ]
