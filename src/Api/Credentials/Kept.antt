-- ===== src/Api/Credentials/Kept.antt =====
-- The credentials that bots name, when credentials are stored and deleted.
use freqpanda.Prelude.{
  ℕ, String, ◌≡◌, ◌∙◌, ap, Bool, Bool-cases, inl, inr, true, false, not, ◌&&◌, Option, none, some,
  List, [], ◌∷◌, ◌++◌, str_eq, eq_iff, All, Any, arith,
}
use freqpanda.Execution.Repository.{
  Mode, live_mode, paper_mode, BotRecord, Credential, Database, select, is_none_of,
  list_credentials,
}
use freqpanda.Api.Bots.{owns, is_given, check_live_transition}
use freqpanda.Prelude.Float.{Float}
use freqpanda.Api.Credentials.{
  Vault, CredentialRequest, refers_to, is_owned, has_label, new_credential, create_credential,
  delete_credential,
}
use freqpanda.Api.System.Tables.{All-weaken}

-- The credential of an id and an owner.
abbrev pub Is : String → String → Credential → Type 0
Is id owner row = (row.id ≡ id) × (row.created_by ≡ owner)

-- A live bot names a credential in the table that is its owner's, and a paper bot names none.
abbrev pub HasOwn : List Credential → String → Mode → Option String → Type 0
HasOwn rows owner live_mode (some c) = Any (Is c owner) rows
HasOwn rows owner paper_mode none = Unit
HasOwn rows owner live_mode none = ⊥
HasOwn rows owner paper_mode (some c) = ⊥

abbrev pub IsReferential : {F : Type 0} → Database F → Type 0
IsReferential {F} db =
    All
      (λ (bot : BotRecord F).
        HasOwn db.credentials bot.created_by bot.fields.mode bot.fields.credential_id)
      db.bots

Any-append {ℓ} : {A : Type ℓ} (P : A → Type 0) (xs ys : List A) → Any P xs → Any P (xs ++ ys)
Any-append P [] ys h = absurd h
Any-append P (x ∷ xs) ys (inl here) = inl here
Any-append P (x ∷ xs) ys (inr later) = inr (Any-append P xs ys later)

HasOwn-append :
    (rows : List Credential) (row : Credential) (owner : String) (mode : Mode) (c : Option String)
    → HasOwn rows owner mode c
    → HasOwn (rows ++ (row ∷ [])) owner mode c
HasOwn-append rows row owner live_mode (some c) h = Any-append (Is c owner) rows (row ∷ []) h
HasOwn-append rows row owner paper_mode none h = tt
HasOwn-append rows row owner live_mode none h = absurd h
HasOwn-append rows row owner paper_mode (some c) h = absurd h

-- Deleting a credential of another id leaves it there.
stays :
    (rows : List Credential) (id created_by owner c : String)
    → str_eq c id ≡ false
    → Any (Is c owner) rows
    → Any (Is c owner) (select (λ row. not (is_owned id created_by row)) rows)
stays [] id created_by owner c other h = h
stays (r ∷ rows) id created_by owner c other (inl here) =
    let kept : not (is_owned id created_by r) ≡ true =
      let e = ap (λ x. str_eq x id) here.0 ∙ other in ground (arith, e) in
    rw kept (inl here)
stays (r ∷ rows) id created_by owner c other (inr later) =
    let rest = stays rows id created_by owner c other later in
    elim (Bool-cases (not (is_owned id created_by r))) [
      | inl e ↦ rw e (inr rest)
      | inr e ↦ rw e rest
    ]

unnamed :
    (rows : List Credential) (id created_by owner : String) (mode : Mode) (c : Option String)
    → refers_to id c ≡ false
    → HasOwn rows owner mode c
    → HasOwn (select (λ row. not (is_owned id created_by row)) rows) owner mode c
unnamed rows id created_by owner live_mode (some c) other h =
    stays rows id created_by owner c other h
unnamed rows id created_by owner paper_mode none other h = tt
unnamed rows id created_by owner live_mode none other h = absurd h
unnamed rows id created_by owner paper_mode (some c) other h = absurd h

listed :
    (rows : List Credential) (created_by c : String)
    → is_none_of (
        select
          (λ (row : Credential). str_eq row.id c)
          (select (λ (row : Credential). str_eq row.created_by created_by) rows))
      ≡ false
    → Any (Is c created_by) rows
listed [] created_by c h = absurd (ground (arith, h))
listed (r ∷ rows) created_by c h = elim (Bool-cases (str_eq r.created_by created_by)) [
  | inr e ↦ inr (listed rows created_by c (ground (arith, e, h)))
  | inl e ↦ elim (Bool-cases (str_eq r.id c)) [
    | inl same ↦ inl ((eq_iff r.id c).0 same, (eq_iff r.created_by created_by).0 e)
    | inr other ↦ inr (listed rows created_by c (ground (arith, e, other, h)))
  ]
]

module _ {F : Type 0} where
  -- What the checks of create_bot let pass.
  pub owns-HasOwn :
      ⦃fl : Float F⦄ (db : Database F) (created_by : String) (mode : Mode) (c : Option String)
      (confirm_live : Bool)
      → check_live_transition mode c confirm_live ≡ true
      → (is_given c && not (owns db created_by c)) ≡ false
      → HasOwn db.credentials created_by mode c
  unfolding list_credentials check_live_transition
  owns-HasOwn db created_by live_mode (some c) confirm_live e h =
      listed db.credentials created_by c (ground (arith, h))
  owns-HasOwn db created_by paper_mode none confirm_live e h = tt
  owns-HasOwn db created_by live_mode none confirm_live e h = cc
  owns-HasOwn db created_by paper_mode (some c) confirm_live e h = cc

  pub create_credential-IsReferential :
      (encrypt : String → String) (id created_by : String) (now : ℕ) (body : CredentialRequest)
      (v : Vault F)
      → IsReferential v.db
      → IsReferential (create_credential encrypt id created_by now body v).1.db
  unfolding create_credential
  create_credential-IsReferential encrypt id created_by now body v h =
      elim (Bool-cases (is_none_of (select (has_label created_by body.label) v.db.credentials))) [
        | inr used ↦ rw used h
        | inl free ↦ rw free (
            All-weaken _ _ v.db.bots
              (λ bot there.
                HasOwn-append v.db.credentials (new_credential id created_by now body)
                  bot.created_by bot.fields.mode bot.fields.credential_id there)
              h)
      ]

  -- No bot refers to the credential.
  none_refer :
      (rows : List Credential) (id created_by : String) (bots : List (BotRecord F))
      → is_none_of (select (λ (row : BotRecord F). refers_to id row.fields.credential_id) bots)
        ≡ true
      → All
          (λ (bot : BotRecord F).
            HasOwn rows bot.created_by bot.fields.mode bot.fields.credential_id)
          bots
      → All
          (λ (bot : BotRecord F).
            HasOwn
              (select (λ row. not (is_owned id created_by row)) rows)
              bot.created_by
              bot.fields.mode
              bot.fields.credential_id)
          bots
  none_refer rows id created_by [] free h = tt
  none_refer rows id created_by (bot ∷ bots) free h =
      elim (Bool-cases (refers_to id bot.fields.credential_id)) [
        | inl refers ↦ absurd (ground (arith, refers, free))
        | inr other ↦ (
          unnamed rows id created_by bot.created_by bot.fields.mode bot.fields.credential_id other
              h.0,
          none_refer rows id created_by bots (ground (arith, other, free)) h.1,
        )
      ]

  pub delete_credential-IsReferential :
      (id created_by : String) (v : Vault F)
      → IsReferential v.db
      → IsReferential (delete_credential id created_by v).1.db
  unfolding delete_credential
  delete_credential-IsReferential id created_by v h =
      elim (Bool-cases (is_none_of (select (is_owned id created_by) v.db.credentials))) [
        | inl unowned ↦ rw unowned h
        | inr owned ↦
            elim (Bool-cases (
              is_none_of (
                select (λ (row : BotRecord F). refers_to id row.fields.credential_id) v.db.bots))) [
                  | inl free ↦
                      rw (owned, free) (none_refer v.db.credentials id created_by v.db.bots free h)
                  | inr used ↦ rw (owned, used) h
                ]
      ]
