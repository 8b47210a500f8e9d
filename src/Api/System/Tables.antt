-- ===== src/Api/System/Tables.antt =====
-- Tables of rows, and a property of every row, under the statements of the repositories.
use mathlib.Core.Option.{some-injective}
use freqpanda.Prelude.{
  subst, String, ◌≡◌, refl, ◌⊎◌, inl, inr, Bool, Bool-cases, true, false, not, ◌&&◌, ◌||◌, Option,
  none, some, List, [], ◌∷◌, str_eq, eq_iff, All, arith,
}
use freqpanda.Execution.Repository.{select, first, update, is_none_of}
use freqpanda.Api.Rows.{JobRecord, BacktestRow}
use freqpanda.Api.Results.{upsert_row}

pub Option-cases {ℓ} : {A : Type ℓ} (o : Option A) → (o ≡ none) ⊎ ((x : A) × (o ≡ some x))
Option-cases none = inl refl
Option-cases (some x) = inr (x, refl)

pub All-found {ℓ κ} :
    {A : Type ℓ} (P : A → Type κ) (p : A → Bool) (xs : List A) (x : A)
    → first (select p xs) ≡ some x
    → All P xs
    → (p x ≡ true) × P x
All-found P p [] x e h = absurd (ground (arith, e))
All-found P p (y ∷ ys) x e h = elim (Bool-cases (p y)) [
  | inl here ↦ subst (λ t. (p t ≡ true) × P t) (some-injective _ _ (rw here at e)) (here, h.0)
  | inr gone ↦ All-found P p ys x (ground (arith, gone, e)) h.1
]

pub found_holds {ℓ} :
    {A : Type ℓ} (p : A → Bool) (xs : List A) (x : A) → first (select p xs) ≡ some x → p x ≡ true
found_holds p [] x e = absurd (ground (arith, e))
found_holds p (y ∷ ys) x e = elim (Bool-cases (p y)) [
  | inl here ↦ subst (λ t. p t ≡ true) (some-injective _ _ (rw here at e)) here
  | inr gone ↦ found_holds p ys x (ground (arith, gone, e))
]

module _ {ℓ κ μ} {A : Type ℓ} where
  pub All-weaken :
      (P : A → Type κ) (Q : A → Type μ) (xs : List A) → ((x : A) → P x → Q x) → All P xs → All Q xs
  All-weaken P Q [] weaken h = tt
  All-weaken P Q (x ∷ xs) weaken h = (weaken x h.0, All-weaken P Q xs weaken h.1)

  pub All-select :
      (P : A → Type κ) (Q : A → Type μ) (p : A → Bool) (xs : List A)
      → ((x : A) → p x ≡ true → P x → Q x)
      → All P xs
      → All Q (select p xs)
  All-select P Q p [] weaken h = tt
  All-select P Q p (x ∷ xs) weaken h = elim (Bool-cases (p x)) [
    | inl e ↦ rw e (weaken x e h.0, All-select P Q p xs weaken h.1)
    | inr e ↦ rw e (All-select P Q p xs weaken h.1)
  ]

module _ {ℓ κ} {A : Type ℓ} where
  pub All-update :
      (P : A → Type κ) (p : A → Bool) (f : A → A) (xs : List A)
      → ((x : A) → p x ≡ true → P x → P (f x))
      → All P xs
      → All P (update p f xs)
  All-update P p f [] keeps h = tt
  All-update P p f (x ∷ xs) keeps h = elim (Bool-cases (p x)) [
    | inl e ↦ rw e (keeps x e h.0, All-update P p f xs keeps h.1)
    | inr e ↦ rw e (h.0, All-update P p f xs keeps h.1)
  ]

module _ {F : Type 0} where
  -- A result of the job is stored.
  abbrev pub has_result : String → List (BacktestRow F) → Bool
  has_result job_id rows = not (is_none_of (select (λ r. str_eq r.job_id job_id) rows))

  first-none : (rows : List (BacktestRow F)) → first rows ≡ none → is_none_of rows ≡ true
  first-none [] e = refl
  first-none (r ∷ rows) e = absurd (ground (arith, e))

  pub has_result-found :
      (job_id : String) (rows : List (BacktestRow F))
      → has_result job_id rows ≡ true
      → (r : BacktestRow F) × (first (select (λ r. str_eq r.job_id job_id) rows) ≡ some r)
  has_result-found job_id rows h =
      elim (Option-cases (first (select (λ r. str_eq r.job_id job_id) rows))) [
        | inl e ↦
            absurd (ground (arith, h, first-none (select (λ r. str_eq r.job_id job_id) rows) e))
        | inr (r, e) ↦ (r, e)
      ]

  pub upsert_row-All :
      (P : BacktestRow F → Type 0) (row : BacktestRow F) (rows : List (BacktestRow F))
      → P row
      → ((old : BacktestRow F)
          → P old
          → P (record old {
            metrics = row.metrics;
            trades = row.trades;
            equity_curve = row.equity_curve;
          }))
      → All P rows
      → All P (upsert_row row rows)
  unfolding upsert_row
  upsert_row-All P row [] new keeps h = (new, tt)
  upsert_row-All P row (old ∷ rows) new keeps h = elim (Bool-cases (str_eq old.job_id row.job_id)) [
    | inl e ↦ rw e (keeps old h.0, h.1)
    | inr e ↦ rw e (h.0, upsert_row-All P row rows new keeps h.1)
  ]

  -- A job has a result after an upsert if it is that row's job, or had one before.
  pub has_result-upsert_row :
      (job_id : String) (row : BacktestRow F) (rows : List (BacktestRow F))
      → has_result job_id (upsert_row row rows)
        ≡ (str_eq row.job_id job_id || has_result job_id rows)
  unfolding upsert_row
  has_result-upsert_row job_id row [] = ground arith
  has_result-upsert_row job_id row (old ∷ rows) = ground (
    arith,
    has_result-upsert_row job_id row rows,
    eq_iff old.job_id row.job_id,
    eq_iff old.job_id job_id,
    eq_iff row.job_id job_id,
  )

  -- No job of a strategy has an id that was made for another.
  pub none_of_another :
      (strategy_of : String → String) (id job_id : String) (jobs : List (JobRecord F))
      → All (λ job. job.strategy_id ≡ strategy_of job.id) jobs
      → str_eq (strategy_of job_id) id ≡ false
      → is_none_of (select (λ job. str_eq job.strategy_id id && str_eq job.id job_id) jobs) ≡ true
  none_of_another strategy_of id job_id [] h e = refl
  none_of_another strategy_of id job_id (job ∷ jobs) h e = ground (
    arith,
    h.0,
    e,
    none_of_another strategy_of id job_id jobs h.1 e,
    eq_iff job.id job_id,
    eq_iff job.strategy_id id,
  )

  -- A result is still there when all results of its job are kept.
  pub has_result-select :
      (P : BacktestRow F → Type 0) (job_id : String) (kept : BacktestRow F → Bool)
      (rows : List (BacktestRow F))
      → ((r : BacktestRow F) → P r → r.job_id ≡ job_id → kept r ≡ true)
      → All P rows
      → has_result job_id rows ≡ true
      → has_result job_id (select kept rows) ≡ true
  has_result-select P job_id kept [] keeps h e = e
  has_result-select P job_id kept (r ∷ rows) keeps h e =
      elim (Bool-cases (str_eq r.job_id job_id)) [
        | inl same ↦ ground (arith, same, keeps r h.0 ((eq_iff r.job_id job_id).0 same))
        | inr other ↦
            let later : has_result job_id rows ≡ true = ground (arith, other, e) in
            ground (arith, other, has_result-select P job_id kept rows keeps h.1 later)
      ]
