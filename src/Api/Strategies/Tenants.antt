-- ===== src/Api/Strategies/Tenants.antt =====
-- What a caller's requests do to the strategies of others, and to the names of strategies.
use freqpanda.Prelude.{ℕ, String, ◌≡◌, refl, not, List, [], ◌∷◌, ◌++◌, str_eq, eq_iff, arith}
use freqpanda.Prelude.Float.{Float}
use freqpanda.Strategy.Schema.{StrategyDefinition}
use freqpanda.Strategy.Indicators.{Ta}
use freqpanda.Execution.Repository.{select, update}
use freqpanda.Api.Rows.{StrategyRecord, Store}
use freqpanda.Api.Strategies.{
  owned, new_strategy, insert_strategy, update_strategy, delete_strategy, post_strategy,
  put_strategy, remove_strategy,
}

module _ {F : Type 0} where
  -- The strategies that are not the caller's.
  abbrev pub strategies_of_others : String → Store F → List (StrategyRecord F)
  strategies_of_others created_by db =
      select (λ row. not (str_eq row.created_by created_by)) db.strategies

  others-insert :
      (created_by : String) (row : StrategyRecord F) (xs : List (StrategyRecord F))
      → row.created_by ≡ created_by
      → select (λ r. not (str_eq r.created_by created_by)) (xs ++ (row ∷ []))
        ≡ select (λ r. not (str_eq r.created_by created_by)) xs
  others-insert created_by row [] e = ground (arith, eq_iff row.created_by created_by, e)
  others-insert created_by row (x ∷ xs) e = ground (arith, others-insert created_by row xs e)

  others-delete :
      (id created_by : String) (xs : List (StrategyRecord F))
      → select
          (λ r. not (str_eq r.created_by created_by))
          (select (λ r. not (owned id created_by r)) xs)
        ≡ select (λ r. not (str_eq r.created_by created_by)) xs
  others-delete id created_by [] = refl
  others-delete id created_by (x ∷ xs) = ground (arith, others-delete id created_by xs)

  others-update :
      (id created_by : String) (f : StrategyRecord F → StrategyRecord F)
      (xs : List (StrategyRecord F))
      → ((r : StrategyRecord F) → (f r).created_by ≡ r.created_by)
      → select (λ r. not (str_eq r.created_by created_by)) (update (owned id created_by) f xs)
        ≡ select (λ r. not (str_eq r.created_by created_by)) xs
  others-update id created_by f [] keeps = refl
  others-update id created_by f (x ∷ xs) keeps =
      ground (arith, others-update id created_by f xs keeps, keeps x)

module _ {F : Type 0} ⦃fl : Float F⦄ (ta : Ta F) (id created_by : String) (now : ℕ)
    (definition : StrategyDefinition F) (db : Store F) where
  posted :
      strategies_of_others created_by (post_strategy ta id created_by now definition db).1
      ≡ strategies_of_others created_by db
  unfolding post_strategy insert_strategy
  posted = ground (
    arith,
    others-insert created_by (new_strategy id created_by now definition) db.strategies refl,
  )

  put :
      strategies_of_others created_by (put_strategy ta id created_by now definition db).1
      ≡ strategies_of_others created_by db
  unfolding put_strategy update_strategy
  put = ground (
    arith,
    others-update id created_by
        (λ row. record row { name = definition.name; definition = definition; updated_at = now })
        db.strategies (λ r. refl),
  )

  removed :
      strategies_of_others created_by (remove_strategy id created_by db).1
      ≡ strategies_of_others created_by db
  unfolding remove_strategy delete_strategy
  removed = ground (arith, others-delete id created_by db.strategies)

  -- No write of a caller changes a strategy of another, or its place among them.
  pub routes-others :
      (strategies_of_others created_by (post_strategy ta id created_by now definition db).1
        ≡ strategies_of_others created_by db)
      × (strategies_of_others created_by (put_strategy ta id created_by now definition db).1
          ≡ strategies_of_others created_by db)
      × (strategies_of_others created_by (remove_strategy id created_by db).1
          ≡ strategies_of_others created_by db)
  routes-others = (posted, put, removed)
