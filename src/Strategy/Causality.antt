-- ===== src/Strategy/Causality.antt =====
-- No lookahead: the signals of the first n rows depend on the first n rows alone.
pub mod Signals
use freqpanda.Prelude.{
  ℕ, zero, suc, String, ◌≡◌, refl, sym, ◌∙◌, ap, Bool, not, ◌&&◌, ◌||◌, Option, none, some, List,
  [], ◌∷◌, map, take, zip_with, take-zip_with, take-map, arith, All,
}
use mathlib.Core.List.{foldl}
use mathlib.Core.Path.{ap₂}
use freqpanda.Prelude.Result.{Result, ok, err, ◌>>=◌, map_ok}
use freqpanda.Prelude.Dict
use freqpanda.Prelude.Dict.{map_values, get-map_values, put-map_values}
use freqpanda.Prelude.Float.{Float}
use freqpanda.Strategy.Schema.{
  ConditionNode, Conditions, comparison, logical, nil, cons, Operand, constant, column,
  ComparisonOp, LogicalOp, IndicatorConfig, StrategyDefinition,
}
use freqpanda.Strategy.Indicators.{Ta, Frame, StrategyError, column_of}
use freqpanda.Strategy.Conditions.{
  shift_from, resolve_operand, apply_op, combine, evaluate_condition, evaluate_all,
}

-- The first n rows of a frame.
abbrev pub cut : {F : Type 0} → ℕ → Frame F → Frame F
cut n df = record { index = take n df.index; columns = map_values (take n) df.columns }

pub column_of-cut :
    {F : Type 0} (n : ℕ) (df : Frame F) (name : String)
    → column_of (cut n df) name ≡ map_ok (take n) (column_of df name)
unfolding column_of
column_of-cut n df name = ground (arith, get-map_values (take n) name df.columns)

foldl-cut :
    (f : Bool → Bool → Bool) (n : ℕ) (r : List Bool) (rs : List (List Bool))
    → foldl (zip_with f) (take n r) (map (take n) rs) ≡ take n (foldl (zip_with f) r rs)
foldl-cut f n r [] = refl
foldl-cut f n r (q ∷ qs) =
    ap (λ z. foldl (zip_with f) z (map (take n) qs)) (sym (take-zip_with f n r q))
    ∙ foldl-cut f n (zip_with f r q) qs

combine-cut :
    (o : LogicalOp) (n : ℕ) (rs : List (List Bool))
    → combine o (map (take n) rs) ≡ map_ok (take n) (combine o rs)
unfolding combine
combine-cut o n [] = refl
combine-cut LogicalOp.and n (r ∷ rs) = ap ok (foldl-cut ◌&&◌ n r rs)
combine-cut LogicalOp.or n (r ∷ rs) = ap ok (foldl-cut ◌||◌ n r rs)
combine-cut LogicalOp.not_op n (r ∷ rs) = ap ok (sym (take-map not n r))

combine_results-cut :
    (o : LogicalOp) (n : ℕ) (rs : Result StrategyError (List (List Bool)))
    → (map_ok (map (take n)) rs >>= combine o) ≡ map_ok (take n) (rs >>= combine o)
combine_results-cut o n (ok rs) = combine-cut o n rs
combine_results-cut o n (err e) = refl

abbrev cons_results :
    Result StrategyError (List Bool)
    → Result StrategyError (List (List Bool))
    → Result StrategyError (List (List Bool))
cons_results l r = l >>= λ x. r >>= λ xs. ok (x ∷ xs)

cons_results-cut :
    (n : ℕ) (l : Result StrategyError (List Bool)) (r : Result StrategyError (List (List Bool)))
    → cons_results (map_ok (take n) l) (map_ok (map (take n)) r)
      ≡ map_ok (map (take n)) (cons_results l r)
cons_results-cut n (ok xs) (ok ys) = refl
cons_results-cut n (ok xs) (err e) = refl
cons_results-cut n (err e) r = refl

module _ {F : Type 0} ⦃fl : Float F⦄ where
  shift_from-cut :
      (n : ℕ) (prev : F) (xs : List F) → shift_from prev (take n xs) ≡ take n (shift_from prev xs)
  unfolding shift_from
  shift_from-cut zero prev xs = refl
  shift_from-cut (suc n) prev [] = refl
  shift_from-cut (suc n) prev (x ∷ xs) = ap (◌∷◌ prev) (shift_from-cut n x xs)

  resolve_operand-cut :
      (o : Operand F) (n : ℕ) (df : Frame F)
      → resolve_operand o (cut n df) ≡ map_ok (take n) (resolve_operand o df)
  unfolding resolve_operand
  resolve_operand-cut (constant c) n df = rw take-map
  resolve_operand-cut (column name) n df = column_of-cut n df name

  apply_op-cut :
      (o : ComparisonOp) (n : ℕ) (xs ys : List F)
      → apply_op o (take n xs) (take n ys) ≡ take n (apply_op o xs ys)
  unfolding apply_op
  apply_op-cut ComparisonOp.gt n xs ys = simp (take-zip_with, take-map, shift_from-cut)
  apply_op-cut _ n xs ys = simp (take-zip_with, take-map, shift_from-cut)

  -- The two steps after the operands of a comparison are resolved.
  abbrev compare_results :
      ComparisonOp
      → Result StrategyError (List F)
      → Result StrategyError (List F)
      → Result StrategyError (List Bool)
  compare_results o l r = l >>= λ left. r >>= λ right. ok (apply_op o left right)

  compare_results-cut :
      (o : ComparisonOp) (n : ℕ) (l r : Result StrategyError (List F))
      → compare_results o (map_ok (take n) l) (map_ok (take n) r)
        ≡ map_ok (take n) (compare_results o l r)
  compare_results-cut o n (ok xs) (ok ys) = ap ok (apply_op-cut o n xs ys)
  compare_results-cut o n (ok xs) (err e) = refl
  compare_results-cut o n (err e) r = refl

  mutual
    unfolding evaluate_condition

    evaluate-cut_in :
        (c : ConditionNode F) (n : ℕ) (df : Frame F)
        → evaluate_condition c (cut n df) ≡ map_ok (take n) (evaluate_condition c df)
    evaluate-cut_in (comparison l o r) n df =
        ap₂ (compare_results o) (resolve_operand-cut l n df) (resolve_operand-cut r n df)
        ∙ compare_results-cut o n (resolve_operand l df) (resolve_operand r df)
    evaluate-cut_in (logical o cs) n df =
        ap (λ rs. rs >>= combine o) (evaluate_all-cut cs n df)
        ∙ combine_results-cut o n (evaluate_all cs df)

    evaluate_all-cut :
        (cs : Conditions F) (n : ℕ) (df : Frame F)
        → evaluate_all cs (cut n df) ≡ map_ok (map (take n)) (evaluate_all cs df)
    evaluate_all-cut nil n df = refl
    evaluate_all-cut (cons c cs) n df =
        ap₂ cons_results (evaluate-cut_in c n df) (evaluate_all-cut cs n df)
        ∙ cons_results-cut n (evaluate_condition c df) (evaluate_all cs df)

  -- A condition over the first n rows is the first n entries of the condition over all rows.
  pub evaluate_condition-cut :
      (c : ConditionNode F) (n : ℕ) (df : Frame F)
      → evaluate_condition c (cut n df) ≡ map_ok (take n) (evaluate_condition c df)
  evaluate_condition-cut c n df = evaluate-cut_in c n df
