-- ===== src/Strategy/Shape.antt =====
-- Every series of an aligned frame has one entry for each row, and so has every signal.
pub mod Computed
use mathlib.Core.List.{foldl}
use freqpanda.Prelude.{
  ℕ, suc, String, ◌≡◌, refl, ◌∙◌, ap, Bool, true, false, not, ◌&&◌, ◌||◌, Option, none, some, List,
  [], ◌∷◌, map, zip_with, length, All, length-map, length-zip_with, arith, str_eq, Bool-cases, inl,
  inr, Option-cases,
}
use freqpanda.Prelude.Result.{Result, ok, err, ◌>>=◌, IfOk}
use freqpanda.Prelude.Dict
use freqpanda.Prelude.Dict.{get-All}
use freqpanda.Prelude.Float.{Float}
use freqpanda.Strategy.Schema.{
  ConditionNode, Conditions, comparison, logical, nil, cons, Operand, constant, column,
  ComparisonOp, LogicalOp, IndicatorConfig, StrategyDefinition,
}
use freqpanda.Strategy.Indicators.{Ta, Frame, Outputs, StrategyError, column_of}
use freqpanda.Strategy.Conditions.{
  shift_from, resolve_operand, apply_op, combine, evaluate_condition, evaluate_all,
}

abbrev HasLength {ℓ} : {A : Type ℓ} → ℕ → Result StrategyError (List A) → Type 0
HasLength n = IfOk (λ xs. length xs ≡ n)

abbrev AllLength : ℕ → Result StrategyError (List (List Bool)) → Type 0
AllLength n = IfOk (All (λ r. length r ≡ n))

abbrev pub IsAligned : {F : Type 0} → Frame F → Type 0
IsAligned df = All (λ c. length c.1 ≡ length df.index) df.columns

pub column_of-IfOk :
    {F : Type 0} (df : Frame F) (name : String)
    → IsAligned df
    → IfOk (λ s. length s ≡ length df.index) (column_of df name)
unfolding column_of
column_of-IfOk df name h = elim (Option-cases (Dict.get name df.columns)) [
  | inl e ↦ rw (e, IfOk) tt
  | inr (s, e) ↦ rw (e, IfOk) (get-All (λ c. length c ≡ length df.index) name df.columns s h e)
]

foldl-HasLength :
    (f : Bool → Bool → Bool) (n : ℕ) (r : List Bool) (rs : List (List Bool))
    → length r ≡ n
    → All (λ r. length r ≡ n) rs
    → length (foldl (zip_with f) r rs) ≡ n
foldl-HasLength f n r [] h all = h
foldl-HasLength f n r (q ∷ qs) h all =
    foldl-HasLength f n (zip_with f r q) qs (length-zip_with f n r q h all.0) all.1

combine-HasLength :
    (o : LogicalOp) (n : ℕ) (rs : Result StrategyError (List (List Bool)))
    → AllLength n rs
    → HasLength n (rs >>= combine o)
unfolding combine
combine-HasLength o n (err e) h = tt
combine-HasLength o n (ok []) h = tt
combine-HasLength LogicalOp.and n (ok (r ∷ rs)) h = foldl-HasLength ◌&&◌ n r rs h.0 h.1
combine-HasLength LogicalOp.or n (ok (r ∷ rs)) h = foldl-HasLength ◌||◌ n r rs h.0 h.1
combine-HasLength LogicalOp.not_op n (ok (r ∷ rs)) h = length-map not r ∙ h.0

cons-AllLength :
    (n : ℕ) (l : Result StrategyError (List Bool)) (r : Result StrategyError (List (List Bool)))
    → HasLength n l
    → AllLength n r
    → AllLength n (l >>= λ x. r >>= λ xs. ok (x ∷ xs))
cons-AllLength n (ok x) (ok xs) h all = (h, all)
cons-AllLength n (ok x) (err e) h all = tt
cons-AllLength n (err e) r h all = tt

module _ {F : Type 0} ⦃fl : Float F⦄ where
  length-shift_from : (prev : F) (xs : List F) → length (shift_from prev xs) ≡ length xs
  unfolding shift_from
  length-shift_from prev [] = refl
  length-shift_from prev (x ∷ xs) = ap suc (length-shift_from x xs)

  resolve_operand-HasLength :
      (o : Operand F) (df : Frame F)
      → IsAligned df
      → HasLength (length df.index) (resolve_operand o df)
  unfolding resolve_operand
  resolve_operand-HasLength (constant c) df h = length-map (λ _. c) df.index
  resolve_operand-HasLength (column name) df h = column_of-IfOk df name h

  length-crosses :
      (f g : F → F → Bool) (n : ℕ) (xs ys : List F)
      → length xs ≡ n
      → length ys ≡ n
      → length (
          zip_with ◌&&◌
            (zip_with f (shift_from fl.nan xs) (shift_from fl.nan ys))
            (zip_with g xs ys))
        ≡ n
  length-crosses f g n xs ys h k =
      length-zip_with ◌&&◌ n _ _
        (length-zip_with f n _ _ (length-shift_from fl.nan xs ∙ h)
          (length-shift_from fl.nan ys ∙ k))
        (length-zip_with g n xs ys h k)

  length-apply_op :
      (o : ComparisonOp) (n : ℕ) (xs ys : List F)
      → length xs ≡ n
      → length ys ≡ n
      → length (apply_op o xs ys) ≡ n
  unfolding apply_op
  length-apply_op ComparisonOp.ne n xs ys h k =
      length-map not (zip_with fl.is_close xs ys) ∙ length-zip_with _ n xs ys h k
  length-apply_op ComparisonOp.crosses_above n xs ys h k = length-crosses _ _ n xs ys h k
  length-apply_op ComparisonOp.crosses_below n xs ys h k = length-crosses _ _ n xs ys h k
  length-apply_op _ n xs ys h k = length-zip_with _ n xs ys h k

  compare-HasLength :
      (o : ComparisonOp) (n : ℕ) (l r : Result StrategyError (List F))
      → HasLength n l
      → HasLength n r
      → HasLength n (l >>= λ left. r >>= λ right. ok (apply_op o left right))
  compare-HasLength o n (ok xs) (ok ys) h k = length-apply_op o n xs ys h k
  compare-HasLength o n (ok xs) (err e) h k = tt
  compare-HasLength o n (err e) r h k = tt

  mutual
    unfolding evaluate_condition

    evaluate-HasLength_in :
        (c : ConditionNode F) (df : Frame F)
        → IsAligned df
        → HasLength (length df.index) (evaluate_condition c df)
    evaluate-HasLength_in (comparison l o r) df h =
        compare-HasLength o (length df.index) (resolve_operand l df) (resolve_operand r df)
          (resolve_operand-HasLength l df h) (resolve_operand-HasLength r df h)
    evaluate-HasLength_in (logical o cs) df h =
        combine-HasLength o (length df.index) (evaluate_all cs df) (evaluate_all-AllLength cs df h)

    evaluate_all-AllLength :
        (cs : Conditions F) (df : Frame F)
        → IsAligned df
        → AllLength (length df.index) (evaluate_all cs df)
    evaluate_all-AllLength nil df h = tt
    evaluate_all-AllLength (cons c cs) df h =
        cons-AllLength (length df.index) (evaluate_condition c df) (evaluate_all cs df)
          (evaluate-HasLength_in c df h) (evaluate_all-AllLength cs df h)

  -- A condition has one entry for each row.
  pub evaluate_condition-IfOk :
      (c : ConditionNode F) (df : Frame F)
      → IsAligned df
      → IfOk (λ r. length r ≡ length df.index) (evaluate_condition c df)
  evaluate_condition-IfOk c df h = evaluate-HasLength_in c df h
