-- ===== src/Strategy/Conditions.antt =====
-- freqpanda_strategy/conditions.py. A boolean Series is a list, one entry for each row.
use freqpanda.Prelude.{Bool, not, ◌&&◌, ◌||◌, List, [], ◌∷◌, map, zip_with}
use mathlib.Core.List.{foldl}
use freqpanda.Prelude.Result.{Result, ok, err, ◌>>=◌}
use freqpanda.Prelude.Float.{Float}
use freqpanda.Strategy.Schema.{
  ConditionNode, Conditions, comparison, logical, nil, cons, Operand, constant, column,
  ComparisonOp, LogicalOp, lte, gte, lt, gt, crosses_above, crosses_below,
}
use freqpanda.Strategy.Indicators.{Frame, StrategyError, index_error, column_of}

-- results[0] of no results is an IndexError.
unfoldable pub combine : LogicalOp → List (List Bool) → Result StrategyError (List Bool)
combine o [] = err index_error
combine LogicalOp.and (r ∷ rs) = ok (foldl (zip_with ◌&&◌) r rs)
combine LogicalOp.or (r ∷ rs) = ok (foldl (zip_with ◌||◌) r rs)
combine LogicalOp.not_op (r ∷ rs) = ok (map not r)

module _ {F : Type 0} ⦃fl : Float F⦄ where
  -- Series.shift(1), from the value that the first row takes.
  unfoldable pub shift_from : F → List F → List F
  shift_from prev [] = []
  shift_from prev (x ∷ xs) = prev ∷ shift_from x xs

  abbrev pub shift : List F → List F
  shift = shift_from fl.nan

  unfoldable pub resolve_operand : Operand F → Frame F → Result StrategyError (List F)
  resolve_operand (constant c) df = ok (map (λ _. c) df.index)
  resolve_operand (column name) df = column_of df name

  unfoldable pub apply_op : ComparisonOp → List F → List F → List Bool
  unfolding shift_from
  apply_op gt left right = zip_with (λ a b. fl.lt b a) left right
  apply_op gte left right = zip_with (λ a b. fl.le b a) left right
  apply_op lt left right = zip_with fl.lt left right
  apply_op lte left right = zip_with fl.le left right
  apply_op ComparisonOp.eq left right = zip_with fl.is_close left right
  apply_op ComparisonOp.ne left right = map not (zip_with fl.is_close left right)
  apply_op crosses_above left right =
      zip_with ◌&&◌ (zip_with fl.le (shift left) (shift right))
        (zip_with (λ a b. fl.lt b a) left right)
  apply_op crosses_below left right =
      zip_with ◌&&◌ (zip_with (λ a b. fl.le b a) (shift left) (shift right))
        (zip_with fl.lt left right)

  unfoldable mutual
    pub evaluate_condition : ConditionNode F → Frame F → Result StrategyError (List Bool)
    evaluate_condition (comparison l o r) df = do
      left ← resolve_operand l df
      right ← resolve_operand r df
      ok (apply_op o left right)
    evaluate_condition (logical o cs) df = evaluate_all cs df >>= combine o

    pub evaluate_all : Conditions F → Frame F → Result StrategyError (List (List Bool))
    evaluate_all nil df = ok []
    evaluate_all (cons c cs) df = do
      r ← evaluate_condition c df
      rs ← evaluate_all cs df
      ok (r ∷ rs)
