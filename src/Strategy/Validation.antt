-- ===== src/Strategy/Validation.antt =====
-- freqpanda_strategy/validation.py
use freqpanda.Prelude.{String, Option, none, some, List, [], ◌∷◌, ◌++◌, map, if◌then◌else◌}
use freqpanda.Prelude.Result.{Result, ok, err}
use freqpanda.Prelude.Dict
use freqpanda.Prelude.Float.{Float}
use freqpanda.Strategy.Schema.{
  StrategyDefinition, IndicatorConfig, ConditionNode, Conditions, comparison, logical, nil, cons,
  Operand, constant, column, contains, is_empty,
}
use freqpanda.Strategy.Indicators.{
  Ta, IndicatorHandler, StrategyError, validation_error, Problem, unknown_indicator, unknown_params,
  unknown_column, indicator_registry,
}

abbrev pub ohlcv_columns : List String
ohlcv_columns = "open" ∷ "high" ∷ "low" ∷ "close" ∷ "volume" ∷ []

abbrev pub refs_of : {F : Type 0} → Operand F → List String
refs_of (constant c) = []
refs_of (column name) = name ∷ []

unfoldable mutual
  pub operand_refs : {F : Type 0} → ConditionNode F → List String
  operand_refs (comparison l o r) = refs_of l ++ refs_of r
  operand_refs (logical o cs) = all_operand_refs cs

  pub all_operand_refs : {F : Type 0} → Conditions F → List String
  all_operand_refs nil = []
  all_operand_refs (cons c cs) = operand_refs c ++ all_operand_refs cs

-- The names that are not in a set, in order: `set(xs) - allowed`, and the test of a loop.
unfoldable pub without : List String → List String → List String
without allowed [] = []
without allowed (x ∷ xs) =
    let rest = without allowed xs in if contains x allowed then rest else x ∷ rest

module _ {F : Type 0} ⦃fl : Float F⦄ (ta : Ta F) where
  abbrev pub outputs_of : IndicatorConfig F → Option (IndicatorHandler F) → List String
  outputs_of ind none = []
  outputs_of ind (some handler) = handler.outputs ind.alias

  -- the columns that the declared indicators add
  unfoldable pub indicator_columns : List (IndicatorConfig F) → List String
  indicator_columns [] = []
  indicator_columns (ind ∷ inds) =
      outputs_of ind (Dict.get ind.name (indicator_registry ta)) ++ indicator_columns inds

  unfoldable pub available_columns : StrategyDefinition F → List String
  available_columns d = ohlcv_columns ++ indicator_columns d.indicators

  abbrev pub param_keys : IndicatorConfig F → List String
  param_keys ind = map (λ p. p.0) ind.params

  abbrev pub unknown_of : IndicatorConfig F → List String → List Problem
  unknown_of ind [] = []
  unknown_of ind (p ∷ ps) = unknown_params ind.alias ind.name (p ∷ ps) ∷ []

  abbrev pub check_handler : IndicatorConfig F → Option (IndicatorHandler F) → List Problem
  check_handler ind none = unknown_indicator ind.alias ind.name ∷ []
  check_handler ind (some handler) = unknown_of ind (without handler.param_names (param_keys ind))

  -- the first loop of validate_definition
  unfoldable pub indicator_problems : List (IndicatorConfig F) → List Problem
  indicator_problems [] = []
  indicator_problems (ind ∷ inds) =
      check_handler ind (Dict.get ind.name (indicator_registry ta)) ++ indicator_problems inds

  -- the second, for one tree
  unfoldable pub column_problems : String → ConditionNode F → List String → List Problem
  column_problems label tree available =
      map (unknown_column label) (without available (operand_refs tree))

  abbrev pub exit_problems : Option (ConditionNode F) → List String → List Problem
  exit_problems none available = []
  exit_problems (some tree) available = column_problems "exit_conditions" tree available

  unfoldable pub problems : StrategyDefinition F → List Problem
  unfolding column_problems
  problems d =
      let available = available_columns d in
      indicator_problems d.indicators
      ++ (column_problems "entry_conditions" d.entry_conditions available
          ++ exit_problems d.exit_conditions available)

  unfoldable pub validate_definition : StrategyDefinition F → Result StrategyError (Unit {0})
  validate_definition d =
      let errors = problems d in if is_empty errors then ok tt else err (validation_error errors)
