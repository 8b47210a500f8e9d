-- ===== src/Examples/Strategy.antt =====
-- Runs of the interpreter.
use freqpanda.Strategy.Rows.{apply_op-nan}
use freqpanda.Prelude.{◌∷◌, [], ◌≡◌, refl, get_elem?, some, true, inl}
use freqpanda.Prelude.Result.{ok}
use freqpanda.Prelude.Fixed.{fixed_float, Fixed-IsOrdered}
use freqpanda.Strategy.Schema.{contains, ComparisonOp}
use freqpanda.Strategy.Indicators.{indicator_registry, sma, int_param, column_of}
use freqpanda.Strategy.Validation.{
  validate_definition, problems, available_columns, indicator_columns, indicator_problems,
  operand_refs, without,
}
use freqpanda.Strategy.Conditions.{evaluate_condition, apply_op, resolve_operand}
use freqpanda.Strategy.Interpreter.{
  run_strategy, compute_indicators, signals_of, run_loop, step, assign, missing,
}
use freqpanda.Examples.Sample.{plain, candles, dip, dip_trades, whole}

pub dip_run : run_strategy plain dip candles ≡ ok dip_trades
unfolding run_strategy validate_definition problems available_columns indicator_columns
    indicator_problems operand_refs without contains indicator_registry sma int_param
    evaluate_condition apply_op resolve_operand compute_indicators signals_of run_loop step assign
    missing column_of
dip_run = refl

-- A series whose indicator has not warmed up.
apply_op-nan_example :
    get_elem? (apply_op ComparisonOp.ne (fixed_float.nan ∷ []) (whole 3 ∷ [])) 0 ≡ some true
apply_op-nan_example =
    apply_op-nan ComparisonOp.ne (fixed_float.nan ∷ []) (whole 3 ∷ []) 0 fixed_float.nan (whole 3)
      Fixed-IsOrdered refl refl (inl refl)
