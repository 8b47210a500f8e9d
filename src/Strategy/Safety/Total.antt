-- ===== src/Strategy/Safety/Total.antt =====
-- A condition over columns that are there evaluates, and so do the signals.
use freqpanda.Prelude.{
  suc, ◌≡◌, refl, ap, Bool, true, Option, none, some, List, [], ◌∷◌, All, All-split, length, arith,
}
use freqpanda.Prelude.Result.{Result, ok}
use freqpanda.Prelude.Float.{Float}
use freqpanda.Strategy.Schema.{
  ConditionNode, Conditions, comparison, logical, nil, cons, Operand, constant, column, LogicalOp,
  accepted, all_accepted, check_arity, count, StrategyDefinition, optional_accepted,
}
use freqpanda.Strategy.Indicators.{Frame, StrategyError}
use freqpanda.Strategy.Validation.{operand_refs, all_operand_refs, refs_of, ohlcv_columns}
use freqpanda.Strategy.Conditions.{
  resolve_operand, apply_op, combine, evaluate_condition, evaluate_all,
}
use freqpanda.Strategy.Interpreter.{exit_series, rows_of, signals_of, with_prices, with_signals}
use freqpanda.Strategy.Safety.{Has, column_of-Has}

-- A call that returns.
abbrev pub Returns : {A : Type 0} → Result StrategyError A → Type 0
Returns {A} result = (a : A) × (result ≡ ok a)

module _ {F : Type 0} ⦃fl : Float F⦄ where
  resolve_operand-Returns :
      (o : Operand F) (df : Frame F) → All (Has df) (refs_of o) → Returns (resolve_operand o df)
  unfolding resolve_operand
  resolve_operand-Returns (constant c) df all = (_, refl)
  resolve_operand-Returns (column name) df all = column_of-Has df name all.0

  combine-Returns :
      (o : LogicalOp) (cs : Conditions F) (rs : List (List Bool))
      → check_arity o cs ≡ true
      → length rs ≡ count cs
      → Returns (combine o rs)
  unfolding combine check_arity
  combine-Returns LogicalOp.and cs [] arity e = absurd (ground arith)
  combine-Returns LogicalOp.or cs [] arity e = absurd (ground arith)
  combine-Returns LogicalOp.not_op cs [] arity e = absurd (ground arith)
  combine-Returns LogicalOp.and cs (r ∷ rs) arity e = (_, refl)
  combine-Returns LogicalOp.or cs (r ∷ rs) arity e = (_, refl)
  combine-Returns LogicalOp.not_op cs (r ∷ rs) arity e = (_, refl)

  abbrev ReturnsFor : Conditions F → Result StrategyError (List (List Bool)) → Type 0
  ReturnsFor cs result = (rs : List (List Bool)) × (result ≡ ok rs) × (length rs ≡ count cs)

  mutual
    unfolding evaluate_condition accepted operand_refs evaluate_all all_accepted all_operand_refs

    evaluate_condition-Returns :
        (c : ConditionNode F) (df : Frame F)
        → accepted c ≡ true
        → All (Has df) (operand_refs c)
        → Returns (evaluate_condition c df)
    evaluate_condition-Returns (comparison l o r) df ok_tree all =
        let (hl, hr) = All-split (Has df) (refs_of l) (refs_of r) all in
        let (left, el) = resolve_operand-Returns l df hl in
        let (right, er) = resolve_operand-Returns r df hr in
        (apply_op o left right, rw (el, er) refl)
    evaluate_condition-Returns (logical o cs) df ok_tree all =
        let (rs, e, counted) = evaluate_all-Returns cs df (ground arith) all in
        let (out, combined) = combine-Returns o cs rs (ground arith) counted in (out, rw e combined)

    evaluate_all-Returns :
        (cs : Conditions F) (df : Frame F)
        → all_accepted cs ≡ true
        → All (Has df) (all_operand_refs cs)
        → ReturnsFor cs (evaluate_all cs df)
    evaluate_all-Returns nil df ok_trees all = ([], refl, refl)
    evaluate_all-Returns (cons c cs) df ok_trees all =
        let (hc, hcs) = All-split (Has df) (operand_refs c) (all_operand_refs cs) all in
        let (r, er) = evaluate_condition-Returns c df (ground arith) hc in
        let (rs, ers, counted) = evaluate_all-Returns cs df (ground arith) hcs in
        (r ∷ rs, rw (er, ers) refl, ap suc counted)

  exit_series-Returns :
      (c : Option (ConditionNode F)) (df : Frame F)
      → optional_accepted c ≡ true
      → ((tree : ConditionNode F) → c ≡ some tree → All (Has df) (operand_refs tree))
      → Returns (exit_series c df)
  exit_series-Returns none df ok_tree all = (_, refl)
  exit_series-Returns (some c) df ok_tree all = evaluate_condition-Returns c df ok_tree (all c refl)

  rows_of-Returns : (df : Frame F) → All (Has df) ohlcv_columns → Returns (rows_of df)
  unfolding rows_of
  rows_of-Returns df (o, (h, (l, (c, rest)))) =
      let (opens, eo) = column_of-Has df "open" o in
      let (highs, eh) = column_of-Has df "high" h in
      let (lows, el) = column_of-Has df "low" l in
      let (closes, ec) = column_of-Has df "close" c in
      (with_prices df.index opens highs lows closes, rw (eo, eh, el, ec) refl)

  -- The signals of a frame that has the OHLCV columns and all that the conditions read.
  pub signals_of-Returns :
      (d : StrategyDefinition F) (df : Frame F)
      → accepted d.entry_conditions ≡ true
      → optional_accepted d.exit_conditions ≡ true
      → All (Has df) ohlcv_columns
      → All (Has df) (operand_refs d.entry_conditions)
      → ((tree : ConditionNode F)
          → d.exit_conditions ≡ some tree
          → All (Has df) (operand_refs tree))
      → Returns (signals_of d df)
  unfolding signals_of
  signals_of-Returns d df entry exit prices reads exit_reads =
      let (entries, ee) = evaluate_condition-Returns d.entry_conditions df entry reads in
      let (exits, ex) = exit_series-Returns d.exit_conditions df exit exit_reads in
      let (rows, er) = rows_of-Returns df prices in
      (with_signals rows entries exits, rw (ee, ex, er) refl)
