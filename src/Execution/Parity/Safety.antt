-- ===== src/Execution/Parity/Safety.antt =====
-- A strategy that passes its checks runs.
use freqpanda.Prelude.{
  String, ◌≡◌, refl, subst, true, Option, none, some, List, [], ◌∷◌, map, All, All-append, arith,
  append-eq-nil, Bool-cases, inl, inr, str_eq, if◌then◌else◌,
}
use mathlib.Core.Option.{some-injective}
use freqpanda.Prelude.Dict.{get}
use freqpanda.Prelude.Result.{Result, ok, err}
use freqpanda.Prelude.Float.{Float}
use freqpanda.Strategy.Schema.{
  ConditionNode, StrategyDefinition, check_definition, is_empty, contains,
}
use freqpanda.Strategy.Indicators.{
  Ta, Frame, StrategyError, Problem, validation_error, unknown_column,
}
use freqpanda.Strategy.Validation.{
  validate_definition, problems, available_columns, indicator_columns, indicator_problems,
  ohlcv_columns, operand_refs, column_problems, exit_problems, without,
}
use freqpanda.Strategy.Interpreter.{run_strategy, missing, compute_indicators, signals_of, Signals}
use freqpanda.Strategy.Safety.{Has, Keeps-All, without-Has, compute_indicators-Computes, Takes}
use freqpanda.Strategy.Safety.Total.{Returns, signals_of-Returns}
use freqpanda.Execution.LiveInterpreter.{snapshot_of}
use freqpanda.Execution.Parity.{run_loop-loop_of, no_trades, live_run, loop_of}

map-eq-nil {ℓ κ} : {A : Type ℓ} {B : Type κ} (f : A → B) (xs : List A) → map f xs ≡ [] → xs ≡ []
map-eq-nil f [] e = refl
map-eq-nil f (x ∷ xs) e = cc

key-get :
    {F : Type 0} (columns : List (String × List F)) (x : String)
    → contains x (map (λ c. c.0) columns) ≡ true
    → (s : List F) × (get x columns ≡ some s)
unfolding contains get
key-get [] x e = cc
key-get ((k, s) ∷ columns) x e = elim (Bool-cases (str_eq k x)) [
  | inl h ↦ (s, rw h refl)
  | inr h ↦ let (t, found) = key-get columns x (rw h at e) in (t, rw h found)
]

pub without-keys :
    {F : Type 0} (df : Frame F) (xs : List String)
    → without (map (λ c. c.0) df.columns) xs ≡ []
    → All (Has df) xs
unfolding without
without-keys df [] e = tt
without-keys df (x ∷ xs) e = elim (Bool-cases (contains x (map (λ c. c.0) df.columns))) [
  | inl h ↦ (key-get df.columns x h, without-keys df xs (rw h at e))
  | inr h ↦ cc (rw h at e)
]

no_problems :
    (errors : List Problem)
    → ◌≡◌ {A = Result StrategyError (Unit {0})}
        (if is_empty errors then ok tt else err (validation_error errors))
        (ok tt)
    → errors ≡ []
no_problems [] e = refl
no_problems (p ∷ ps) e = cc

module _ {F : Type 0} ⦃fl : Float F⦄ where
  column_problems-Has :
      (ta : Ta F) (df : Frame F) (label : String) (tree : ConditionNode F) (available : List String)
      → All (Has df) available
      → column_problems ta label tree available ≡ []
      → All (Has df) (operand_refs tree)
  unfolding column_problems
  column_problems-Has ta df label tree available all e =
      without-Has df available (operand_refs tree) all (map-eq-nil (unknown_column label) _ e)

  exit_problems-Has :
      (ta : Ta F) (df : Frame F) (exit : Option (ConditionNode F)) (available : List String)
      → All (Has df) available
      → exit_problems ta exit available ≡ []
      → (tree : ConditionNode F) → exit ≡ some tree
      → All (Has df) (operand_refs tree)
  exit_problems-Has ta df none available all e tree h = cc
  exit_problems-Has ta df (some c) available all e tree h =
      subst (λ t. All (Has df) (operand_refs t)) (some-injective _ _ h)
        (column_problems-Has ta df "exit_conditions" c available all e)

  run_strategy-ok :
      (ta : Ta F) (d : StrategyDefinition F) (df frame : Frame F) (signals : List (Signals F))
      → validate_definition ta d ≡ ok tt
      → missing df ≡ []
      → compute_indicators ta df d.indicators ≡ ok frame
      → signals_of d frame ≡ ok signals
      → Returns (run_strategy ta d df)
  unfolding run_strategy
  run_strategy-ok ta d df frame signals valid complete computed evaluated =
      let ran = run_loop-loop_of d.risk_management no_trades signals in
      let run = live_run d.risk_management no_trades (map snapshot_of signals) in
      ((loop_of run).trades, rw (valid, complete, computed, evaluated, ran) refl)

  -- A definition that the schema accepts and validate_definition passes runs on a frame with the
  -- OHLCV columns: run_strategy returns trades, where the calls of `ta` return.
  pub run_strategy-Returns :
      (ta : Ta F) (d : StrategyDefinition F) (df : Frame F)
      → check_definition d ≡ true
      → validate_definition ta d ≡ ok tt
      → missing df ≡ []
      → Takes ta d.indicators
      → Returns (run_strategy ta d df)
  unfolding validate_definition problems available_columns missing check_definition
  run_strategy-Returns ta d df accepts valid complete takes =
      let none_found = no_problems (problems ta d) valid in
      let (known, read) = append-eq-nil (indicator_problems ta d.indicators) _ none_found in
      let (entry, exit) =
        append-eq-nil
          (column_problems ta "entry_conditions" d.entry_conditions (available_columns ta d)) _
          read in
      let prices = without-keys df ohlcv_columns complete in
      let (frame, computed, keeps, new) =
        compute_indicators-Computes ta d.indicators df takes known prices.1.1.1.0 in
      let prices' = Keeps-All df frame ohlcv_columns keeps prices in
      let available =
        All-append (Has frame) ohlcv_columns (indicator_columns ta d.indicators) prices' new in
      let (signals, evaluated) =
        signals_of-Returns d frame (ground arith) (ground arith) prices'
          (column_problems-Has ta frame "entry_conditions" d.entry_conditions _ available entry)
          (exit_problems-Has ta frame d.exit_conditions _ available exit) in
      run_strategy-ok ta d df frame signals valid complete computed evaluated
