-- ===== src/Strategy/Schema.antt =====
-- freqpanda_strategy/schema.py. Numbers are floats; `none` of a validator's result is a ValueError.
use freqpanda.Prelude.{
  ℕ, suc, String, Bool, true, false, not, ◌&&◌, ◌||◌, Option, none, some, List, [], ◌∷◌, leb, ◌==◌,
  str_eq, map, if◌then◌else◌,
}
use Prim.Native.Char.{code}
use freqpanda.Prelude.Float.{Float, nought, one}

pub record ParamRange (F : Type 0) : Type 0 where
  pub default : F
  pub min : F
  pub max : F
  pub step : Option F

-- `Union[Number, ParamRange]`
pub data ParamValue (F : Type 0) : Type 0 where
  number : F → ParamValue F
  range : ParamRange F → ParamValue F

abbrev pub resolve_param : {F : Type 0} → ParamValue F → F
resolve_param (number v) = v
resolve_param (range r) = r.default

pub record IndicatorConfig (F : Type 0) : Type 0 where
  pub name : String
  pub alias : String
  pub params : List (String × ParamValue F)

pub data ComparisonOp : Type 0 where
  gt gte lt lte eq ne crosses_above crosses_below : ComparisonOp

pub data LogicalOp : Type 0 where
  and or not_op : LogicalOp

-- A literal constant, or the name of a column.
pub data Operand (F : Type 0) : Type 0 where
  constant : F → Operand F
  column : String → Operand F

-- `ConditionNode`, and the `conditions` list of a `Logical`
mutual
  pub data ConditionNode (F : Type 0) : Type 0 where
    comparison : Operand F → ComparisonOp → Operand F → ConditionNode F
    logical : LogicalOp → Conditions F → ConditionNode F

  pub data Conditions (F : Type 0) : Type 0 where
    nil : Conditions F
    cons : ConditionNode F → Conditions F → Conditions F

pub record RiskManagement (F : Type 0) : Type 0 where
  pub stop_loss_pct : F
  pub take_profit_pct : F
  pub trailing_stop_pct : Option F

pub record StrategyDefinition (F : Type 0) : Type 0 where
  pub name : String
  pub description : Option String
  pub timeframe : Option String
  pub indicators : List (IndicatorConfig F)
  pub entry_conditions : ConditionNode F
  pub exit_conditions : Option (ConditionNode F)
  pub risk_management : RiskManagement F

is_letter : ℕ → Bool
is_letter c = (leb b'a' c && leb c b'z') || (leb b'A' c && leb c b'Z') || c == b'_'

is_word : String → Bool
is_word String.[] = true
is_word (String.◌∷◌ c s) =
    (is_letter (code c) || (leb b'0' (code c) && leb (code c) b'9')) && is_word s

-- IndicatorConfig._alias_is_identifier: `str.isidentifier` over ASCII text
unfoldable pub alias_is_identifier : String → Bool
unfolding is_letter is_word
alias_is_identifier String.[] = false
alias_is_identifier (String.◌∷◌ c s) = is_letter (code c) && is_word s

-- The number of nested conditions of a `Logical`.
abbrev pub count : {F : Type 0} → Conditions F → ℕ
count nil = 0
count (cons c cs) = suc (count cs)

-- Logical._check_arity
unfoldable pub check_arity : {F : Type 0} → LogicalOp → Conditions F → Bool
check_arity not_op cs = count cs == 1
check_arity and cs = leb 2 (count cs)
check_arity or cs = leb 2 (count cs)

-- The arity check at every node, as parsing a tree makes it.
unfoldable mutual
  pub accepted : {F : Type 0} → ConditionNode F → Bool
  accepted (comparison l o r) = true
  accepted (logical o cs) = check_arity o cs && all_accepted cs

  pub all_accepted : {F : Type 0} → Conditions F → Bool
  all_accepted nil = true
  all_accepted (cons c cs) = accepted c && all_accepted cs

-- set membership
unfoldable pub contains : String → List String → Bool
contains x [] = false
contains x (y ∷ ys) = str_eq y x || contains x ys

-- StrategyDefinition._check_unique_aliases: `dupes`, from the aliases seen so far
unfoldable pub dupes : List String → List String → List String
dupes seen [] = []
dupes seen (a ∷ rest) =
    let known = contains a seen in
    let more = dupes (if known then seen else a ∷ seen) rest in if known then a ∷ more else more

abbrev pub is_empty {ℓ} : {A : Type ℓ} → List A → Bool
is_empty [] = true
is_empty (x ∷ xs) = false

abbrev pub aliases : {F : Type 0} → List (IndicatorConfig F) → List String
aliases = map (λ ind. ind.alias)

module _ {F : Type 0} ⦃fl : Float F⦄ where
  open fl use {lt as lt_float, le as le_float}

  -- ParamRange: `step` is positive, and _check_bounds
  unfoldable pub check_bounds : ParamRange F → Bool
  check_bounds r = step_ok r.step && not (lt_float r.max r.min) && within
    where
      step_ok : Option F → Bool
      step_ok none = true
      step_ok (some s) = lt_float nought s

      within : Bool
      within = le_float r.min r.default && le_float r.default r.max

  -- `gt=0, lt=1` of a field
  abbrev fraction : F → Bool
  fraction p = lt_float nought p && lt_float p one

  abbrev optional_fraction : Option F → Bool
  optional_fraction none = true
  optional_fraction (some p) = fraction p

  -- the bounds of RiskManagement's fields
  unfoldable pub check_risk : RiskManagement F → Bool
  check_risk r =
      fraction r.stop_loss_pct
      && lt_float nought r.take_profit_pct
      && optional_fraction r.trailing_stop_pct

  abbrev pub optional_accepted : Option (ConditionNode F) → Bool
  optional_accepted none = true
  optional_accepted (some c) = accepted c

  unfoldable pub params_ok : List (String × ParamValue F) → Bool
  params_ok [] = true
  params_ok ((name, number v) ∷ rest) = params_ok rest
  params_ok ((name, range r) ∷ rest) = check_bounds r && params_ok rest

  unfoldable pub indicators_ok : List (IndicatorConfig F) → Bool
  indicators_ok [] = true
  indicators_ok (i ∷ is) = alias_is_identifier i.alias && params_ok i.params && indicators_ok is

  -- Every check that `StrategyDefinition.model_validate` makes of a well-typed definition.
  unfoldable pub check_definition : StrategyDefinition F → Bool
  unfolding accepted dupes contains check_risk check_bounds params_ok indicators_ok
  check_definition d =
      indicators_ok d.indicators
      && accepted d.entry_conditions
      && optional_accepted d.exit_conditions
      && check_risk d.risk_management
      && is_empty (dupes [] (aliases d.indicators))
