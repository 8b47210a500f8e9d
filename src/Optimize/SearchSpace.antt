-- ===== src/Optimize/SearchSpace.antt =====
-- freqpanda_optimize/search_space.py. A trial of Optuna answers each request for a value.
pub mod Materialized
use freqpanda.Prelude.{
  String, Bool, true, ◌&&◌, Option, none, some, List, [], ◌∷◌, ◌++◌, map, if◌then◌else◌,
}
use Prim.Native.String.{◌++◌ as append}
use freqpanda.Prelude.Dict
use freqpanda.Prelude.Float.{Float, one}
use freqpanda.Strategy.Schema.{
  StrategyDefinition, IndicatorConfig, ParamRange, ParamValue, number, range,
}

pub record ParamSpec (F : Type 0) : Type 0 where
  pub indicator_alias : String
  pub param_name : String
  pub param_range : ParamRange F

-- f"{alias}.{name}"
abbrev pub key_of : String → String → String
key_of alias name = append alias (append "." name)

abbrev pub key : {F : Type 0} → ParamSpec F → String
key spec = key_of spec.indicator_alias spec.param_name

-- suggest_int(key, low, high, step) and suggest_float(key, low, high, step)
pub record Trial (F : Type 0) : Type 0 where
  pub suggest_int : String → F → F → F → F
  pub suggest_float : String → F → F → Option F → F

-- The ranges among one indicator's parameters.
unfoldable pub specs_of : {F : Type 0} → String → List (String × ParamValue F) → List (ParamSpec F)
specs_of alias [] = []
specs_of alias ((name, number v) ∷ params) = specs_of alias params
specs_of alias ((name, range r) ∷ params) =
    record { indicator_alias = alias; param_name = name; param_range = r } ∷ specs_of alias params

unfoldable pub specs_from : {F : Type 0} → List (IndicatorConfig F) → List (ParamSpec F)
unfolding specs_of
specs_from [] = []
specs_from (ind ∷ inds) = specs_of ind.alias ind.params ++ specs_from inds

unfoldable pub build_search_space : {F : Type 0} → StrategyDefinition F → List (ParamSpec F)
unfolding specs_from
build_search_space d = specs_from d.indicators

module _ {F : Type 0} ⦃fl : Float F⦄ where
  -- float(v).is_integer()
  abbrev is_integer : F → Bool
  is_integer v = fl.le v (fl.trunc v) && fl.le (fl.trunc v) v

  abbrev step_is_integer : Option F → Bool
  step_is_integer none = true
  step_is_integer (some s) = is_integer s

  unfoldable pub is_integer_range : ParamRange F → Bool
  is_integer_range pr =
      is_integer pr.min && is_integer pr.max && is_integer pr.default && step_is_integer pr.step

  abbrev int_step : Option F → F
  int_step none = one
  int_step (some s) = fl.trunc s

  -- One round of the loop: the value of one parameter.
  unfoldable pub suggest_one : Trial F → ParamSpec F → F
  unfolding is_integer_range
  suggest_one trial spec =
      let pr = spec.param_range in
      if is_integer_range pr
      then trial.suggest_int (key spec) (fl.trunc pr.min) (fl.trunc pr.max) (int_step pr.step)
      else trial.suggest_float (key spec) pr.min pr.max pr.step

  unfoldable pub suggest_from : Trial F → List (String × F) → List (ParamSpec F) → List (String × F)
  unfolding suggest_one Dict.put
  suggest_from trial values [] = values
  suggest_from trial values (spec ∷ specs) =
      suggest_from trial (Dict.put (key spec) (suggest_one trial spec) values) specs

  abbrev pub suggest_params : Trial F → List (ParamSpec F) → List (String × F)
  suggest_params trial search_space = suggest_from trial [] search_space

module _ {F : Type 0} where
  abbrev pub override : ParamValue F → Option F → ParamValue F
  override old none = old
  override old (some v) = number v

  -- A name stands once in a dict, so a write to it replaces its value in place.
  unfoldable pub new_params :
      String → List (String × F) → List (String × ParamValue F) → List (String × ParamValue F)
  unfolding Dict.get
  new_params alias values [] = []
  new_params alias values ((name, v) ∷ params) =
      (name, override v (Dict.get (key_of alias name) values)) ∷ new_params alias values params

  unfoldable pub new_indicators :
      List (String × F) → List (IndicatorConfig F) → List (IndicatorConfig F)
  unfolding new_params
  new_indicators values [] = []
  new_indicators values (ind ∷ inds) =
      record { name = ind.name; alias = ind.alias; params = new_params ind.alias values ind.params }
      ∷ new_indicators values inds

  unfoldable pub materialize_definition :
      StrategyDefinition F → List (String × F) → StrategyDefinition F
  unfolding new_indicators
  materialize_definition d values = record d { indicators = new_indicators values d.indicators }
