-- ===== src/Optimize/SearchSpace/Materialized.antt =====
-- A definition with the values of a trial in it passes the checks that it passed before, and has no
-- range left.
use freqpanda.Prelude.{
  String, ◌≡◌, refl, ap, ap₂, ◌∙◌, true, some, List, [], ◌∷◌, ◌++◌, map, All, All-split, str_eq,
  eq_iff, arith, Bool-cases, Option-cases, inl, inr,
}
use freqpanda.Prelude.Result.{ok}
use freqpanda.Prelude.Dict
use freqpanda.Prelude.Dict.{get-put}
use freqpanda.Prelude.Float.{Float}
use freqpanda.Strategy.Schema.{
  StrategyDefinition, IndicatorConfig, ParamValue, number, range, check_definition, params_ok,
  indicators_ok, aliases,
}
use freqpanda.Strategy.Indicators.{Ta, indicator_registry}
use freqpanda.Strategy.Validation.{
  validate_definition, problems, indicator_problems, indicator_columns, available_columns,
}
use freqpanda.Optimize.SearchSpace.{
  ParamSpec, key, key_of, Trial, specs_of, specs_from, build_search_space, suggest_one,
  suggest_from, suggest_params, new_params, new_indicators, materialize_definition,
}

module _ {F : Type 0} where
  -- A key that a dict has.
  abbrev HasKey : List (String × F) → String → Type 0
  HasKey values k = (v : F) × (Dict.get k values ≡ some v)

  put-HasKey :
      (k j : String) (v : F) (values : List (String × F))
      → HasKey values j
      → HasKey (Dict.put k v values) j
  put-HasKey k j v values (w, h) = elim (Bool-cases (str_eq k j)) [
    | inl e ↦ (v, get-put k j v values ∙ rw e refl)
    | inr e ↦ (w, get-put k j v values ∙ rw e h)
  ]

  put_same-HasKey :
      (k : String) (v : F) (values : List (String × F)) → HasKey (Dict.put k v values) k
  put_same-HasKey k v values = (v, get-put k k v values ∙ ground (arith, eq_iff k k))

  abbrev SpecKeys : List (String × F) → List (ParamSpec F) → Type 0
  SpecKeys values = All (λ spec. HasKey values (key spec))

module _ {F : Type 0} ⦃fl : Float F⦄ where
  suggest_from-HasKey :
      (trial : Trial F) (specs : List (ParamSpec F)) (values : List (String × F)) (k : String)
      → HasKey values k
      → HasKey (suggest_from trial values specs) k
  unfolding suggest_from
  suggest_from-HasKey trial [] values k h = h
  suggest_from-HasKey trial (spec ∷ specs) values k h =
      suggest_from-HasKey trial specs (Dict.put (key spec) (suggest_one trial spec) values) k
        (put-HasKey (key spec) k (suggest_one trial spec) values h)

  suggest_from-SpecKeys :
      (trial : Trial F) (specs : List (ParamSpec F)) (values : List (String × F))
      → SpecKeys (suggest_from trial values specs) specs
  unfolding suggest_from
  suggest_from-SpecKeys trial [] values = tt
  suggest_from-SpecKeys trial (spec ∷ specs) values =
      let values' = Dict.put (key spec) (suggest_one trial spec) values in
      (
        suggest_from-HasKey trial specs values' (key spec)
            (put_same-HasKey (key spec) (suggest_one trial spec) values),
        suggest_from-SpecKeys trial specs values',
      )

module _ {F : Type 0} where
  specs_of-new_params :
      (alias : String) (values : List (String × F)) (params : List (String × ParamValue F))
      → SpecKeys values (specs_of alias params)
      → specs_of alias (new_params alias values params) ≡ []
  unfolding specs_of new_params
  specs_of-new_params alias values [] has = refl
  specs_of-new_params alias values ((name, number v) ∷ params) has =
      elim (Option-cases (Dict.get (key_of alias name) values)) [
        | inl e ↦ rw e (specs_of-new_params alias values params has)
        | inr (w, e) ↦ rw e (specs_of-new_params alias values params has)
      ]
  specs_of-new_params alias values ((name, range r) ∷ params) ((w, e), has) =
      rw e (specs_of-new_params alias values params has)

  specs_from-new_indicators :
      (values : List (String × F)) (inds : List (IndicatorConfig F))
      → SpecKeys values (specs_from inds)
      → specs_from (new_indicators values inds) ≡ []
  unfolding specs_from new_indicators
  specs_from-new_indicators values [] has = refl
  specs_from-new_indicators values (ind ∷ inds) has =
      let (here, later) =
        All-split (λ spec. HasKey values (key spec)) (specs_of ind.alias ind.params)
          (specs_from inds) has in
      ap₂ ◌++◌ (specs_of-new_params ind.alias values ind.params here)
        (specs_from-new_indicators values inds later)

  aliases-new_indicators :
      (values : List (String × F)) (inds : List (IndicatorConfig F))
      → aliases (new_indicators values inds) ≡ aliases inds
  unfolding new_indicators
  aliases-new_indicators values [] = refl
  aliases-new_indicators values (ind ∷ inds) =
      ap (◌∷◌ ind.alias) (aliases-new_indicators values inds)

  keys-new_params :
      (alias : String) (values : List (String × F)) (params : List (String × ParamValue F))
      → map (λ p. p.0) (new_params alias values params) ≡ map (λ p. p.0) params
  unfolding new_params
  keys-new_params alias values [] = refl
  keys-new_params alias values ((name, v) ∷ params) =
      ap (◌∷◌ name) (keys-new_params alias values params)

module _ {F : Type 0} ⦃fl : Float F⦄ where
  params_ok-new_params :
      (alias : String) (values : List (String × F)) (params : List (String × ParamValue F))
      → params_ok params ≡ true
      → params_ok (new_params alias values params) ≡ true
  unfolding params_ok new_params
  params_ok-new_params alias values [] h = refl
  params_ok-new_params alias values ((name, number v) ∷ params) h =
      elim (Option-cases (Dict.get (key_of alias name) values)) [
        | inl e ↦ rw e (params_ok-new_params alias values params h)
        | inr (w, e) ↦ rw e (params_ok-new_params alias values params h)
      ]
  params_ok-new_params alias values ((name, range r) ∷ params) h =
      let rest = params_ok-new_params alias values params (ground arith) in
      elim (Option-cases (Dict.get (key_of alias name) values)) [
        | inl e ↦ rw e (ground arith)
        | inr (w, e) ↦ rw e rest
      ]

  indicators_ok-new_indicators :
      (values : List (String × F)) (inds : List (IndicatorConfig F))
      → indicators_ok inds ≡ true
      → indicators_ok (new_indicators values inds) ≡ true
  unfolding indicators_ok new_indicators
  indicators_ok-new_indicators values [] h = refl
  indicators_ok-new_indicators values (ind ∷ inds) h = ground (
    arith,
    params_ok-new_params ind.alias values ind.params,
    indicators_ok-new_indicators values inds,
  )

  check_definition-materialize :
      (d : StrategyDefinition F) (values : List (String × F))
      → check_definition d ≡ true
      → check_definition (materialize_definition d values) ≡ true
  unfolding check_definition materialize_definition
  check_definition-materialize d values h = ground (
    arith,
    aliases-new_indicators values d.indicators,
    indicators_ok-new_indicators values d.indicators,
  )

  module _ (ta : Ta F) (values : List (String × F)) where
    indicator_problems-new_indicators :
        (inds : List (IndicatorConfig F))
        → indicator_problems ta (new_indicators values inds) ≡ indicator_problems ta inds
    unfolding indicator_problems new_indicators
    indicator_problems-new_indicators [] = refl
    indicator_problems-new_indicators (ind ∷ inds) =
        elim (Option-cases (Dict.get ind.name (indicator_registry ta))) [
          | inl e ↦ rw (e, indicator_problems-new_indicators inds) refl
          | inr (handler, e) ↦
              rw
                (
                  e,
                  keys-new_params ind.alias values ind.params,
                  indicator_problems-new_indicators inds,
                )
                refl
        ]

    indicator_columns-new_indicators :
        (inds : List (IndicatorConfig F))
        → indicator_columns ta (new_indicators values inds) ≡ indicator_columns ta inds
    unfolding indicator_columns new_indicators
    indicator_columns-new_indicators [] = refl
    indicator_columns-new_indicators (ind ∷ inds) =
        elim (Option-cases (Dict.get ind.name (indicator_registry ta))) [
          | inl e ↦ rw e (indicator_columns-new_indicators inds)
          | inr (handler, e) ↦ rw (e, indicator_columns-new_indicators inds) refl
        ]

    problems-materialize :
        (d : StrategyDefinition F) → problems ta (materialize_definition d values) ≡ problems ta d
    unfolding problems available_columns materialize_definition
    problems-materialize d =
        rw
          (
            indicator_problems-new_indicators d.indicators,
            indicator_columns-new_indicators d.indicators,
          )
          refl

    validate_definition-materialize :
        (d : StrategyDefinition F)
        → validate_definition ta (materialize_definition d values) ≡ validate_definition ta d
    unfolding validate_definition
    validate_definition-materialize d = rw (problems-materialize d) refl

  -- A definition that passes the schema's checks and the validation, with the values that a trial
  -- suggests for its search space, passes both, and has no range left to search.
  pub materialize_definition_lem :
      (ta : Ta F) (d : StrategyDefinition F) (trial : Trial F)
      → check_definition d ≡ true
      → validate_definition ta d ≡ ok tt
      → let best = materialize_definition d (suggest_params trial (build_search_space d)) in
        (check_definition best ≡ true)
        × (validate_definition ta best ≡ ok tt)
        × (build_search_space best ≡ [])
  unfolding build_search_space materialize_definition
  materialize_definition_lem ta d trial accepts valid =
      let space = build_search_space d in
      let values = suggest_params trial space in
      (
        check_definition-materialize d values accepts,
        validate_definition-materialize ta values d ∙ valid,
        specs_from-new_indicators values d.indicators (suggest_from-SpecKeys trial space []),
      )
