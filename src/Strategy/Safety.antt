-- ===== src/Strategy/Safety.antt =====
-- The columns that a validated strategy reads are there.
pub mod Total
use freqpanda.Prelude.{
  ℕ, String, ◌≡◌, refl, sym, subst, ◌∙◌, ap, Bool, true, false, Option, none, some, List, [], ◌∷◌,
  ◌++◌, map, All, All-append, All-split, str_eq, eq_iff, Bool-cases, inl, inr, arith, if◌then◌else◌,
  append-eq-nil,
}
use freqpanda.Prelude.Result.{Result, ok, err, ◌>>=◌}
use freqpanda.Prelude.Dict
use freqpanda.Prelude.Dict.{get-put, get-AllAt}
use freqpanda.Prelude.Float.{Float}
use freqpanda.Strategy.Schema.{contains, IndicatorConfig}
use freqpanda.Strategy.Indicators.{
  Ta, Frame, Params, Outputs, Problem, StrategyError, column_of, IndicatorHandler,
  indicator_registry, called, rsi, ema, sma, macd, bbands,
}
use freqpanda.Strategy.Validation.{
  without, indicator_columns, indicator_problems, outputs_of, check_handler, unknown_of, param_keys,
}
use freqpanda.Strategy.Interpreter.{assign, compute_indicators, apply_handler, resolved}

-- There is a column of a name.
abbrev pub Has : {F : Type 0} → Frame F → String → Type 0
Has df name = (s : List _) × (Dict.get name df.columns ≡ some s)

module _ {F : Type 0} where
  pub column_of-Has :
      (df : Frame F) (name : String) → Has df name → (s : List F) × (column_of df name ≡ ok s)
  unfolding column_of
  column_of-Has df name (s, e) = (s, rw (e, column_of) refl)

  pub contains-Has :
      (df : Frame F) (x : String) (allowed : List String)
      → All (Has df) allowed
      → contains x allowed ≡ true
      → Has df x
  unfolding contains
  contains-Has df x [] all e = cc
  contains-Has df x (y ∷ ys) all e = elim (Bool-cases (str_eq y x)) [
    | inl h ↦ subst (Has df) ((eq_iff y x).0 h) all.0
    | inr h ↦ contains-Has df x ys all.1 (rw h at e)
  ]

  -- Every name that a check lets through has a column.
  pub without-Has :
      (df : Frame F) (allowed xs : List String)
      → All (Has df) allowed
      → without allowed xs ≡ []
      → All (Has df) xs
  unfolding without
  without-Has df allowed [] all e = tt
  without-Has df allowed (x ∷ xs) all e = elim (Bool-cases (contains x allowed)) [
    | inl h ↦ (contains-Has df x allowed all h, without-Has df allowed xs all (rw h at e))
    | inr h ↦ cc (rw h at e)
  ]

  put-Has :
      (df : Frame F) (k : String) (s : List F) (x : String)
      → Has df x
      → Has (record df { columns = Dict.put k s df.columns }) x
  put-Has df k s x (t, e) = elim (Bool-cases (str_eq k x)) [
    | inl h ↦ (s, get-put k x s df.columns ∙ rw h refl)
    | inr h ↦ (t, get-put k x s df.columns ∙ rw h e)
  ]

  put-new :
      (df : Frame F) (k : String) (s : List F)
      → Has (record df { columns = Dict.put k s df.columns }) k
  put-new df k s = (s, get-put k k s df.columns ∙ ground (arith, eq_iff k k))

  -- A frame with all the columns of another.
  abbrev pub Keeps : Frame F → Frame F → Type 0
  Keeps df frame = (x : String) → Has df x → Has frame x

  pub Keeps-All :
      (df frame : Frame F) (xs : List String)
      → Keeps df frame
      → All (Has df) xs
      → All (Has frame) xs
  Keeps-All df frame [] keeps all = tt
  Keeps-All df frame (x ∷ xs) keeps all = (keeps x all.0, Keeps-All df frame xs keeps all.1)

  assign-Has :
      (outputs : Outputs F) (df : Frame F)
      → Keeps df (assign outputs df) × All (Has (assign outputs df)) (map (λ o. o.0) outputs)
  unfolding assign
  assign-Has [] df = (λ x h. h, tt)
  assign-Has ((name, s) ∷ rest) df =
      let df' = record df { columns = Dict.put name s df.columns } in
      let (keeps, new) = assign-Has rest df' in
      (λ x h. keeps x (put-Has df name s x h), (keeps name (put-new df name s), new))

module _ {F : Type 0} ⦃fl : Float F⦄ where
  -- A handler that returns the columns it announces, where there are closes and `ta` returns.
  abbrev IsTotal : Ta F → String → IndicatorHandler F → Type 0
  IsTotal ta name h =
      (df : Frame F) (alias : String) (params : Params F)
      → ta.accepts name params ≡ true
      → Has df "close"
      → (outs : Outputs F) × (h.compute df alias params ≡ ok outs)
        × (map (λ o. o.0) outs ≡ h.outputs alias)

  from_close :
      (df : Frame F) (returns : Bool) (f : List F → Outputs F) (names : List String)
      → returns ≡ true
      → Has df "close"
      → ((xs : List F) → map (λ o. o.0) (f xs) ≡ names)
      → (outs : Outputs F) × ((column_of df "close" >>= λ xs. called returns (f xs)) ≡ ok outs)
        × (map (λ o. o.0) outs ≡ names)
  from_close df returns f names e h p =
      let (s, found) = column_of-Has df "close" h in (f s, rw (found, e) refl, p s)

  module _ (ta : Ta F) where
    handlers-IsTotal : All (λ e. IsTotal ta e.0 e.1) (indicator_registry ta)
    unfolding indicator_registry rsi ema sma macd bbands
    handlers-IsTotal = (
      λ df alias params e h. from_close df _ _ _ e h (λ xs. refl),
      (
        λ df alias params e h. from_close df _ _ _ e h (λ xs. refl),
        (
          λ df alias params e h. from_close df _ _ _ e h (λ xs. refl),
          (
            λ df alias params e h. from_close df _ _ _ e h (λ xs. refl),
            (λ df alias params e h. from_close df _ _ _ e h (λ xs. refl), tt),
          ),
        ),
      ),
    )

    -- What a computation of indicators gives.
    abbrev pub Computes : Frame F → List String → Result StrategyError (Frame F) → Type 0
    Computes df names result =
        (frame : Frame F) × (result ≡ ok frame) × Keeps df frame × All (Has frame) names

    apply_handler-Computes :
        (ind : IndicatorConfig F) (df : Frame F) (handler : Option (IndicatorHandler F))
        → ((h : IndicatorHandler F) → handler ≡ some h → IsTotal ta ind.name h)
        → ta.accepts ind.name (resolved ta ind) ≡ true
        → check_handler ta ind handler ≡ []
        → Has df "close"
        → Computes df (outputs_of ta ind handler) (apply_handler ta ind df handler)
    apply_handler-Computes ind df none total takes known h = cc
    apply_handler-Computes ind df (some handler) total takes known h =
        let (outs, ran, names) = total handler refl df ind.alias (resolved ta ind) takes h in
        let (keeps, new) = assign-Has outs df in
        (assign outs df, rw ran refl, keeps, subst (All (Has (assign outs df))) names new)

    -- The calls of `ta` for the indicators return.
    abbrev pub Takes : List (IndicatorConfig F) → Type 0
    Takes inds = All (λ ind. ta.accepts ind.name (resolved ta ind) ≡ true) inds

    pub compute_indicators-Computes :
        (inds : List (IndicatorConfig F)) (df : Frame F)
        → Takes inds
        → indicator_problems ta inds ≡ []
        → Has df "close"
        → Computes df (indicator_columns ta inds) (compute_indicators ta df inds)
    unfolding compute_indicators indicator_problems indicator_columns
    compute_indicators-Computes [] df takes known h = (df, refl, λ x e. e, tt)
    compute_indicators-Computes (ind ∷ inds) df takes known h =
        let handler = Dict.get ind.name (indicator_registry ta) in
        let (first, rest) = append-eq-nil (check_handler ta ind handler) _ known in
        let (df', ran, keeps, new) =
          apply_handler-Computes ind df handler
            (λ k e. get-AllAt (IsTotal ta) ind.name (indicator_registry ta) k handlers-IsTotal e)
            takes.0 first h in
        let (frame, ran', keeps', new') =
          compute_indicators-Computes inds df' takes.1 rest (keeps "close" h) in
        (
          frame,
          rw ran ran',
          λ x e. keeps' x (keeps x e),
          All-append (Has frame) (outputs_of ta ind handler) (indicator_columns ta inds)
              (Keeps-All df' frame _ keeps' new) new',
        )
