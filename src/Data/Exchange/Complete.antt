-- ===== src/Data/Exchange/Complete.antt =====
-- Paging through an exchange that serves a fixed series.
use freqpanda.Prelude.{
  ℕ, zero, suc, ◌+◌, ◌≤◌, ◌<◌, ◌≡◌, refl, sym, subst, ◌∙◌, ap, Bool, true, false, none, some, List,
  [], ◌∷◌, ◌++◌, length, get_last?, take, drop, leb, ltb, arith, if◌then◌else◌, Bool-cases,
  Option-cases, length-drop, inl, inr, ltb→lt, ltb→le,
}
use freqpanda.Data.Exchange.{
  Candle, Market, timeframe_ms, returned, pages_from, fetch_ohlcv_since, yield_first, Pages,
}

-- The candles of a series from a time on.
unfoldable pub since : {F : Type 0} → ℕ → List (Candle F) → List (Candle F)
since t [] = []
since t (c ∷ cs) = if ltb c.time t then since t cs else c ∷ cs

-- Each candle is at least a timeframe after the one before it, and the first not before a bound.
abbrev pub IsSpaced : {F : Type 0} → ℕ → ℕ → List (Candle F) → Type 0
IsSpaced step b [] = Unit
IsSpaced step b (c ∷ cs) = (b ≤ c.time) × IsSpaced step (c.time + step) cs

-- CCXT's documented answer, where `series` is all that the exchange has.
abbrev pub Serves : {F : Type 0} → Market F → List (Candle F) → Type 0
Serves market series =
    (call t limit : ℕ) → market.fetch_ohlcv call t limit ≡ some (take limit (since t series))

abbrev pub concat {ℓ} : {A : Type ℓ} → List (List A) → List A
concat [] = []
concat (xs ∷ xss) = xs ++ concat xss

module _ {F : Type 0} where
  IsSpaced-le :
      (step a b : ℕ) (cs : List (Candle F)) → a ≤ b → IsSpaced step b cs → IsSpaced step a cs
  IsSpaced-le step a b [] h s = s
  IsSpaced-le step a b (c ∷ cs) h s = (omega (arith, s.0), s.1)

  pub since-IsSpaced :
      (step b t : ℕ) (cs : List (Candle F)) → IsSpaced step b cs → IsSpaced step t (since t cs)
  unfolding since
  since-IsSpaced step b t [] s = s
  since-IsSpaced step b t (c ∷ cs) s = elim (Bool-cases (ltb c.time t)) [
    | inl e ↦ rw e (since-IsSpaced step (c.time + step) t cs s.1)
    | inr e ↦ rw e (ltb→le c.time t e, s.1)
  ]

  since-all : (step t : ℕ) (cs : List (Candle F)) → IsSpaced step t cs → since t cs ≡ cs
  unfolding since
  since-all step t [] s = refl
  since-all step t (c ∷ cs) s = ground (arith, s.0)

  since-since : (t u : ℕ) (cs : List (Candle F)) → t ≤ u → since u (since t cs) ≡ since u cs
  unfolding since
  since-since t u [] h = refl
  since-since t u (c ∷ cs) h = ground (arith, since-since t u cs h)

  -- What comes after a page is what is left from a timeframe after its last candle.
  since-drop :
      (step b limit : ℕ) (cs : List (Candle F)) (last : Candle F)
      → suc zero ≤ step
      → IsSpaced step b cs
      → get_last? (take limit cs) ≡ some last
      → (b ≤ last.time) × (since (last.time + step) cs ≡ drop limit cs)
  unfolding since
  since-drop step b zero cs last pos s e = cc
  since-drop step b (suc limit) [] last pos s e = cc
  since-drop step b (suc zero) (c ∷ cs) last pos s e =
      let all = since-all step (c.time + step) cs s.1 in ground (arith, s.0, all)
  since-drop step b (suc (suc limit)) (c ∷ []) last pos s e = ground (arith, s.0)
  since-drop step b (suc (suc limit)) (c ∷ d ∷ cs) last pos s e =
      let (le, eq) = since-drop step (c.time + step) (suc limit) (d ∷ cs) last pos s.1 e in
      (omega (arith, s.0), (ground (arith, s.0)) ∙ eq)

  drop_all_page :
      (limit : ℕ) (cs : List (Candle F))
      → length (take limit cs) < limit
      → (drop limit cs ≡ []) × (take limit cs ≡ cs)
  drop_all_page zero cs h = absurd (omega arith)
  drop_all_page (suc limit) [] h = (refl, refl)
  drop_all_page (suc limit) (c ∷ cs) h =
      let (left, all) = drop_all_page limit cs (omega arith) in (left, ap (◌∷◌ c) all)

  take-drop : (limit : ℕ) (cs : List (Candle F)) → take limit cs ++ drop limit cs ≡ cs
  take-drop zero cs = refl
  take-drop (suc limit) [] = refl
  take-drop (suc limit) (c ∷ cs) = ap (◌∷◌ c) (take-drop limit cs)

  no_last : (cs : List (Candle F)) → get_last? cs ≡ none → cs ≡ []
  no_last [] e = refl
  no_last (c ∷ []) e = cc
  no_last (c ∷ d ∷ cs) e = absurd (cc (no_last (d ∷ cs) e))

  abbrev Yields : List (Candle F) → Pages F → Type 0
  Yields cs result = (concat result.0 ≡ cs) × (result.1 ≡ returned)

  -- A page before what is left, where a short page is the last.
  then-Yields :
      (short : Bool) (batch rest cs : List (Candle F)) (more : Pages F)
      → batch ++ rest ≡ cs
      → (short ≡ true → rest ≡ [])
      → (short ≡ false → Yields rest more)
      → Yields cs (yield_first batch (if short then ([], returned) else more))
  then-Yields true batch rest cs more e ends goes = (sym (ap (◌++◌ batch) (ends refl)) ∙ e, refl)
  then-Yields false batch rest cs more e ends goes =
      (ap (◌++◌ batch) (goes refl).0 ∙ e, (goes refl).1)

  some_last :
      (n : ℕ) (cs : List (Candle F)) (last : Candle F)
      → get_last? (take n cs) ≡ some last
      → 0 < length cs
  some_last zero cs last e = cc
  some_last (suc n) [] last e = cc
  some_last (suc n) (c ∷ cs) last e = omega arith

  none_left : (n : ℕ) (cs : List (Candle F)) → 0 < n → get_last? (take n cs) ≡ none → cs ≡ []
  none_left zero cs h e = absurd (omega arith)
  none_left (suc n) [] h e = refl
  none_left (suc n) (c ∷ cs) h e = absurd (cc (no_last (c ∷ take n cs) e))

  module _ (market : Market F) (series : List (Candle F)) (serves : Serves market series)
      (spaced : IsSpaced (timeframe_ms market) 0 series) (limit : ℕ) (some_limit : 0 < limit)
      (advances : 0 < timeframe_ms market) where
    -- A round that gets a page.
    pages_from-page :
        (fuel call cursor : ℕ) (last : Candle F)
        → get_last? (take limit (since cursor series)) ≡ some last
        → let next_cursor = last.time + timeframe_ms market in
          pages_from market limit (suc fuel) call cursor
          ≡ yield_first (take limit (since cursor series)) (
              if leb next_cursor cursor
              then ([], returned)
              else if ltb (length (take limit (since cursor series))) limit
              then ([], returned)
              else pages_from market limit fuel (suc call) next_cursor)
    unfolding pages_from
    pages_from-page fuel call cursor last e = rw (serves call cursor limit, e) refl

    -- A round that gets nothing.
    pages_from-end :
        (fuel call cursor : ℕ)
        → get_last? (take limit (since cursor series)) ≡ none
        → pages_from market limit (suc fuel) call cursor ≡ ([], returned)
    unfolding pages_from
    pages_from-end fuel call cursor e = rw (serves call cursor limit, e) refl

    pages_from-Yields :
        (fuel call cursor : ℕ)
        → length (since cursor series) < fuel
        → Yields (since cursor series) (pages_from market limit fuel call cursor)
    pages_from-Yields zero call cursor h = absurd (omega arith)
    pages_from-Yields (suc fuel) call cursor h =
        let cs = since cursor series in
        elim (Option-cases (get_last? (take limit cs))) [
          | inl e ↦
              subst (Yields cs) (sym (pages_from-end fuel call cursor e))
                (sym (none_left limit cs some_limit e), refl)
          | inr (last, e) ↦
              let next_cursor = last.time + timeframe_ms market in
              let (le, left) =
                since-drop (timeframe_ms market) cursor limit cs last advances
                  (since-IsSpaced (timeframe_ms market) 0 cursor series spaced) e in
              let rest = sym (since-since cursor next_cursor series (omega arith)) ∙ left in
              let fewer : length (since next_cursor series) < fuel =
                omega (arith, length-drop limit cs, some_last limit cs last e, ap length rest) in
              let goes_on : leb next_cursor cursor ≡ false = ground arith in
              subst (Yields cs) (sym (pages_from-page fuel call cursor last e)) (
                rw goes_on (
                  then-Yields (ltb (length (take limit cs)) limit) (take limit cs) (drop limit cs)
                    cs _ (take-drop limit cs)
                    (λ short. (drop_all_page limit cs (ltb→lt _ _ short)).0)
                    (λ full.
                      subst (λ l. Yields l (pages_from market limit fuel (suc call) next_cursor))
                        rest (pages_from-Yields fuel (suc call) next_cursor fewer))))
        ]

    -- From an exchange that serves a fixed series, whose candles are at least a timeframe apart, the
    -- pages are together exactly the candles from `since_ms` on, and the generator returns. Fuel for
    -- one round more than there are such candles is enough, and a page has any size but zero.
    pub fetch_ohlcv_since-all :
        (fuel since_ms : ℕ)
        → length (since since_ms series) < fuel
        → (concat (fetch_ohlcv_since market limit fuel since_ms).0 ≡ since since_ms series)
          × ((fetch_ohlcv_since market limit fuel since_ms).1 ≡ returned)
    unfolding fetch_ohlcv_since
    fetch_ohlcv_since-all fuel since_ms h = pages_from-Yields fuel 0 since_ms h
