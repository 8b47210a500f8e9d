-- ===== src/Execution/Feed/Delivery.antt =====
-- What the callback of a feed can rely on.
use freqpanda.Prelude.{
  ℕ, zero, suc, ◌-◌, ◌≤◌, ◌<◌, ◌≡◌, refl, ◌∙◌, ap₂, true, false, not, ◌&&◌, All, none, some, List,
  [], ◌∷◌, ◌++◌, map, length, length-append, length-drop, get_last?, drop, leb, arith,
  if◌then◌else◌, Bool-cases, inl, inr, leb→le,
}
use freqpanda.Data.Exchange.{Candle, is_closed_candle}
use freqpanda.Execution.Feed.{Feed, last_rows, is_stale, append_candle, deliver}

-- Strictly in the order of time.
abbrev pub InTime : {F : Type 0} → ℕ → List (Candle F) → Type 0
InTime b [] = Unit
InTime b (c ∷ cs) = (b ≤ c.time) × InTime (suc c.time) cs

-- The time after the last candle of a list, or a bound if there is none.
abbrev pub after : {F : Type 0} → ℕ → List (Candle F) → ℕ
after b [] = b
after b (c ∷ cs) = after (suc c.time) cs

-- A history to rely on: in order, and within its bound.
abbrev pub IsSound : {F : Type 0} → ℕ → List (Candle F) → Type 0
IsSound max_history history = InTime 0 history × (length history ≤ max_history)

-- The candles of a batch that have closed and are later than all before them.
pub fresh :
    {F : Type 0} → (step : ℕ) → (clock : Candle F → ℕ) → ℕ → List (Candle F) → List (Candle F)
fresh step clock b [] = []
fresh step clock b (c ∷ cs) =
    let later = fresh step clock (suc c.time) cs in
    let rest = fresh step clock b cs in
    if is_closed_candle c step (clock c) && leb b c.time then c ∷ later else rest

module _ {F : Type 0} where
  InTime-snoc :
      (b : ℕ) (cs : List (Candle F)) (c : Candle F)
      → InTime b cs
      → after b cs ≤ c.time
      → InTime b (cs ++ (c ∷ []))
  InTime-snoc b [] c t h = (h, tt)
  InTime-snoc b (d ∷ cs) c t h = (t.0, InTime-snoc (suc d.time) cs c t.1 h)

  pub InTime-weaken : (a b : ℕ) (cs : List (Candle F)) → a ≤ b → InTime b cs → InTime a cs
  InTime-weaken a b [] h t = tt
  InTime-weaken a b (c ∷ cs) h t = (omega (arith, t.0), t.1)

  pub InTime-drop : (n b : ℕ) (cs : List (Candle F)) → InTime b cs → InTime b (drop n cs)
  InTime-drop zero b cs t = t
  InTime-drop (suc n) b [] t = tt
  InTime-drop (suc n) b (c ∷ cs) t =
      InTime-weaken b (suc c.time) (drop n cs) (omega (arith, t.0))
        (InTime-drop n (suc c.time) cs t.1)

  last-snoc : (cs : List (Candle F)) (c : Candle F) → get_last? (cs ++ (c ∷ [])) ≡ some c
  last-snoc [] c = refl
  last-snoc (d ∷ []) c = refl
  last-snoc (d ∷ e ∷ cs) c = last-snoc (e ∷ cs) c

  last-drop : (n : ℕ) (cs : List (Candle F)) → n < length cs → get_last? (drop n cs) ≡ get_last? cs
  last-drop zero cs h = refl
  last-drop (suc n) [] h = refl
  last-drop (suc n) (c ∷ []) h = absurd (omega arith)
  last-drop (suc n) (c ∷ d ∷ cs) h = last-drop n (d ∷ cs) (omega arith)

  after-last :
      (b : ℕ) (cs : List (Candle F)) (c : Candle F)
      → get_last? cs ≡ some c
      → after b cs ≡ suc c.time
  after-last b [] c e = cc
  after-last b (d ∷ []) c e = cc
  after-last b (d ∷ d' ∷ cs) c e = after-last (suc d.time) (d' ∷ cs) c e

  last-some : (d : Candle F) (cs : List (Candle F)) → (c : Candle F) × (get_last? (d ∷ cs) ≡ some c)
  last-some d [] = (d, refl)
  last-some d (e ∷ cs) = last-some e cs

  -- A candle is stale where it is before the time after the last one.
  is_stale-after :
      (cs : List (Candle F)) (c : Candle F)
      → is_stale c (get_last? cs) ≡ not (leb (after 0 cs) c.time)
  is_stale-after [] c = ground arith
  is_stale-after (d ∷ cs) c =
      let (last, e) = last-some d cs in rw (e, after-last 0 (d ∷ cs) last e) (ground arith)

  -- A history with a new candle after it.
  last_rows-snoc :
      (n : ℕ) (cs : List (Candle F)) (c : Candle F)
      → 0 < n
      → InTime 0 cs
      → after 0 cs ≤ c.time
      → IsSound n (last_rows n (cs ++ (c ∷ [])))
        × (get_last? (last_rows n (cs ++ (c ∷ []))) ≡ some c)
  last_rows-snoc zero cs c pos t h = absurd (omega arith)
  last_rows-snoc (suc n) cs c pos t h =
      let all = cs ++ (c ∷ []) in
      let count = length-append cs (c ∷ []) in
      (
        (
          InTime-drop (length all - suc n) 0 all (InTime-snoc 0 cs c t h),
          omega (arith, length-drop (length all - suc n) all),
        ),
        last-drop (length all - suc n) all (omega (arith, count)) ∙ last-snoc cs c,
      )

  -- What a feed keeps: its history is in order, and there is room for one candle.
  abbrev pub IsReady : Feed F → Type 0
  IsReady feed = (0 < feed.max_history) × InTime 0 feed.history

  abbrev Delivered : ℕ → List (Candle F) → List (List (Candle F)) × Feed F → Type 0
  Delivered max_history expected result =
      (map get_last? result.0 ≡ map some expected)
      × All (IsSound max_history) result.0
      × IsReady result.1
      × (result.1.max_history ≡ max_history)

  append_candle-stale :
      (c : Candle F) (feed : Feed F)
      → leb (after 0 feed.history) c.time ≡ false
      → append_candle c feed ≡ (none, feed)
  unfolding append_candle
  append_candle-stale c feed e = rw (is_stale-after feed.history c, e) refl

  append_candle-new :
      (c : Candle F) (feed : Feed F)
      → leb (after 0 feed.history) c.time ≡ true
      → let history = last_rows feed.max_history (feed.history ++ (c ∷ [])) in
        append_candle c feed ≡ (some history, record feed { history = history })
  unfolding append_candle
  append_candle-new c feed e = rw (is_stale-after feed.history c, e) refl

  deliver-Delivered :
      (step : ℕ) (clock : Candle F → ℕ) (cs : List (Candle F)) (feed : Feed F)
      → IsReady feed
      → Delivered feed.max_history
          (fresh step clock (after 0 feed.history) cs)
          (deliver step (map (λ c. (c, clock c)) cs) feed)
  unfolding deliver fresh
  deliver-Delivered step clock [] feed ready = (refl, tt, ready, refl)
  deliver-Delivered step clock (c ∷ cs) feed ready =
      elim (Bool-cases (is_closed_candle c step (clock c))) [
        | inl closed ↦ elim (Bool-cases (leb (after 0 feed.history) c.time)) [
          | inl new ↦
              let history = last_rows feed.max_history (feed.history ++ (c ∷ [])) in
              let (sound, last) =
                last_rows-snoc feed.max_history feed.history c ready.0 ready.1 (leb→le _ _ new) in
              let (lasts, sounds, later, same) =
                deliver-Delivered step clock cs (record feed { history = history })
                  (ready.0, sound.0) in
              let lasts' = rw (after-last 0 history c last) at lasts in
              rw (closed, new, append_candle-new c feed new)
                (ap₂ ◌∷◌ last lasts', (sound, sounds), later, same)
          | inr old ↦
              rw (closed, old, append_candle-stale c feed old)
                (deliver-Delivered step clock cs feed ready)
        ]
        | inr open_yet ↦ rw open_yet (deliver-Delivered step clock cs feed ready)
      ]

  -- The callback gets a history for every candle of a batch that has closed and is later than all
  -- before it, in their order, and for no other: the candle is the last of its history. Each of
  -- the histories is in the order of time and within `max_history`, and the feed stays ready.
  pub deliver-fresh :
      (step : ℕ) (clock : Candle F → ℕ) (cs : List (Candle F)) (feed : Feed F)
      → IsReady feed
      → let (histories, feed') = deliver step (map (λ c. (c, clock c)) cs) feed in
        (map get_last? histories ≡ map some (fresh step clock (after 0 feed.history) cs))
        × All (IsSound feed.max_history) histories
        × IsReady feed'
  deliver-fresh step clock cs feed ready =
      let (lasts, sounds, later, same) = deliver-Delivered step clock cs feed ready in
      (lasts, sounds, later)
