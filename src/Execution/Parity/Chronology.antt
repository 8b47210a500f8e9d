-- ===== src/Execution/Parity/Chronology.antt =====
-- The trades of a run do not overlap, and come in the order of time.
pub mod Candles
use mathlib.Core.List.{append_assoc, append-nil}
use freqpanda.Prelude.{
  ◌⊎◌, ℕ, suc, ◌≤◌, ◌<◌, ◌≡◌, refl, sym, ◌∙◌, Bool, true, false, Option, none, some, List, [], ◌∷◌,
  ◌++◌, map, IsRising, arith, if◌then◌else◌, Bool-cases, inl, inr,
}
use freqpanda.Prelude.Float.{Float, max}
use freqpanda.Strategy.Schema.{RiskManagement}
use freqpanda.Strategy.Interpreter.{
  Trade, ExitReason, exit_signal, stop_loss, take_profit, stopped_at, taken_at,
}
use freqpanda.Execution.LiveInterpreter.{
  OpenPosition, SignalSnapshot, TradeAction, enter, exit, process, on_trail,
}
use freqpanda.Execution.Parity.{Live, live_step, live_run, trade_of, no_trades}

-- Each trade exits after it enters, and the next one enters after that exit.
abbrev pub IsChronological : {F : Type 0} → ℕ → List (Trade F) → Type 0
IsChronological b [] = Unit
IsChronological b (t ∷ ts) =
    (b ≤ t.entry_time) × (t.entry_time < t.exit_time) × IsChronological (suc t.exit_time) ts

module _ {F : Type 0} ⦃fl : Float F⦄ (risk : RiskManagement F) where
  -- The trades that a position and the candles after it give.
  trades_from : Option (OpenPosition F) → List (SignalSnapshot F) → List (Trade F)
  trades_from p [] = []
  trades_from p (s ∷ rest) =
      let after = process risk p s in trade_of s p after.1 ++ trades_from after.0 rest

  trades-live_run :
      (l : Live F) (ss : List (SignalSnapshot F))
      → (live_run risk l ss).trades ≡ l.trades ++ trades_from l.position ss
  unfolding live_run live_step trades_from
  trades-live_run l [] = sym (append-nil l.trades)
  trades-live_run l (s ∷ rest) =
      trades-live_run (live_step risk l s) rest
      ∙ append_assoc l.trades (trade_of s l.position (process risk l.position s).1) _

  -- An open position stands between the bound and the candles to come.
  abbrev Fits : ℕ → ℕ → Option (OpenPosition F) → Type 0
  Fits b next none = b ≤ next
  Fits b next (some p) = (b ≤ p.entry_time) × (p.entry_time < next)

  -- All that a candle can do while flat, and while a position is open.
  abbrev FlatMove : SignalSnapshot F → Option (OpenPosition F) × Option (TradeAction F) → Type 0
  FlatMove s after =
      (after ≡ (none, none))
      ⊎ ((p : OpenPosition F) × (price : F) × (after ≡ (some p, some (enter price)))
          × (p.entry_time ≡ s.timestamp))

  abbrev HeldMove : OpenPosition F → Option (OpenPosition F) × Option (TradeAction F) → Type 0
  HeldMove held after =
      ((p : OpenPosition F) × (after ≡ (some p, none)) × (p.entry_time ≡ held.entry_time))
      ⊎ ((price : F) × (reason : ExitReason) × (after ≡ (none, some (exit price reason))))

  process-FlatMove : (s : SignalSnapshot F) → FlatMove s (process risk none s)
  unfolding process
  process-FlatMove s = elim (Bool-cases s.entry_signal) [
    | inl e ↦ rw e (inr (_, s.close, refl, refl))
    | inr e ↦ rw e (inl refl)
  ]

  if-HeldMove :
      (held : OpenPosition F) (b : Bool) (price : F) (reason : ExitReason)
      (rest : Option (OpenPosition F) × Option (TradeAction F))
      → HeldMove held rest
      → HeldMove held (if b then (none, some (exit price reason)) else rest)
  if-HeldMove held true price reason rest h = inr (price, reason, refl)
  if-HeldMove held false price reason rest h = h

  on_trail-HeldMove :
      (held p : OpenPosition F) (pct : Option F) (s : SignalSnapshot F)
      → p.entry_time ≡ held.entry_time
      → HeldMove held (on_trail pct p s)
  on_trail-HeldMove held p none s e =
      if-HeldMove held s.exit_signal s.close exit_signal (some p, none) (inl (p, refl, e))
  on_trail-HeldMove held p (some pct) s e =
      if-HeldMove held _ _ _ _
        (if-HeldMove held s.exit_signal s.close exit_signal (some p, none) (inl (p, refl, e)))

  process-HeldMove :
      (held : OpenPosition F) (s : SignalSnapshot F) → HeldMove held (process risk (some held) s)
  unfolding process
  process-HeldMove held s =
      let p = record held { highest_since_entry = max held.highest_since_entry s.high } in
      let stop = stopped_at risk held.entry_price in
      let take = taken_at risk held.entry_price in
      if-HeldMove held (fl.le s.low stop) stop stop_loss _ (
        if-HeldMove held (fl.le take s.high) take take_profit _
          (on_trail-HeldMove held p risk.trailing_stop_pct s refl))

  trades_from-IsChronological :
      (b next : ℕ) (p : Option (OpenPosition F)) (ss : List (SignalSnapshot F))
      → Fits b next p
      → IsRising next (map (λ s. s.timestamp) ss)
      → IsChronological b (trades_from p ss)
  unfolding trades_from
  trades_from-IsChronological b next p [] fits rising = tt
  trades_from-IsChronological b next none (s ∷ rest) fits rising = elim (process-FlatMove s) [
    | inl e ↦
        rw e (trades_from-IsChronological b (suc s.timestamp) none rest (omega arith) rising.1)
    | inr (p, price, e, entered) ↦
        rw e (trades_from-IsChronological b (suc s.timestamp) (some p) rest (omega arith) rising.1)
  ]
  trades_from-IsChronological b next (some held) (s ∷ rest) fits rising =
      elim (process-HeldMove held s) [
        | inl (p, e, kept) ↦
            rw e
              (trades_from-IsChronological b (suc s.timestamp) (some p) rest (omega arith) rising.1)
        | inr (price, reason, e) ↦ rw e (
          fits.0,
          omega arith,
          trades_from-IsChronological (suc s.timestamp) (suc s.timestamp) none rest (omega arith)
              rising.1,
        )
      ]

  -- From no position, candles in the order of time give trades in the order of time.
  pub live_run-IsChronological :
      (ss : List (SignalSnapshot F))
      → IsRising 0 (map (λ s. s.timestamp) ss)
      → IsChronological 0 (live_run risk no_trades ss).trades
  live_run-IsChronological ss rising =
      rw trades-live_run (trades_from-IsChronological 0 0 none ss (omega arith) rising)
