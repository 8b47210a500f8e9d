-- ===== src/Execution/Parity/Chronology/Candles.antt =====
-- The trades of a run enter and exit at times of its candles.
use freqpanda.Prelude.{ℕ, Option, none, some, List, [], ◌∷◌, map, All, inl, inr}
use freqpanda.Prelude.Float.{Float}
use freqpanda.Strategy.Schema.{RiskManagement}
use freqpanda.Strategy.Interpreter.{Trade}
use freqpanda.Execution.LiveInterpreter.{OpenPosition, SignalSnapshot}
use freqpanda.Execution.Parity.{live_run, no_trades}
use freqpanda.Execution.Parity.Chronology.{
  trades_from, trades-live_run, process-FlatMove, process-HeldMove,
}

-- Both times of a trade have a property.
abbrev pub BothTimes : {F : Type 0} → (ℕ → Type 0) → Trade F → Type 0
BothTimes P t = P t.entry_time × P t.exit_time

module _ {F : Type 0} ⦃fl : Float F⦄ (risk : RiskManagement F) (P : ℕ → Type 0) where
  abbrev EnteredAt : Option (OpenPosition F) → Type 0
  EnteredAt none = Unit
  EnteredAt (some p) = P p.entry_time

  trades_from-BothTimes :
      (p : Option (OpenPosition F)) (ss : List (SignalSnapshot F))
      → EnteredAt p
      → All P (map (λ s. s.timestamp) ss)
      → All (BothTimes P) (trades_from risk p ss)
  unfolding trades_from
  trades_from-BothTimes p [] entered all = tt
  trades_from-BothTimes none (s ∷ rest) entered all = elim (process-FlatMove risk s) [
    | inl e ↦ rw e (trades_from-BothTimes none rest tt all.1)
    | inr (p, price, e, at_s) ↦ rw e (trades_from-BothTimes (some p) rest (rw at_s all.0) all.1)
  ]
  trades_from-BothTimes (some held) (s ∷ rest) entered all = elim (process-HeldMove risk held s) [
    | inl (p, e, kept) ↦ rw e (trades_from-BothTimes (some p) rest (rw kept entered) all.1)
    | inr (price, reason, e) ↦ rw e ((entered, all.0), trades_from-BothTimes none rest tt all.1)
  ]

  -- What holds of the times of all candles holds of the times of all trades.
  pub live_run-BothTimes :
      (ss : List (SignalSnapshot F))
      → All P (map (λ s. s.timestamp) ss)
      → All (BothTimes P) (live_run risk no_trades ss).trades
  live_run-BothTimes ss all = rw trades-live_run (trades_from-BothTimes none ss tt all)
