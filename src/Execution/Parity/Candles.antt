-- ===== src/Execution/Parity/Candles.antt =====
-- `run_strategy` over all candles against `latest_signal` after each of them.
use freqpanda.Prelude.{
  ℕ, zero, suc, ◌+◌, ◌≡◌, refl, ◌∙◌, ap, Option, none, some, List, map, take, drop, length,
  get_last?, split_at, if◌then◌else◌, sym, drop_all, arith,
}
use freqpanda.Prelude.Result.{Result, ok, err, ◌>>=◌, >>=-eq-ok}
use freqpanda.Prelude.Float.{Float}
use freqpanda.Strategy.Schema.{StrategyDefinition, is_empty}
use freqpanda.Strategy.Validation.{validate_definition}
use freqpanda.Strategy.Shape.{IsAligned}
use freqpanda.Strategy.Shape.Computed.{KeepsLength, compute_indicators-Extends, signals_of-IfOk}
use freqpanda.Strategy.Indicators.{Ta, Frame, StrategyError, missing_columns}
use freqpanda.Strategy.Interpreter.{
  Signals, Trade, Loop, compute_indicators, signals_of, run_loop, start, run_strategy, missing,
}
use freqpanda.Strategy.Causality.{cut}
use freqpanda.Strategy.Causality.Signals.{IsCausal, compute_indicators-cut, signals_of-cut}
use freqpanda.Execution.LiveInterpreter.{OpenPosition, latest_signal, snapshot_of}
use freqpanda.Execution.Parity.{Live, live_step, live_run, loop_of, run_loop-loop_of, no_trades}

module _ {F : Type 0} ⦃fl : Float F⦄ (ta : Ta F) (d : StrategyDefinition F) where
  -- The candles close one after the other: after each, the tracker gets the snapshot of the last row.
  pub live_feed : Frame F → ℕ → ℕ → Live F → Result StrategyError (Live F)
  live_feed df i zero l = ok l
  live_feed df i (suc m) l = latest_signal ta d (cut (suc i) df) >>= λ s.
      live_feed df (suc i) m (live_step d.risk_management l s)

  abbrev pub check_missing : Frame F → Result StrategyError (Unit {0})
  check_missing df = if is_empty (missing df) then ok tt else err (missing_columns (missing df))

  module _ (causal : IsCausal ta) (df frame : Frame F) (signals : List (Signals F))
      (computed : compute_indicators ta df d.indicators ≡ ok frame)
      (evaluated : signals_of d frame ≡ ok signals) where
    latest_signal-cut :
        (i : ℕ) (s : Signals F)
        → get_last? (take (suc i) signals) ≡ some s
        → latest_signal ta d (cut (suc i) df) ≡ ok (snapshot_of s)
    unfolding latest_signal
    latest_signal-cut i s e =
        rw (compute_indicators-cut ta causal d.indicators (suc i) df, computed)
          (rw (signals_of-cut d (suc i) frame, evaluated) (rw e))

    live_feed-drop :
        (i m : ℕ) (l : Live F)
        → i + m ≡ length signals
        → live_feed df i m l ≡ ok (live_run d.risk_management l (map snapshot_of (drop i signals)))
    unfolding live_feed live_run
    live_feed-drop i zero l h = rw (drop_all i signals (omega arith))
    live_feed-drop i (suc m) l h =
        let (s, split, last) = split_at signals i (omega arith) in
        rw (latest_signal-cut i s last, split)
          (live_feed-drop (suc i) m (live_step d.risk_management l (snapshot_of s)) (omega arith))

  trades-loop_of :
      (p : Option (OpenPosition F)) (t : List (Trade F))
      → (loop_of (record { position = p; trades = t })).trades ≡ t
  trades-loop_of none t = refl
  trades-loop_of (some p) t = refl

  pub trades-run :
      (l : Live F) (loop : Loop F) (trades : List (Trade F))
      → ◌≡◌ {A = Result StrategyError (Loop F)} (ok loop) (ok (loop_of l))
      → ◌≡◌ {A = Result StrategyError (List (Trade F))} (ok loop.trades) (ok trades)
      → l.trades ≡ trades
  trades-run l loop trades h k = cc (trades-loop_of l.position l.trades)

  -- Where `run_strategy` returns, feeding the candles to `latest_signal` and to the position tracker
  -- one after the other returns too, with the same trades in the same order. The indicator library
  -- is to look only backwards and to keep the length of a series, and the columns are to be aligned.
  pub live_feed-run_strategy :
      (df : Frame F) (trades : List (Trade F))
      → IsCausal ta
      → KeepsLength ta
      → IsAligned df
      → run_strategy ta d df ≡ ok trades
      → (l : Live F) × (live_feed df 0 (length df.index) no_trades ≡ ok l) × (l.trades ≡ trades)
  unfolding run_strategy
  live_feed-run_strategy df trades causal keeps aligned e =
      let (u, valid, e₁) = >>=-eq-ok (validate_definition ta d) _ e in
      let (v, complete, e₂) = >>=-eq-ok (check_missing df) _ e₁ in
      let (frame, computed, e₃) = >>=-eq-ok (compute_indicators ta df d.indicators) _ e₂ in
      let (signals, evaluated, e₄) = >>=-eq-ok (signals_of d frame) _ e₃ in
      let (loop, ran, e₅) = >>=-eq-ok (run_loop d.risk_management start signals) _ e₄ in
      let run = live_run d.risk_management no_trades (map snapshot_of signals) in
      let (rows, even) =
        rw computed at (compute_indicators-Extends ta keeps d.indicators df aligned) in
      let count : length signals ≡ length frame.index =
        rw evaluated at (signals_of-IfOk d frame even) in
      let same : ◌≡◌ {A = Result StrategyError (Loop F)} (ok loop) (ok (loop_of run)) =
        sym ran ∙ run_loop-loop_of d.risk_management no_trades signals in
      (
        run,
        live_feed-drop causal df frame signals computed evaluated 0 (length df.index) no_trades
            (omega (arith, count, ap length rows)),
        trades-run run loop trades same e₅,
      )
