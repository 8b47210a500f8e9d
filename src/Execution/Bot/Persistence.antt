-- ===== src/Execution/Bot/Persistence.antt =====
-- What a bot that is restarted finds in bot_state.
use freqpanda.Prelude.{
  ◌≡◌, refl, ◌⊎◌, inl, inr, Bool, true, false, Option, none, some, List, [], ◌∷◌, ◌++◌, arith,
  if◌then◌else◌,
}
use freqpanda.Prelude.Result.{Result, ok, err}
use freqpanda.Prelude.Float.{Float, nought}
use freqpanda.Strategy.Interpreter.{hard_stop_loss, or_else}
use freqpanda.Execution.LiveInterpreter.{
  SignalSnapshot, OpenPosition, TradeAction, enter, exit, process,
}
use freqpanda.Execution.Risk.{BotError, circuit_breaker_tripped}
use freqpanda.Execution.Broker.{Broker, Fill, close_long}
use freqpanda.Execution.Bot.State.{
  Bot, Config, SavedState, Write, event, state_saved, heartbeat, hard_stop, state_of, continue,
}
use freqpanda.Execution.Bot.{
  execute_entry, close_position, on_snapshot, act, hard_stop_exit, save_state, hard_stopped,
}

-- The row of bot_state that a write leaves, if it writes one.
abbrev pub saved_by : {F : Type 0} → Write F → Option (SavedState F)
saved_by (state_saved s) = some s
saved_by w = none

-- The row of bot_state after the writes.
unfoldable pub last_saved : {F : Type 0} → List (Write F) → Option (SavedState F)
last_saved [] = none
last_saved (w ∷ ws) = or_else (last_saved ws) (saved_by w)

last_saved-snoc :
    {F : Type 0} (ws : List (Write F)) (w : Write F)
    → last_saved (ws ++ (w ∷ [])) ≡ or_else (saved_by w) (last_saved ws)
unfolding last_saved
last_saved-snoc [] w = ground arith
last_saved-snoc (v ∷ ws) w = ground (arith, last_saved-snoc ws w)

module _ {F : Type 0} ⦃fl : Float F⦄ (config : Config F) where
  -- An order to sell the quantity was filled, and none of it is left on the books.
  abbrev pub IsSold : F → Bot F → Type 0
  IsSold quantity b =
      (b.current_quantity ≡ nought)
      × (price : F) × (fill : Fill F) × (close_long config.broker config.symbol quantity price
          ≡ ok fill)

  abbrev Forgets : Bot F → Result BotError (Unit {0}) × Bot F → Type 0
  Forgets b after =
      after.0 ≡ err circuit_breaker_tripped
      → (last_saved after.1.log ≡ last_saved b.log) × IsSold b.current_quantity after.1

  -- The row is the bot's state, or nothing but a heartbeat was written and no money has moved.
  abbrev Saves : Option F → Bot F → Result BotError (Unit {0}) × Bot F → Type 0
  Saves last_price b after =
      after.0 ≡ ok tt
      → (last_saved after.1.log ≡ some (state_of after.1 last_price))
        ⊎ ((last_saved after.1.log ≡ last_saved b.log)
            × (after.1.equity ≡ b.equity)
            × (after.1.current_quantity ≡ b.current_quantity)
            × (after.1.equity_at_entry ≡ b.equity_at_entry)
            × (after.1.risk ≡ b.risk))

  save_state-Saves :
      (last_price : Option F) (b c : Bot F) → Saves last_price b (save_state last_price c)
  unfolding save_state
  save_state-Saves last_price b c e =
      inl (last_saved-snoc c.log (state_saved (state_of c last_price)))

  then-Saves :
      (last_price : Option F) (b : Bot F) (m : Result BotError (Unit {0}) × Bot F)
      → Saves last_price b (continue m.0 (λ u. save_state last_price) m.1)
  then-Saves last_price b (ok u, c) = save_state-Saves last_price b c
  then-Saves last_price b (err x, c) = λ e. cc

  act-Saves :
      (now : F) (s : SignalSnapshot F) (last_price : Option F) (before : Option (OpenPosition F))
      (action : Option (TradeAction F)) (b : Bot F)
      → Saves last_price b (act config now s last_price before action b)
  unfolding act
  act-Saves now s last_price before none b =
      λ e. inr (last_saved-snoc b.log heartbeat, refl, refl, refl, refl)
  act-Saves now s last_price before (some (enter price)) b =
      then-Saves last_price b (execute_entry config now s b)
  act-Saves now s last_price none (some (exit price reason)) b = λ e. cc
  act-Saves now s last_price (some p) (some (exit price reason)) b =
      then-Saves last_price b (close_position config p price reason s.timestamp b)

  hard_stop_exit-Saves :
      (s : SignalSnapshot F) (last_price : Option F) (before : Option (OpenPosition F)) (b : Bot F)
      → Saves last_price b (hard_stop_exit config s last_price before b)
  unfolding hard_stop_exit
  hard_stop_exit-Saves s last_price none b = λ e. cc
  hard_stop_exit-Saves s last_price (some p) b =
      let b' = record b { log = b.log ++ (event hard_stop ∷ []) } in
      sold-Saves (close_position config p s.close hard_stop_loss s.timestamp b')
    where
      sold-Saves :
          (m : Result BotError (Unit {0}) × Bot F)
          → Saves last_price b
              (continue m.0 (λ u c. save_state last_price (record c { position = none })) m.1)
      sold-Saves (ok u, c) = save_state-Saves last_price b (record c { position = none })
      sold-Saves (err x, c) = λ e. cc

  if-Saves :
      (last_price : Option F) (b : Bot F) (c : Bool) (x y : Result BotError (Unit {0}) × Bot F)
      → Saves last_price b x
      → Saves last_price b y
      → Saves last_price b (if c then x else y)
  if-Saves last_price b true x y hx hy = hx
  if-Saves last_price b false x y hx hy = hy

  -- After a candle that raises nothing, the row of bot_state is the state of the bot; or the row is
  -- the one from before, and equity, quantity, the equity at entry and the risk state are unchanged.
  pub on_snapshot-last_saved :
      (now : F) (s : SignalSnapshot F) (last_price : Option F) (b : Bot F)
      → (on_snapshot config now s last_price b).0 ≡ ok tt
      → let b' = (on_snapshot config now s last_price b).1 in
        (last_saved b'.log ≡ some (state_of b' last_price))
        ⊎ ((last_saved b'.log ≡ last_saved b.log)
            × (b'.equity ≡ b.equity)
            × (b'.current_quantity ≡ b.current_quantity)
            × (b'.equity_at_entry ≡ b.equity_at_entry)
            × (b'.risk ≡ b.risk))
  unfolding on_snapshot
  on_snapshot-last_saved now s last_price b =
      let (position, action) = process config.definition.risk_management b.position s in
      if-Saves last_price b (hard_stopped config b.position s) _ _
        (hard_stop_exit-Saves s last_price b.position b)
        (act-Saves now s last_price b.position action (record b { position = position }))
