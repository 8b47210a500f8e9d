-- ===== src/Execution/Runtime/Replay.antt =====
-- What the calls of a bot leave in the tables, read by its owner.
use mathlib.Core.List.{append-nil, append_assoc}
use freqpanda.Prelude.{
  ◌⊎◌, Any, true, false, ℕ, String, ◌≡◌, refl, sym, ◌∙◌, ap, Bool-cases, inl, inr, not, Option,
  none, some, List, [], ◌∷◌, ◌++◌, map, take, str_eq, eq_iff, arith,
}
use freqpanda.Strategy.Interpreter.{or_else}
use freqpanda.Execution.Bot.State.{
  SavedState, TradeRow, Write, status, event, trade_row, state_saved, heartbeat,
}
use freqpanda.Execution.Bot.Persistence.{last_saved}
use freqpanda.Execution.Repository.{
  Database, BotRecord, select, first, is_none_of, update, is_own, has_id, update_status,
}
use freqpanda.Api.Rows.{newest_first}
use freqpanda.Execution.Runtime.{
  StateRow, Runtime, is_state_of, upsert_into, upsert_state, beat, record_trade, record_event,
  joins, get_state, list_trades, replay,
}

module _ {F : Type 0} where
  abbrev pub saved_of : Option (StateRow F) → Option (SavedState F)
  saved_of none = none
  saved_of (some row) = some row.saved

  -- The trades among some writes.
  abbrev pub trades_of : List (Write F) → List (TradeRow F)
  trades_of [] = []
  trades_of (trade_row t ∷ ws) = t ∷ trades_of ws
  trades_of (status s ∷ ws) = trades_of ws
  trades_of (event k ∷ ws) = trades_of ws
  trades_of (state_saved s ∷ ws) = trades_of ws
  trades_of (heartbeat ∷ ws) = trades_of ws

  abbrev pub writes_of : List ((ℕ × Option String) × Write F) → List (Write F)
  writes_of = map (λ e. e.1)

  module _ (bot_id : String) where
    abbrev pub saved_in : Runtime F → Option (SavedState F)
    saved_in rt = saved_of (first (select (is_state_of bot_id) rt.states))

    abbrev pub trades_in : Runtime F → List (TradeRow F)
    trades_in rt = map (λ row. row.1) (select (λ row. str_eq row.0 bot_id) rt.trades)

    upserted :
        (now : ℕ) (s : SavedState F) (rows : List (StateRow F))
        → saved_of (first (select (is_state_of bot_id) (upsert_into bot_id now s rows))) ≡ some s
    unfolding upsert_into
    upserted now s [] = ground (arith, eq_iff bot_id bot_id)
    upserted now s (row ∷ rows) = ground (arith, eq_iff bot_id bot_id, upserted now s rows)

    beaten :
        (now : ℕ) (rows : List (StateRow F))
        → saved_of (
            first (
              select
                (is_state_of bot_id)
                (update (is_state_of bot_id) (λ row. record row { last_heartbeat_at = now }) rows)))
          ≡ saved_of (first (select (is_state_of bot_id) rows))
    beaten now [] = refl
    beaten now (row ∷ rows) = ground (arith, beaten now rows)

    traded :
        (t : TradeRow F) (rows : List (String × TradeRow F))
        → map (λ row. row.1) (select (λ row. str_eq row.0 bot_id) (rows ++ ((bot_id, t) ∷ [])))
          ≡ map (λ row. row.1) (select (λ row. str_eq row.0 bot_id) rows) ++ (t ∷ [])
    traded t [] = ground (arith, eq_iff bot_id bot_id)
    traded t (row ∷ rows) = ground (arith, traded t rows)

    joined :
        (created_by : String) (f : BotRecord F → BotRecord F) (rows : List (BotRecord F))
        → ((r : BotRecord F) → (f r).id ≡ r.id)
        → ((r : BotRecord F) → (f r).created_by ≡ r.created_by)
        → is_none_of (select (is_own bot_id created_by) (update (has_id bot_id) f rows))
          ≡ is_none_of (select (is_own bot_id created_by) rows)
    joined created_by f [] ids owners = refl
    joined created_by f (r ∷ rows) ids owners =
        ground (arith, joined created_by f rows ids owners, ids r, owners r)

    replay-joins :
        (ws : List ((ℕ × Option String) × Write F)) (db : Database F) (rt : Runtime F)
        (created_by : String)
        → joins (replay bot_id ws (db, rt)).0 bot_id created_by ≡ joins db bot_id created_by
    unfolding replay update_status
    replay-joins [] db rt c = refl
    replay-joins (((now, message), status s) ∷ ws) db rt c =
        replay-joins ws (update_status db bot_id now s message) rt c
        ∙ ap not (joined c _ db.bots (λ r. refl) (λ r. refl))
    replay-joins (((now, message), event k) ∷ ws) db rt c = replay-joins ws db _ c
    replay-joins (((now, message), trade_row t) ∷ ws) db rt c = replay-joins ws db _ c
    replay-joins (((now, message), state_saved s) ∷ ws) db rt c = replay-joins ws db _ c
    replay-joins (((now, message), heartbeat) ∷ ws) db rt c = replay-joins ws db _ c

    replay-saved :
        (ws : List ((ℕ × Option String) × Write F)) (db : Database F) (rt : Runtime F)
        → saved_in (replay bot_id ws (db, rt)).1 ≡ or_else (last_saved (writes_of ws)) (saved_in rt)
    unfolding replay last_saved upsert_state beat record_event record_trade
    replay-saved [] db rt = refl
    replay-saved (((now, message), status s) ∷ ws) db rt =
        ground (arith, replay-saved ws (update_status db bot_id now s message) rt)
    replay-saved (((now, message), event k) ∷ ws) db rt =
        ground (arith, replay-saved ws db (record_event bot_id now k rt))
    replay-saved (((now, message), trade_row t) ∷ ws) db rt =
        ground (arith, replay-saved ws db (record_trade bot_id t rt))
    replay-saved (((now, message), state_saved s) ∷ ws) db rt =
        ground (arith, replay-saved ws db (upsert_state bot_id now s rt), upserted now s rt.states)
    replay-saved (((now, message), heartbeat) ∷ ws) db rt =
        ground (arith, replay-saved ws db (beat bot_id now rt), beaten now rt.states)

    replay-trades :
        (ws : List ((ℕ × Option String) × Write F)) (db : Database F) (rt : Runtime F)
        → trades_in (replay bot_id ws (db, rt)).1 ≡ trades_in rt ++ trades_of (writes_of ws)
    unfolding replay record_trade
    replay-trades [] db rt = sym (append-nil (trades_in rt))
    replay-trades (((now, message), status s) ∷ ws) db rt = replay-trades ws _ rt
    replay-trades (((now, message), event k) ∷ ws) db rt = replay-trades ws db _
    replay-trades (((now, message), trade_row t) ∷ ws) db rt =
        replay-trades ws db (record_trade bot_id t rt)
        ∙ ap (λ xs. xs ++ trades_of (writes_of ws)) (traded t rt.trades)
        ∙ append_assoc (trades_in rt) (t ∷ []) (trades_of (writes_of ws))
    replay-trades (((now, message), state_saved s) ∷ ws) db rt = replay-trades ws db _
    replay-trades (((now, message), heartbeat) ∷ ws) db rt = replay-trades ws db _

    -- A bot of the id is the caller's.
    abbrev pub Owns : Database F → String → Type 0
    Owns db created_by =
        Any (λ (row : BotRecord F). (row.id ≡ bot_id) × (row.created_by ≡ created_by)) db.bots

    owns-cases :
        (created_by : String) (rows : List (BotRecord F))
        → let own : BotRecord F → Type 0 =
            λ row. (row.id ≡ bot_id) × (row.created_by ≡ created_by) in
          ((is_none_of (select (is_own bot_id created_by) rows) ≡ false) × Any own rows)
          ⊎ ((is_none_of (select (is_own bot_id created_by) rows) ≡ true) × (Any own rows → ⊥))
    owns-cases created_by [] = inr (refl, λ h. h)
    owns-cases created_by (row ∷ rows) = elim (Bool-cases (is_own bot_id created_by row)) [
      | inl e ↦
          let same = (eq_iff row.id bot_id).0 (ground (arith, e)) in
          let mine = (eq_iff row.created_by created_by).0 (ground (arith, e)) in
          inl (rw e refl, inl (same, mine))
      | inr e ↦ elim (owns-cases created_by rows) [
        | inl (some_row, there) ↦ inl (rw e some_row, inr there)
        | inr (no_row, nowhere) ↦
            let other : (row.id ≡ bot_id) × (row.created_by ≡ created_by) → ⊥ = λ (same, mine).
              absurd (
                ground (
                  arith,
                  e,
                  (eq_iff row.id bot_id).1 same,
                  (eq_iff row.created_by created_by).1 mine,
                )) in
            inr (rw e no_row, λ h. elim h [ inl own ↦ other own | inr later ↦ nowhere later ])
      ]
    ]

    -- After the writes of a bot, at whatever times: a caller who owns it reads the state that the last
    -- of them saved, or the one from before if none saved any, and the newest of all its trades, those
    -- that the writes record after those from before. A caller who does not reads no state and no
    -- trades.
    pub replay_lem :
        (ws : List ((ℕ × Option String) × Write F)) (db : Database F) (rt : Runtime F)
        (created_by : String) (limit : ℕ)
        → let after = replay bot_id ws (db, rt) in
          let state = saved_of (get_state after.0 after.1 bot_id created_by) in
          let trades = list_trades after.0 after.1 bot_id created_by limit in
          (Owns db created_by
            × (state ≡ or_else (last_saved (writes_of ws)) (saved_in rt))
            × (trades
                ≡ take limit
                    (newest_first (λ t. t.exit_time) (trades_in rt ++ trades_of (writes_of ws)))))
          ⊎ ((Owns db created_by → ⊥) × (state ≡ none) × (trades ≡ []))
    unfolding get_state list_trades
    replay_lem ws db rt created_by limit = elim (owns-cases created_by db.bots) [
      | inl (some_row, own) ↦
          let joined : joins (replay bot_id ws (db, rt)).0 bot_id created_by ≡ true =
            replay-joins ws db rt created_by ∙ ap not some_row in
          inl (
            own,
            rw joined (replay-saved ws db rt),
            rw joined (
                ap (λ xs. take limit (newest_first (λ t. t.exit_time) xs))
                  (replay-trades ws db rt)),
          )
      | inr (no_row, other) ↦
          let apart : joins (replay bot_id ws (db, rt)).0 bot_id created_by ≡ false =
            replay-joins ws db rt created_by ∙ ap not no_row in
          inr (other, rw apart refl, rw apart refl)
    ]
