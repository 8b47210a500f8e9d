-- ===== src/Examples/Api.antt =====
-- Requests of two callers.
use freqpanda.Prelude.{◌≡◌, none, some, [], ◌∷◌}
use freqpanda.Prelude.Fixed.{Fixed, fixed_float, bp}
use freqpanda.Execution.Repository.{
  BotFields, BotRecord, Database, Credential, paper_mode, live_mode, new_row,
}
use freqpanda.Api.Bots.{stop, serve}
use freqpanda.Api.Bots.Tenants.{others, serve-others}
use freqpanda.Examples.Sample.{whole}

abbrev paper_fields : BotFields Fixed
paper_fields = record {
  name = "dip bot";
  strategy_id = "s1";
  exchange_id = "binance";
  symbol = "BTC/USDT";
  timeframe = "1h";
  mode = paper_mode;
  credential_id = none;
  initial_capital = whole 1000;
  fee_pct = bp 10;
  slippage_pct = bp 5;
  max_drawdown_pct = bp 2000;
  max_position_notional_pct = whole 1;
  max_price_deviation_pct = bp 1000;
}

abbrev live_fields : BotFields Fixed
live_fields = record paper_fields { mode = live_mode; credential_id = some "c1" }

abbrev credential : Credential
credential = record {
  id = "c1";
  created_by = "ann";
  exchange_id = "binance";
  label = "main";
  created_at = 1;
}

-- The strategy is bob's, and the bot and the credential are ann's.
abbrev live_row : BotRecord Fixed
live_row = new_row "b1" "ann" 5 live_fields

abbrev pub db : Database Fixed
db = record { bots = live_row ∷ []; credentials = credential ∷ []; strategies = ("s1", "bob") ∷ [] }

serve-others_example : others "bob" (serve "bob" (stop "b1" 9) db).bots ≡ others "bob" db.bots
serve-others_example = serve-others "bob" (stop "b1" 9) db
