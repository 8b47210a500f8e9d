-- ===== src/Lib.antt =====
-- The trading logic of freqpanda: strategies, their backtests, and the bots that trade them.
--
-- The program's parts. A pipeline (freqpanda_data) pages through the candles of an exchange and stores
-- them in a table. A strategy definition (freqpanda_strategy) is data: indicators, condition trees and
-- risk parameters. `run_strategy` interprets it over historical candles and gives trades. A backtest
-- (freqpanda_backtest) charges costs to those trades, builds an equity curve and measures it, over the
-- whole data or over the windows of a walk-forward split. An optimizer (freqpanda_optimize) searches
-- the parameters of a definition by such backtests, and ranks variants. A bot
-- (freqpanda_execution) gets each candle from a feed when it has closed, takes the signals of the last
-- one from the same interpreter, tracks a position, checks each order against risk limits, trades
-- through a paper or a live broker, and writes its trades and its state to a database. A supervisor
-- keeps one process for each bot that should run. A caller of the API (freqpanda_api) keeps strategies,
-- and creates, starts and stops bots by writing to the database. It also asks for backtests and
-- optimizations, as jobs that a worker takes from a queue.
--
-- Where each is modelled:
--   Data/Exchange          freqpanda_data/exchange.py
--   Data/Store             freqpanda_data/db.py
--   Data/Pipeline          freqpanda_data/pipeline.py
--   Strategy/Schema        freqpanda_strategy/schema.py
--   Strategy/Indicators    freqpanda_strategy/indicators.py
--   Strategy/Validation    freqpanda_strategy/validation.py
--   Strategy/Conditions    freqpanda_strategy/conditions.py
--   Strategy/Interpreter   freqpanda_strategy/interpreter.py
--   Backtest/Costs         freqpanda_backtest/costs.py
--   Backtest/Equity        freqpanda_backtest/equity.py
--   Backtest/Metrics       freqpanda_backtest/metrics.py
--   Backtest/Engine        freqpanda_backtest/backtest.py and result.py
--   Backtest/Batch         freqpanda_backtest/batch.py
--   Backtest/Walkforward   freqpanda_backtest/walkforward.py
--   Optimize/SearchSpace   freqpanda_optimize/search_space.py
--   Optimize/Scoring       freqpanda_optimize/scoring.py
--   Optimize/Evaluate      freqpanda_optimize/evaluate.py
--   Optimize/Study         freqpanda_optimize/optimize.py
--   Execution/LiveInterpreter  freqpanda_execution/live_interpreter.py
--   Execution/Risk         freqpanda_execution/risk.py
--   Execution/Broker       freqpanda_execution/broker.py
--   Execution/Feed         freqpanda_execution/feed.py
--   Execution/Bot          freqpanda_execution/bot.py, and the writes of repository.py
--   Execution/Repository   freqpanda_execution/repository.py, the statements on bots
--   Execution/Runtime      freqpanda_execution/repository.py, the state, trades and events of bots
--   Execution/Supervisor   freqpanda_execution/supervisor.py
--   Api/Bots               freqpanda_api/routers/bots.py and the bot checks of freqpanda_api/schemas.py
--   Api/Auth               freqpanda_api/auth.py
--   Api/Credentials        freqpanda_execution/repository.py and routers/bots.py, the credentials
--   Api/Rows               the tables of freqpanda_api/repositories
--   Api/Strategies         freqpanda_api/repositories/strategies.py and routers/strategies.py
--   Api/Jobs               freqpanda_api/repositories/jobs.py
--   Api/Results            freqpanda_api/repositories/results.py
--   Api/Tasks              freqpanda_api/jobs/tasks.py
--   Api/System             those routes and workers over one database, as interleaved steps
--   Api/Backtests          freqpanda_api/routers/backtests.py, optimizations.py and compare.py
-- The children of these modules, and Strategy/Causality, Strategy/Shape, Strategy/Rows, Strategy/Safety
-- and Execution/Parity, are about their proofs. Examples runs the code on concrete inputs. Definitions
-- keep the names of the source, with a leading `_` dropped.
--
-- How state and errors correspond. Python's floats are a type with the operations of Prelude/Float,
-- which every definition takes as an instance: nothing is assumed of arithmetic, and a theorem that
-- needs the order of floats says so. Prelude/Fixed is a concrete such type, for running the code. A
-- DataFrame is a list of timestamps and named columns (Strategy/Indicators), and a timestamp is its
-- milliseconds as a natural number. An exception is the `err` of a Result, with its message left out.
-- A method of the bot is an action on the record Bot that gives a result or an exception and the bot
-- after it; its writes to the database are the list `log` in the order they were made. A table is a
-- list of rows, and an SQL statement a function on it. The `ta` library, the exchange behind a live
-- broker and the exchange of market data are parameters (Ta, Exchange and Market), and so are what
-- numpy computes over a whole series (Numpy) and Optuna (Trial and Study); what a theorem needs of
-- them (that `ta` looks only backwards, keeps the length of a series and takes the parameters of a
-- definition, that an exchange serves a
-- series by `since` and `limit`, that a study finds the best of its trials) is a hypothesis. Clocks
-- and new ids are arguments, and so is the cipher of stored credentials.
--
-- A worker reads the database when its job starts and writes it when the work is done. What others have
-- done in between is a function on the database, an argument of the job. Api/System has the steps of
-- callers and workers one by one; it supposes that a new id is given once.
--
-- Loops are structural recursion over lists, but for two that run on fuel: the pages of an exchange,
-- where one unit for each candle and one more is enough, and the windows of a walk-forward split,
-- where two more than the last timestamp is enough. Theorems of both say so.
--
-- A call of `ta` may raise for the parameters of an indicator (Ta.accepts). A call of the operating
-- system or of a database returns: its exception is out of the model, but for the constraints of an
-- insert and an upsert, which are values. Indicator parameters are finite, division by zero is left out, and no two candles of a
-- DataFrame have one timestamp.
--
-- Not modelled: loading JSON files, environment variables, HTTP, the queue itself (RQ), the generator
-- of random variants, the summary table of an optimization, how a runner builds a bot from its row, the
-- web application and the scripts.
pub mod Prelude
pub mod Strategy
pub mod Backtest
pub mod Data
pub mod Execution
pub mod Optimize
pub mod Api
mod Examples
