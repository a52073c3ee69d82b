-- ===== src/Lib.antt =====
-- The core of the quantitative signal system of src/quant_signal_system: the contracts that its
-- parts exchange, the market data store and its replay, the registry of frozen strategies, the
-- signal service and the signal store with its evaluation tasks, the evaluator with its fill,
-- costs and triple barrier, the market rules, the portfolio ledger that executes fills under T+1
-- settlement, the paper portfolio, and the backtest orchestrator, which drives the feature engine
-- and the baseline rule strategy of each binding over the bars of a run.
--
-- How the parts interact: sources save closed bars in the market data store, which a replay reads
-- in the order of time; strategies propose candidates, which the signal service turns into events
-- if their identity is frozen; events are appended to the signal store, whose workers claim
-- evaluation tasks, which the scheduler has made for them, under a lease, and the evaluator prices
-- them over the stored bars; a backtest turns a signal into an order intent, asks the market rules
-- whether it may execute against the bar and the ledger, and applies the fill to the ledger. The
-- orchestrator takes the bars of a run in order: for each it moves the clock, saves the bar, looks
-- for a new version of each binding's universe, and for the bindings whose universe has the symbol
-- updates the features, asks the strategy and appends the event of what it proposes.
--
-- Files and the code that they model (paths under src/quant_signal_system):
--   Prelude         numbers, decimals, texts, dictionaries, sorting, the result of a call
--   Contracts       contracts/market.py, features.py, signals.py, evaluation.py, portfolio.py
--   Clock           time/clock.py
--   Calendar        time/trading_calendar.py
--   Features        features/engine.py
--   Strategies      strategies/composer.py, composer_decision.py, runtime.py
--   Universe        universe/contracts.py, repository.py, resolver.py
--   Versions        config/versions.py, contracts/versions.py
--   Portfolio       portfolio/cash.py, position.py, settlement.py, ledger.py, policy.py, paper.py
--   MarketData      market_data/repository.py, quarantine.py, replay.py
--   Signals         signals/repository.py, sqlite_repository.py, service.py
--   Evaluation      evaluation/cost_model.py, acshare_cost_model.py, fill_model.py,
--                   triple_barrier.py, evaluator.py, scheduler.py
--   Execution       execution/market_rules.py
--   Backtest        backtest/order_intent.py, scheduler.py, run_spec.py, state_partition.py,
--                   orchestrator.py, result.py, and the warnings of manifest.py
--   Tests           concrete values, and the theorems applied to them
--
-- How the code is read:
--   - an object whose methods change it is a record; a method is a function from the record to what
--     it returned or raised, paired with the record that it leaves, so that a call which raises
--     half-way leaves what it had changed by then;
--   - a dataclass is a record with the source's fields, an enum a data type, a dict an association
--     list in the order of insertion, which the equality of two dicts reads too where Python
--     does not, an exception an `Error` with its message; a message that an
--     f-string formats keeps its fixed text and, where a component needs them, its values;
--   - a Decimal is a whole number of units of 10^-28. Sums and comparisons are exact, products are
--     rounded half to even at the unit. The code's context has 28 significant digits, so that the
--     two agree on what needs at most 28 digits in all and none past the 28th behind the point;
--   - a datetime is its instant in microseconds with the offset of its zone; a naive one has no
--     offset. A comparison goes by the instants; two times that differ in the zone alone are two
--     keys, which the checks for UTC exclude;
--   - a table of the SQLite signal store is its rows by primary key, a payload the JSON value that
--     its text says; what is read from a text of isoformat or of a Decimal is what it was written
--     from. The order of the rows of a SELECT without ORDER BY, that of rows which tie and that of
--     the texts of datetimes are parameters, the fields of `Engine`;
--   - sha256, over the texts or records that are serialized for it, and the time of the system clock
--     are parameters; int(total_seconds()) is the whole seconds, cut towards zero.
--   - Asia/Shanghai is eight hours ahead of UTC throughout.
-- Every function is total by structural recursion. One runs on fuel, the search of the calendar for the
-- next session, which takes a number of rounds, one for each day that it looks at: as many as there are
-- days up to a later trading day are enough, which is proved with what it answers. The evaluation
-- scheduler passes the same number of rounds on to it.
--
-- Not modelled: the sources that fetch over the network, the SQLite market data store, files and
-- the manifest of a run, logging, reporting, the dashboard and the command line; and of the core,
-- the loading of strategies and of run descriptions from YAML, and the aggregation of evaluations.
-- Of the changes of universe that a run records, the fields that it sets are kept.
pub mod Prelude
pub mod Contracts
pub mod Versions
pub mod Features
pub mod Universe
pub mod Strategies
pub mod Clock
pub mod Calendar
pub mod Portfolio
pub mod MarketData
pub mod Signals
pub mod Evaluation
pub mod Execution
pub mod Backtest
pub mod Tests
