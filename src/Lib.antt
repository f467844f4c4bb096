-- ===== src/Lib.antt =====
-- Thelight runs a research and PAPER-trading terminal. Market bars come in, features and signals are
-- computed from them, a policy and risk checks choose a target position, and the target is either
-- replayed against past bars or, for one asset, sent to a PAPER broker by a durable worker. This
-- library models the core of that program, the files of src/lib/lightlight, and proves what makes it
-- correct.
--
-- Which file models which part (a function keeps its name, in snake_case):
--   Types        src/lib/lightlight/types.ts
--   Asset        assets.ts, and in Asset/Identity runtime-identity.ts
--   Order        the broker order states of alpaca.server.ts and projectedBrokerStatus of
--                alpaca-worker-store.server.ts
--   Store        the class MemoryAlpacaWorkerStore of alpaca-worker-store.server.ts
--   Broker       AlpacaPaperExecution, the reads of AlpacaPaperBroker and
--                brokerStateFromTradeUpdate of alpaca.server.ts
--   Worker       the safety rule and the scans for missing minutes of alpaca-worker.server.ts
--   Runtime      the class AlpacaPaperWorker of the same file. World is its state and Actions the
--                actions on it; Ownership has the renewal, persistCheckpoint, halt and loseOwnership;
--                Broker has reconcileInternal and dispatch; Buckets, Decisions and Bars have
--                processCompletedDecisionBars; Recovery has recoverGap; Streams has the handlers of
--                the two streams; Lifecycle has start, stop and a list of events; Snapshot has the
--                constructor and snapshot. The other files
--                under Runtime hold proofs only
--   Market       market.ts, and in Market/History the checks of
--                alpaca-crypto-historical.server.ts and closedBarFromAlpaca
--   Feature      features.ts, and in Feature/EmaRsi ema-rsi-v1.ts
--   Policy       policy.ts with thresholds.ts
--   Classifier   jev.ts
--   Replay       execution.ts
--   Number       the numbers of JavaScript, a parameter
--   Common       shared helpers; Tests has the concrete inputs
--
-- How they interact: the Runtime asks Worker/Safety whether a decision may be dispatched, persists it
-- with its intent in the Store, claims the intent under its lease, calls the broker's submit, and
-- records what it hears, which Order projects on the intent's status. The broker that the Runtime calls
-- is a parameter, as it is an option of the class; Broker models the one that the program passes. The
-- Replay executes the same intents against bars. Features feed the signals, the strategy and
-- the Classifier, and these feed the Policy.
--
-- State: every class with private fields is a record, and each method a function from the state, its
-- arguments and what the outside answers to the result and the new state. An interleaving of processes
-- is a list of calls, each with its time. A thrown error is none, or a constructor of Outcome. In the
-- Runtime a method is an action on the World, and the state that it has reached stays after an error.
-- An event of the process (a bar, a trade update, a timer, a call of start, stop or reconcile) runs its
-- handler to the end; at each await outside of the store the clock and the other processes may
-- move the leases and the runs, by any function, but do not write the worker's own intents.
-- Doubles are the parameter Number.Num; times, counts and bar indices are naturals, positions are
-- integers, and a timestamp is not negative; the start of a history before time 0 is 0. Loops are
-- structural recursion on their lists; a loop over minutes takes its number of rounds, computed from
-- its bounds, so no fuel can run out.
--
-- Not modelled: the SQL store, whose statements a database executes; sockets, HTTP and timers, of
-- which only the replies and the firing are modelled; a store that fails, since the in-memory store does
-- not; the registry of workers of alpaca-worker.server.ts, which reads the environment.
-- A trade update whose event is a property that every object inherits (see `eventStatus`) ends its
-- handler with an error in the model, where the source would store a value that is no status.
-- The New York calendar date, sha256, randomUUID and the texts of numbers are parameters of the
-- Runtime. The BTC worker, the strategy ema_rsi_v2, sessions and observation tools remain to be done;
-- the user interface, authentication and the multiplayer glue are not this program's core.
pub mod Asset
pub mod Broker
pub mod Classifier
pub mod Common
pub mod Feature
pub mod Market
pub mod Number
pub mod Order
pub mod Policy
pub mod Replay
pub mod Runtime
pub mod Store
pub mod Tests
pub mod Types
pub mod Worker
