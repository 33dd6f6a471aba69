-- ===== src/Lib.antt =====
-- A model of the trading platform: the runtime's bar cycle with the portfolio and risk state, the
-- decision engine, the simulated execution engine and the features, the backtests over that cycle with
-- their metrics and search space, the governance of the candidates that may go live, the comparison of
-- decisions in replay, and the carry position. All paths are from the root of the repository.
--
-- In a cycle (backend/src/runtime/platform_runtime.py) a bar of market data is shown to the execution
-- engine (backend/src/execution), which closes positions and fills what is pending. The features
-- (backend/src/features) give a context, the strategy providers give signals, and the decision engine
-- (backend/src/engine) filters the market, aggregates the signals, checks the risk against a snapshot of
-- the state, builds a final signal and returns a decision. The execution engine turns an approval into
-- an order, a fill and a transition; the state store (backend/src/state) applies the transitions, and
-- the events of the cycle go to the bus (backend/src/events). A backtest (backend/src/validation) runs
-- the cycle bar by bar and liquidates what is left open.
--
-- Prelude      the shared names: native numbers with their tests, lists, options, signed integers
-- Dict         Python's dict with string keys, as an association list in insertion order
-- Float        the operations on floats that the code uses, as an interface; Float.Exact is exact
--              arithmetic on integers, the instance of the theorems on money and of the tests
-- Contracts    backend/src/core/contracts and events/envelopes.py: one record for each model, an
--              enumeration for each set of strings, a constructor for each payload
-- State        backend/src/state. Updates and Store have `InMemoryStateStore`: `dispatch` is the
--              choice by type in `apply_transition`, `apply_position_opened` and its kin are
--              `_apply_position_opened` and its kin. Positions, Cash, Equity and Versions prove.
-- Engine       backend/src/engine: Config, MarketFilter, Aggregator, RiskManager, SignalBuilder and
--              DecisionEngine have the classes of the same names. `process` is `DecisionEngine.process`,
--              with `route` what follows the aggregation and `conclude` what follows its success.
--              Verdict, Approval, Exits, Consensus, Symmetry and Weights prove.
-- Execution    backend/src/execution: Simulator has the state of `SimulatedExecutionEngine`, Pricing,
--              Gate, Positions, Pending and Exits the functions of simulated_pricing.py, risk_gate.py,
--              simulated_positions.py, simulated_pending.py and simulated_exits.py, Orders has
--              `execute`, and Simulated has `evaluate_bar` and `liquidate_open_positions`. Frame,
--              Liquidation, Timeout, Fills, Quiet, LongOnly, Trades and Returning prove.
-- Events       backend/src/events/in_memory_bus.py: Bus has `InMemoryEventBus`. Delivery proves.
-- Features     backend/src/features: Config, Store, Context and Builder have config.py, store.py,
--              context_deriver.py and `build` of builder.py. Stored proves.
-- Runtime      backend/src/runtime/platform_runtime.py. State has the fields of `PlatformRuntime` and
--              `_CycleCtx`, Emission the envelopes and `_build_features`, Portfolio what precedes the
--              decision, Signals `_collect_provider_signals`, Decide `_decide`, and Cycle the execution
--              and `run_cycle`, as `prepare` up to the snapshot and `conclude` from it on. Counts,
--              Steps, Trading, DailySignals and Returning follow the count of the day's signals through
--              a cycle; Causation, Traces and Published follow its events.
-- Validation   backend/src/validation: Harness has the bars and the liquidation of
--              `run` in harness.py (`simulate`), Windows walk_forward.py and
--              optimization_windows.py, Space and Trials optimization_space.py with `generate_trials`,
--              Metrics the part of metrics.py that needs no clock, Trades the ledger of trades.py,
--              and Selection the choice of the best trial in optimization_scoring.py. DailyLimit,
--              Backtest, Folds, Picked, Generated, Breakdown, Drawdown, Ledger, Ranks, Choice and Best
--              prove.
-- Replay       backend/src/replay: Graph has graph.py and Diff diff.py. Roots and Diff prove.
-- Carry        backend/src/carry: PositionManager has position_manager.py. Products and Closing prove.
-- Governance   backend/src/governance: Evaluator has candidate_evaluator.py, Candidates the operations
--              of candidate_store.py on tables that are lists, LiveGate live_gate.py and its queries.
--              Acceptance, Champions, Promotion, Rules and GoingLive prove; `Step` and `Reaches` are the
--              sequences of operations.
-- Tests        concrete data and the theorems at that data
--
-- Mutable objects are records that the operations take and return. An exception is `none`, where the
-- code can raise one; `apply_transition` also returns the store that an exception leaves; `Post true Q` of Prelude.Options says that there is no error and `Q` holds of what
-- is returned, `Post false Q` only the second (`Returns` and `Keeps`). The ids of uuid4 are arguments,
-- draws from `Ids`, or in the runtime `draw prefix n` for the n-th draw; the clock's readings are
-- arguments too. What pandas computes enters as a `Frame`: the indicators, flags, close and time of the
-- last bar. In Windows the arithmetic of timedeltas on floats, in Trials `rng.choice`, and in Space the
-- values of the parameters are arguments.
--
-- Loops run over lists. The one loop on fuel is `fill`, the `while` of `generate_trials`: each round
-- removes an element of what remains, so one more than their number is enough fuel.
--
-- Floats are a parameter of which no law is assumed: a theorem about any floats holds of IEEE doubles,
-- and one that needs arithmetic is stated on integers, where quotients are rounded towards zero and
-- `round` changes nothing: it says nothing of what rounding does. Instants are numbers of microseconds since the
-- epoch in UTC; the integers of the code are counters and limits that are not negative. `await` is a
-- call, as the methods modelled await nothing but each other.
--
-- Not modelled: the ranges that pydantic checks, the reading of yaml configuration, the text of a
-- rationale beyond its summary and weight, the transition type that is not known (the data type has
-- none), a key of the wrong type in a payload, the progress callbacks of the harness, its metrics
-- and its runs without `retain_cycles`, and the parts
-- around the core: the other stores of governance, the rules of the providers and the indicators, the
-- breakdowns by month and regime, the outcomes over folds, the timeline and reexecution of
-- replay, research, the live part of carry, data, database, API and frontend.
pub mod Prelude
pub mod Dict
pub mod Float
pub mod Contracts
pub mod State
pub mod Engine
pub mod Execution
pub mod Governance
pub mod Events
pub mod Features
pub mod Runtime
pub mod Validation
pub mod Replay
pub mod Carry
pub mod Tests
