-- ===== src/Lib.antt =====
-- quant_platform: a backtesting and trading platform. A data source feeds market events through queues
-- to a transport; the engine pulls one input at a time, shows it to the execution gateway, the portfolio
-- and the strategy, sends the strategy's intents through the risk gate to the gateway, lets the gate
-- close positions, and books the fills.
--
-- Files and the code they model, by its path from the repository's root:
--   Core/Types: include/core/types.hpp. Core/Portfolio: include/core/portfolio.hpp, the dense books, with
--   the index (Index), fills (Ledger), funding and marks (Funding). Core/Subscription:
--   include/core/subscription.hpp, what resolves to which instrument (Resolve) and the sizes (Sizes).
--   Core/ViewablePool: include/core/viewable_pool.hpp.
--   Risk: include/risk/risk_gate.hpp and basic/basic_risk_gate.hpp, with the sizing of an order (Sizing),
--   the latch and the ids (Latch) and the closing of positions (Flatten).
--   Execution: include/execution/execution_gateway.hpp, sim/sim_execution.hpp and sim/matcher.
--   Strategy: include/strategy/strategy.hpp and carry/funding_carry_strategy.hpp.
--   Engine: include/engine/engine.hpp, `step` and `run`, and
--   transport/backtest_in_process/backtest_in_process_transport.hpp (Backtest).
--   Core/SpmcQueue: include/core/spmc_queue.hpp, the operations, and under Threads the producer and the
--   consumers one memory access at a time, in any order. Core/SpscQueue: include/core/spsc_queue.hpp.
--   Engine/Backtest also has the legs (Legs), what holds between pulls (Timely), the order (Merge), and the
--   code's queue with a producer (Fed) and running dry without a timer (Dry).
--   Engine/EquitySeries: include/engine/recorder/equity_series/equity_series_recorder.hpp, the recorder.
--   Binance: include/data_source/source/exchange/binance/binance_historical/parsers, csv_field.hpp (Csv),
--   its calendar (Csv/Civil), the rows (Rows) and the blocks of book depth (Rows/BookDepth, with the bits
--   of its bands in Bands and the whole sample in Samples), and endpoints.hpp (Endpoints).
--   Binance/Stamps: the names of the files, of stream.hpp beside endpoints.hpp. Binance/Stream: the rest of
--   stream.hpp, cutting a text into rows and runs (Lines), the loop over the rows with its counters
--   (Reader), and the plan, the pump and the files (Files) with every order of calls and landings
--   (Files/Landing). Binance/Merge: binance_historical_source.hpp, `next` over the heap with the order of
--   what it answers (Ascending) and its end (Ends), and how the streams are built and planned (Build).
--   Core/SlotRing: include/core/slot_ring.hpp, through which the pool hands files to a stream, as the
--   window of positions that it stands for (Window).
--   DataSource: include/data_source/run_data_source.hpp, source/source.hpp, source/eof_source.hpp and
--   sink/sink.hpp, the driver, with what the sinks have taken at any end (Logs) and when it ends (Scripts).
--   Execution/HalfSpread: include/execution/sim/matcher/cost_aware/cost_model/half_spread_linear, the cost
--   model, and Execution/CostTable: its cost_row_reader.hpp, with the loop over the lines (Lines).
--   Base and Double hold the helpers.
--
-- A concept of the code is a record of operations (RiskGate, ExecutionGateway, Matcher, CostModel,
-- Strategy, Transport, Recorder), taken as an instance argument by the code that is generic over it, and
-- a class that meets the concept is an instance. A member function is a function from the object, as a
-- record, to its result and the object after it. The portfolio is one object that the gate and the
-- strategy only read, so each call of theirs is handed the portfolio as it is then.
--
-- `double` is any type with the operations of Double.antt; a property that needs laws of IEEE arithmetic
-- takes them as Double.IsIeee, which a fixed point type with NaN meets. 16-bit and 64-bit counters keep
-- their wrap. Timestamps are integers and taken not to overflow. `run` is over what each poll of the
-- control channel returns, and its last loop has fuel.
--
-- More fuel: the driver has a round each, and what it needs is bounded by what its sources and sinks
-- answer. `read_rows` has a round for each byte of a file, of which every row takes one at least.
-- `pump` has a round for each file of the prefetch depth, and the loops of `next` and `load_next_file`
-- one for each path and one or two more, since each round reads a file.
--
-- The fetch pool is an interface: it takes or refuses a request, and a file that was taken may land at any
-- later time, in any order. The lister of the keys under a prefix is a parameter, and so are the sort of
-- the cost model and the parser of a stream. The heap is the list of its entries, from which the least
-- is taken.
--
-- Memory is sequentially consistent in the interleavings of SpmcQueue.
--
-- Not modelled: sleeping and back-off, memory orders, sockets, TLS, archives and the Python bindings,
-- which are input and output or third-party code; the applications, which compose these parts with
-- threads; the worker threads of the fetch pool; the pages of the bucket's listing; the queues of several
-- producers, and the fan out sink, which pushes into one; and the reports of a run.
pub mod Base
pub mod Double
pub mod Core
pub mod Risk
pub mod Execution
pub mod Strategy
pub mod DataSource
pub mod Engine
pub mod Binance
