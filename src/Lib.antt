-- ===== src/Lib.antt =====
-- OpenSmartCharge: verification of the control core.
--
-- OpenSmartCharge drives electric-car chargers. Every control tick resolves what a circuit may draw,
-- plans the cheapest quarters of an hour, decides what each loadpoint should draw, writes the limits
-- that changed to the chargers and recovers sessions that have stalled. The modules follow the
-- program:
--
--   Base           tests, lists, dictionaries (a JavaScript `Map`), rounded division and signed integers.
--   Charger        src/sdk/charger.ts: the status that a charger pushes.
--   Health         src/sdk/types.ts, src/core/health.ts, src/core/source-reconciler.ts.
--   LocalTime      src/sdk/local-time.ts: wall-clock parts, the next local time of day, zones (Until).
--   SmartCharging  src/core/smart-charging: one child for each resolver (current budget, price
--                  curve, load rollup, session completion, active vehicle), Energy for the energy
--                  target with src/core/estimator.ts and src/core/electrical.ts, and Gates for the
--                  small tests.
--   Planner        src/core/planner.ts, with decideShouldCharge of smart-charging/decide.ts.
--   Balancer       src/modules/balancer-mqtt-circuit/allocator.ts.
--   ControlLoop    src/core/control-loop.ts: circuits and the decision core of one tick.
--   Loadpoint      src/core/loadpoint.ts: the live state and the persisted row.
--   Plans          src/core/plans.ts: the table of recurring plans and the plan that governs.
--   Ocpp           src/modules/charger-ocpp16: the debounced setter (Debounce), the meter values
--                  (Readings), the tables of transactions and readings (Transactions), the status
--                  derivations (Status), and the server with its sockets and handlers (Station).
--   Session        src/core/session-reconciler.ts: the recovery of stalled sessions.
--   Lifecycle      src/core/lifecycle.ts: the guard that runs a circuit's ticks one at a time (Slots), the
--                  live state beside the database and the events that change it (Site), the first loop of
--                  a tick (Prepare), a circuit's budget (Budget), what is asked for each loadpoint
--                  (Context, Resolve), the application of the decisions (the module itself), the whole tick
--                  (Tick), and the listener of meter snapshots (Meter).
--   Config         src/core/config-overrides.ts: the overrides that the API stores over the file.
--   ConfigIo       src/core/config-io.ts: the redaction of a vehicle's secrets and their restoration.
--   Reconcile      src/core/reconcile.ts: the reload of the modules that a change concerns.
--   PowerHistory   src/core/power-history.ts: the buffer of the power chart.
--   Shutdown       src/core/shutdown.ts: the teardown and the signal's handler with its watchdog.
--   LogStore       src/core/log-store.ts: the records of the log, its queries and its rotation.
--   PostStartup    src/core/post-startup.ts: the rounds of hooks after the start.
--
-- A meter snapshot goes to Lifecycle.Meter, which keeps the loads of SmartCharging.Rollup and the
-- buffer of PowerHistory. A tick of a circuit enters through Lifecycle.Slots. Lifecycle.Prepare reads
-- each charger, closes and opens sessions, polls vehicles and ends boosts; Lifecycle.Budget asks
-- SmartCharging.Current for the circuit's budget; Lifecycle.Resolve takes each loadpoint through the
-- resolvers of SmartCharging, the plans and Planner; Balancer splits the budget of a shared circuit;
-- ControlLoop turns decisions into commands and writes; SmartCharging.Complete says whether the
-- session is done; and Session sees the outcome and takes at most one corrective action.
-- Lifecycle.Tick composes these as circuitTick does.
--
-- Numbers. The program computes with doubles. Here a current is a whole number of mA, an energy of Wh,
-- a power of W (mWh and mW where a charger reports them), a time of ms since the epoch, a fraction of
-- thousandths, and a percentage of thousandths of a percent in SmartCharging.Energy and Lifecycle, so
-- that sums, differences, comparisons and rounding to whole amps are exact. Where the program divides,
-- the model rounds to its unit: an energy that is required rounds up, an estimated state of charge and
-- an average price round down. What doubles would round further is not modelled, nor are NaN and
-- infinities, except where the code relies on them (a missing price, a charge rate of zero). Amounts
-- that can fall below zero are integers.
--
-- Loops recur on their lists. The quarters of a plan recur on fuel, and Planner.Slots shows that it
-- suffices: the slots reach the target time. So do the hours of SmartCharging.Price, whose fuel covers
-- every instant up to the target time. The runs of the setter in Ocpp.Debounce, the requests for ticks
-- in Lifecycle.Slots, the polls in Lifecycle.Prepare.Polls, the ends of the process in Shutdown and the
-- events in Lifecycle.Tick.Consistency are sequences of steps. Names of definitions are those of the source in snake_case; optional fields are options, and a record keeps
-- the fields that the code reads.
--
-- Parameters. Code outside the repository is an argument: a module's create, start and stop, the
-- validator of the configuration's schema, the prices of a tariff, a clock's wall time in a zone
-- (Intl.DateTimeFormat), how a resource answers when it is told to stop, whether a hook succeeds, the
-- secret fields that a vehicle's module declares, the parser of dates, SQLite's LIKE, and the order in
-- which SQLite compares keys.
--
-- Of Node the steps take what it documents: a timer that is due runs at some later time and never at a
-- fixed one, an unhandled rejection exits with 1, a timer that was unref'd keeps no process alive, and
-- `process.once` listens to one signal.
--
-- A database table with a primary key is a dictionary, or a list of rows with the next key; a column
-- that holds JSON is the list it encodes, and a time of day is its hour and minute.
--
-- Not modelled: sockets, HTTP, MQTT, SQL text, the parsers of a vendor's messages, the streams
-- that feed the log, the development tools and the user interface.
pub mod Balancer
pub mod Base
pub mod Charger
pub mod Config
pub mod ConfigIo
pub mod ControlLoop
pub mod Health
pub mod Lifecycle
pub mod Loadpoint
pub mod LocalTime
pub mod LogStore
pub mod Ocpp
pub mod Planner
pub mod Plans
pub mod PostStartup
pub mod PowerHistory
pub mod Reconcile
pub mod Session
pub mod Shutdown
pub mod SmartCharging
