-- ===== src/Lib.antt =====
-- Testy McTestface, a black-box test platform: its scenario engine
-- (packages/scenario-engine), its assertions (packages/assertion-engine), its traffic generator and gateway
-- (packages/traffic-generator, packages/traffic-gateway), the ledger of its simulated vendors
-- (packages/vendor-runtime) and a part of its control plane (apps/control-plane).
--
-- A scenario is a list of steps in six phases. The executor runs them, tells an observer of every
-- status and step, and cleans up whatever the steps have registered; the state machine says which
-- statuses may follow one another; a repository keeps what the observer is told.
--
-- Process: asynchronous code. A process is a tree of uninterrupted pieces between the awaits, with a
--   choice of the event loop wherever several of them wait. Work that a promise leaves behind when
--   it settles (the losers of a race, the siblings of a rejected child) goes on beside the rest.
--   Keeps and Ends are its two proof systems, for what every interleaving keeps and for the calls of
--   sequential code; Runs runs a process on a script of answers and choices.
-- Scenario.Status: packages/scenario-engine/src/state-machine.ts (RunStateMachine). Where the source
--   throws, `transition` is `none`.
-- Scenario.Errors, Scenario.Types, Scenario.Value: errors.ts, types.ts and the JSON values. Numbers
--   are integers, and values are compared by the texts that JSON.stringify makes of them (Prelude.Json).
--   What the platform gives is a parameter: the redaction by regular expressions,
--   SHA-256, and the decimal form of a number.
-- Scenario.World: the variables that one call of executeScenario shares, its abort signals, and the
--   calls to observer, handlers and timers with their answers. A signal is read off the state: each
--   abort carries the time at which it came, and a controller keeps its first one. Timers fire on
--   time. A call counts when it is answered.
-- Scenario.Executor.Actions, Steps, Lifecycle: executor.ts, function by function (invokeAction,
--   runWithTimeout, executeAttemptedAction, executePoll, executeStep, executeSteps, executeScenario).
--   A handler makes its registrations before it settles and does not catch a failed lease. A poll is
--   followed for `poll_rounds` rounds at most; beyond that the process is left waiting, and no
--   theorem takes that for a result.
-- Scenario.Repository: memory-repository.ts. A map is an association list in insertion order.
-- Scenario.Resolver: resolver.ts. Substitute and Templates are substituteValue, Expand is expand and
--   resolveStep, Validate the four validations, Resolve resolveScenario. Each call of `expand` takes
--   one unit of fuel; `fuel_for` gives one for each level of the steps and as many for each fragment.
--   Variables and fragments are looked up among an object's own members; what objects inherit, such
--   as `constructor`, is left out.
-- Assertion: packages/assertion-engine. Values, Matching, Verdicts and Evaluate are evaluator.ts, on
--   the snapshot of Scenario.Repository. What `localeCompare`, `Number.parseInt` and the regular
--   expressions give is the record Platform; that `localeCompare` is a total preorder is a hypothesis
--   where it is needed.
-- Gateway: packages/traffic-gateway, by which traffic reaches a target as a synthetic visitor.
--   Headers is headers.ts, Address is synthetic-ip.ts and errors.ts, Registry is registry.ts with
--   types.ts and crypto.ts. A refusal carries its code and status, not its message. The platform's
--   URL parser, SHA-256, Number() and date texts are the record Platform; randomness and time are
--   arguments.
-- Traffic: packages/traffic-generator, which sends requests through the gateway. Limits, Normalize, Request
--   and Route are util.ts, Attempts and Retries are executeAttempt and executeRequest of runner.ts, Batch is
--   executeBatch, Bursts are send, burst and repeat. What an attempt meets (clock, signals, timers,
--   the reply to what it sends) is a record; the workers of a batch take turns under any schedule,
--   and a batch whose schedule ends before its workers do has no report. An error carries its code and not
--   its message. A number is an integer or some other number by its text.
-- VendorRuntime.Ledger: packages/vendor-runtime/src/ledger.ts. Text has the text methods, Parse the
--   events of a line, Correlate the loop over the matches with the groups that they take from.
-- TargetAdapter.Fake: packages/target-adapter/src/fake.ts, the target that tests run against. A method that
--   throws is `none`; the first digits of the SHA-256 of a run's identity are a parameter.
-- ControlPlane.RunService: apps/control-plane/src/run-service.ts, the recovery of interrupted runs and the
--   cancellation, on Scenario.Repository. A cleaner is a function of the lease, and a time one of
--   the identity that it is recorded for.
-- ControlPlane.Maintenance: apps/control-plane/src/maintenance.ts, one cycle (`execute`). The database, the
--   cleaners and the clock are the record MaintenancePlatform, over a world of any type.
-- ControlPlane.TargetOutcome: apps/control-plane/src/target-outcome.ts, on the JSON values of
--   Scenario.Value.
--
-- Not modelled: the loader and the command lines of the engine (files, JSON schemas),
-- the vendor compiler and contract, the containers of the vendor runtime, the browser packages, the scenario
-- actions of the traffic generator, the gateway's server, the adapters of real targets and the rest of the control plane.
pub mod Prelude
pub mod Process
pub mod Assertion
pub mod ControlPlane
pub mod Gateway
pub mod Scenario
pub mod TargetAdapter
pub mod Traffic
pub mod VendorRuntime
