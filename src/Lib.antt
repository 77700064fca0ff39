-- ===== src/Lib.antt =====
-- The client-side quality-of-service library of mediasoup-cpp (src/client/lib/qos): the JavaScript
-- that watches a sender of audio or video, degrades and restores it step by step along the rungs of a
-- ladder, and reports to the server.
--
-- The parts and how they interact. A sampler (Sampler, sampler.js) takes raw snapshots at an interval.
-- For each the controller (Controller, controller.js) merges the overrides in force (Overrides, the
-- methods handleOverride, _mergeOverrides and getActiveOverride of controller.js), derives signals
-- (Signals, signals.js), runs the state machine (StateMachine, stateMachine.js), judges the probe that
-- follows a recovery step (Probe, probe.js), plans actions for a level of the profile's ladder (Planner
-- and Profiles, planner.js and profiles.js), filters them by policy, has them executed (Executor,
-- executor.js), traces them (Trace, trace.js) and publishes a report. Controller/Process.antt is one
-- call of processSample; Controller/Filter.antt and Controller/Actions.antt are the methods that it
-- calls, Controller/Settings.antt those that change a controller from outside, and
-- Controller/State.antt its fields.
--
-- The coordinator (Coordinator, coordinator.js) keeps the tracks of a peer and decides over all of them:
-- the peer's quality, the order of its tracks and those that it may sacrifice. The session hands the
-- decision to the controllers (coordination_for, applyPeerCoordination of factory.js), which keep it as
-- their coordination override; Session (the session of factory.js) is their composition: rounds of samples,
-- and decisions that are asked for. The comparison of identifiers by locale is a parameter.
--
-- What goes over the wire is checked on both sides (Protocol, protocol.js): readers of dynamic values
-- (Dynamic, Protocol/Readers.antt) make up the parsers of snapshots, policies and overrides
-- (Protocol/Parsers.antt), Protocol/Validity.antt says what a parsed payload promises, and
-- Protocol/Values.antt writes one again. Controller/Wire.antt is the payload that publishSnapshot of
-- controller.js builds from a report. The channel (SignalChannel, adapters/signalChannel.js) parses what
-- the server sends and hands it to those who listen.
--
-- A snapshot comes from the provider (StatsProvider, adapters/statsProvider.js), which adds the statistics
-- of a producer up over its streams, and passes over a report of the other side whose time is not later
-- than that of the one before. The executor's sink is made of the adapter of a producer (ProducerAdapter,
-- adapters/producerAdapter.js and createProducerActionSink of factory.js).
--
-- Apart from these, a receiver tells what it sees: hints of the user interface (DownlinkHints,
-- downlinkHints.js) are matched with the statistics of the transport (DownlinkSampler,
-- downlinkSampler.js), the subscriptions that result are written as a snapshot (DownlinkProtocol,
-- downlinkProtocol.js), and the reporter sends it (DownlinkReporter, downlinkReporter.js), at most one
-- report being under way at a time. Tests and replays run on a clock that is moved by hand (ManualClock,
-- clock.js).
--
-- Conventions. A class is a record and a method a function to the new record. String unions of
-- types.d.ts are data types (Types/Enums.antt), its interfaces records (Types). A measured number is of
-- an abstract type with the operations of the language (Shared/Numbers.antt): proofs that need the order
-- of such numbers take the record IsOrdered of laws of IEEE 754, which Shared/Thousandths.antt meets.
-- Levels, counts and milliseconds are natural numbers, the clock and the intervals being whole
-- milliseconds; differences of times are written as sums, so that a clock that runs backwards is treated
-- as in the source. A level from outside is an integer, and is clamped as in the source. Texts are lists
-- of code units. A missing flag is false where the source tests it against true. An exception is a
-- constructor of the result. The executor, the sink, the channel and the clock are arguments: what they
-- answer is arbitrary, and may depend on the place of a call in its row. A loop recurs on the list that it
-- runs over, except for runDueTimers of clock.js, which is on fuel: now + 2 rounds, where now is the time
-- of the clock. That is enough, since each round puts off every timer that is due by a millisecond at
-- least, and one more round finds nothing to do.
--
-- Not modelled: two calls of processSample in flight at once (a call is one step here), the console,
-- getSnapshotBase and getStatsReport of adapters/producerAdapter.js, the durations of limitations that
-- adapters/statsProvider.js adds up, the construction of a session's parts in factory.js and its
-- handleNotification, SystemQosClock, the compiled copy of the WebRTC client in src/client/lib, and the C++
-- server.
pub mod Shared
pub mod Types
pub mod Dynamic
pub mod StateMachine
pub mod Planner
pub mod Profiles
pub mod Probe
pub mod Trace
pub mod Executor
pub mod Overrides
pub mod Signals
pub mod Sampler
pub mod Protocol
pub mod SignalChannel
pub mod Controller
pub mod Coordinator
pub mod DownlinkReporter
pub mod Session
pub mod StatsProvider
pub mod ProducerAdapter
pub mod DownlinkHints
pub mod DownlinkSampler
pub mod DownlinkProtocol
pub mod ManualClock
pub mod Fixtures
