-- ===== src/Lib.antt =====
-- sentry_mode: a model of the decisions of Sentry Mode, a home guard in Python, and what holds of them.
--
-- A hub runs rules: a trigger sets a rule off, and the rule carries out its actions. Triggers listen to
-- cameras and to satellites, small boards that publish readings over MQTT. A reading is held in the
-- board's queue until it can be sent; the hub takes it only within a session of that board and its
-- grants, within the board's budget, through one door that journals it and says whether it is
-- happening now; only then do the triggers see it.
--
-- The files, and the code that they are about:
--   Source      src/sentry_mode/sources/models.py: SourceRef, SourceRecord; Source/Registry is
--               sources/registry.py: register, get, require, set_state; Source/Names is about names.
--   Rule        src/sentry_mode/sentry/config.py: the triggers as saved, and their validators; Rule/Action
--               is the steps of a rule and the two documents.
--   Migration   src/sentry_mode/sentry/migration.py: slug, assign_ids, to_v2, obstacles, to_v1;
--               Migration/Ids and Upwards are about going up, Migration/RoundTrip about both ways;
--               Migration/Document is dump_v1, read_document, write_document.
--   Planner     src/sentry_mode/sentry/resources.py: ResourcePlanner; Planner/Usable is about one source,
--               Planner/Readiness about one rule, Planner/Armed about the whole plan.
--   Scheduler   src/sentry_mode/vision/scheduler.py: InferenceScheduler; Scheduler/Turns runs any sequence
--               of its calls, Scheduler/Served says what one does, Order and Shares what comes of many.
--   Node        src/sentry_mode/satellites/identity.py: the record of a node, the document and what makes
--               them valid; Node/Platform is satellites/platforms.py: the catalogue.
--   Identity    src/sentry_mode/satellites/identity.py: NodeRegistry and its file. Identity/Calls runs any
--               sequence of calls of processes that share the file, Kept and Histories carry a property
--               of the document through it; Epochs, Revoked, Answers and Readable are what comes of it.
--   Trigger     src/sentry_mode/sentry/triggers.py: cooled, detection_matches, sensor_fires, sound_fires,
--               presence_fires, threshold_fires over a RuleState. Trigger/Threshold and
--               Trigger/Observers follow a rule through a history of events.
--   Correlation src/sentry_mode/sentry/correlation.py: expire, drop, sequence_event, sequence_sample.
--   Journal     src/sentry_mode/satellites/store.py: admit, record_refusal, remember, outcome, mark,
--               forget_events, forget_receipts over the three tables; Journal/Receipts is about one
--               call, Journal/Once about any sequence of them.
--   Protocol    src/sentry_mode/satellites/protocol.py: what a satellite publishes.
--   Ingress     src/sentry_mode/satellites/ingress.py: accept, _position, _classify, _write;
--               Ingress/Limiter is RateLimiter, Ingress/Limiter/Rates what it lets through.
--               Ingress/Live, Settled and Marks are about what passes, what is acknowledged and in
--               which order; Ingress/Cases is their induction.
--   Session     src/sentry_mode/satellites/sessions.py: SessionManager; Session/Touches is about one call,
--               Session/Epochs runs any sequence of its calls, Session/Comings counts the boots,
--               Session/Grants is about grants.
--   Health      src/sentry_mode/satellites/health.py: the nodes of a HealthBoard; Health/Tally is about the
--               refusals, Health/Delays about the log.
--   Spool       satellite/src/sentry_satellite/spool.py: Spool; Spool/Bounds is about its limits,
--               Spool/Oldest about which messages are thrown away, Spool/Ledger about where each goes.
--   Json        messages as JSON values, for Command.
--   Command     satellite/src/sentry_satellite/commands.py: parse, _video; Command/Closed is about what is
--               accepted; Command/Seen is Seen, the memory of those handled, and ack.
--   Prelude     the shared tests, lists, dictionaries and integers.
--   Examples    the theorems at concrete inputs.
--
-- How the code is modelled. A method that changes its object takes the state and returns it. A moment is
-- a number of ticks of the clock that the code reads, given to the call; a difference of moments that is
-- compared with a limit is written as a sum against a sum, so that nothing is cut off at 0. Python's -inf
-- and None are `none`. A reading is a signed integer: floating point is not modelled. A level of a budget
-- is counted in parts of an event, so that refilling is exact, and the monotonic clock does not go back.
-- A message of the log or of an activity list is a constructor with what its text shows. A table of the
-- journal is a list of rows, newest first, or a dictionary by its key; a transaction is one step, and
-- whether SQLite can carry it out is an argument of the call. The locks make each call one step, so
-- an interleaving of threads is a sequence of calls; `demand` of the scheduler locks twice and is
-- one step too. The moment of an event is a tick also among the contents that are digested, where the code
-- has a text with its offset; and a sequence number has no bound, where SQLite has 64 bits. A call of
-- `next_epoch` that opens no session, for another process or because it raises, is a step of its own.
--
-- Code that is not the repository's is a parameter: the validation of a document by pydantic, the digest
-- of an event's contents, what the libraries do with a certificate, `str.lower`, and the arithmetic of the
-- rates of cameras, which is in floating point. The file of the node
-- registry is a document with the stamp that `stat` gives; a write is given its stamp, or none where it
-- fails, and that each write has a later stamp than those before is a hypothesis where it matters. A call
-- of the registry is one step, also between processes, whose calls do not overlap.
--
-- Loops are by recursion on the list that they run over. Two are on fuel: that of `requeue` has the length
-- of the queue, which is enough because each turn drops one; that of `assign_ids` has one turn more than
-- there are taken identifiers, which is enough because its candidates end in different numbers.
--
-- Not modelled: the engine that runs the actions, the MQTT link, the service around the door, the web
-- interface, vision but for the turns of its cameras, audio and hardware, the agent around the queue and the
-- commands, and the firmware; and of the modelled files the renderings of a state for the interface,
-- the opening and migration of the journal's file and the figures that are read from it, and the test of a configuration against a
-- platform, and the figures of the journal that a HealthBoard keeps for the interface.
pub mod Prelude
pub mod Source
pub mod Rule
pub mod Trigger
pub mod Correlation
pub mod Journal
pub mod Protocol
pub mod Ingress
pub mod Session
pub mod Spool
pub mod Examples
pub mod Health
pub mod Node
pub mod Scheduler
pub mod Planner
pub mod Migration
pub mod Identity
pub mod Json
pub mod Command
