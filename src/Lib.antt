-- ===== src/Lib.antt =====
-- z_apply_core: the runtime of an agent that fills in job applications in a browser.
--
-- A run of the agent leases a browser from a pool, asks people through a broker of requests, and sends
-- events to its observers; each of these is an object that many concurrent tasks share. The pool of
-- browsers (src/z_apply_core/browser_pool.py) stands on a pool of profile slots (src/z_apply_core/profile_pool.py):
-- a slot is a copy of a master browser profile that a run gets and that is restored after it. The
-- broker (src/z_apply_core/human/broker.py) takes the questions of a run and the answers to them, from the
-- operator's interface and from Telegram. The broadcaster (src/z_apply_core/integrations/events.py) gives each
-- event to every observer through a bounded queue, and merges token deltas into frames. A guard
-- (src/z_apply_core/agents/no_progress_guard.py) stands around every tool call of an agent and refuses
-- repeated ones, and a serializer (src/z_apply_core/agents/browser_mutation_serializer.py) makes those that
-- change the browser run one at a time. The goal runner (src/z_apply_core/agents/goal_runner.py) starts
-- the agent again after a failure and sends it back to work when it stops early. Two guards (src/z_apply_core/agents/delegation_guard.py,
-- src/z_apply_core/agents/human_escalation_guard.py) say when an agent may ask a person.
--
-- The run service (src/z_apply_core/integrations/service.py) ties them together: it queues the runs and starts
-- their tasks, opens a browser for each, hands the events of its graph and of its own to the broadcasters
-- with the number and the view of the run, keeps what the broker reports, and decides the outcome. A gate
-- (src/z_apply_core/browser_workspace.py) keeps agents off the browsers while a person has control, and
-- another one (src/z_apply_core/browser_submission.py) lets one final click through for one approval.
--
-- Which file models what:
-- - Slots: profile_pool.py. Slots/Profile has the checks and the cleaning of a profile tree,
--   Slots/Slot is `ProfileSlot`, Slots/Pool is `ProfileSlotPool`. Slots/Reset, Slots/Leasing,
--   Slots/Counting and Slots/Uses hold the proofs.
-- - Browsers: browser_pool.py. Browsers/Pool has the state, admission and release, Browsers/Launch the loop
--   of launches and `BrowserPool.acquire`, Browsers/World the interleavings of several runs.
--   Browsers/Capacity, Browsers/Admission, Browsers/Race and Browsers/Orphan hold the proofs.
-- - Broker: human/broker.py. Broker/Request builds a request, Broker/Methods has the methods of
--   `HumanRequestBroker`, Broker/Channel is `BrokeredHumanChannel`, Broker/World the interleavings.
--   Broker/Counts, Broker/Claims, Broker/Once, Broker/Outcomes and Broker/Stranded hold the proofs.
-- - Events: integrations/events.py. Events/Frame is `_DeltaFrame`, Events/Coalesce the iterator of one
--   observer, Events/Broadcast is `EventBroadcaster`. Events/Parts, Events/Lossless and Events/Stream hold the
--   proofs on frames, Events/Tails, Events/Queues, Events/Snapshot and Events/Sound those on queues.
-- - Guard: agents/no_progress_guard.py. Guard/Call has tool calls and their signatures, Guard/State the
--   counters of `NoProgressGuardMiddleware`, Guard/Wrap its wrappers of tool and model calls. Guard/Limits,
--   Guard/Failures, Guard/Denials, Guard/Refusals and Guard/Repeats hold the proofs.
-- - Serializer: agents/browser_mutation_serializer.py. Serializer/Batch is
--   `SerializeBrowserMutationsMiddleware` with its lock and the concurrent calls of a response;
--   Serializer/Skips and Serializer/Parallel hold the proofs.
-- - Goal: agents/goal_runner.py. Goal/Runner is `run_persistent_goal`, Goal/Active is
--   `ActiveGoalMiddleware`; Goal/Attempts and Goal/Stops hold the proofs.
-- - Escalation: agents/delegation_guard.py and agents/human_escalation_guard.py. Escalation/Ladder counts
--   failed delegations, Escalation/Ask is `HumanEscalationGuardMiddleware`; Escalation/Opens holds the proof.
-- - Payload: what an event may carry (integrations/service.py). Payload/Sanitize is `_safe_payload` and
--   `_framework_payload`; Payload/Safe and Payload/Fixed hold the proofs.
-- - Workspace: browser_workspace.py and browser_submission.py. Workspace/Gate is `BrowserControlGate` with its
--   interleavings, Workspace/Submission is `SubmissionGuard`; Workspace/Exclusion, Workspace/Takeover and
--   Workspace/Approvals hold the proofs.
-- - Service: integrations/service.py and integrations/models.py. Service/View and Service/Run are the state and
--   the emission of events, Service/Requests the requests to people, Service/Typed and Service/Sink are
--   `_GraphSink`, Service/Title reads the title of the page, Service/Execute is `_execute` with its ends, Service/Methods the methods of a run's handle,
--   Service/Core those of `ZApplyCore`, on top of the gate of Workspace. Service/Steps says what may happen to
--   one run, Service/World what may happen to the core. Service/Delivered says what of the events of a run gets to its observers.
--   Service/Sound, Service/Accepted, Service/Endings,
--   Service/Leaves, Service/Checks and Service/Honest hold the proofs on events and outcomes, Service/Pending that
--   on the pending request, Service/Rounds that on the scheduler, Service/Aside, Service/Over,
--   Service/Stuck, Service/Gone and Service/Lost those on runs whose task is over.
-- - Ledger: context/call_ledger.py. Ledger/Calls is `RunCallLedger`, Ledger/Totals holds the proof.
-- - Protocol: agents/protocol_guard.py and agents/authentication.py. Protocol/Evidence finds the markers of the
--   runtime, Protocol/Guard is `ProseToolCallGuardMiddleware`, Protocol/Auth the budget of waits and the verdict of
--   the authentication agent; Protocol/Clean holds the proof.
-- - Prelude, Dict and Star: tests on numbers and texts, lists, Python's dict, runs of a step relation.
--
-- State is passed explicitly: a method is a function from the state to the state, beside its result. A
-- method with a lock is one step; a method that gives up control in between is cut there, and a step
-- relation (Browsers/World, Broker/World, Workspace/Gate, Service/Steps, Service/World) says which pieces may follow each other. Errors are values of a
-- sum or an option. The tests in each Tests module run the definitions on small inputs.
--
-- Bounds and fuel: numbers are natural numbers (the token counts of a call are integers), since the source counts and takes what is below 0 for 0, and
-- Python's integers have no bound. `admission_loop` takes fuel for its rounds; the deadline of acquire
-- ends it, and enough fuel gives its result. `goal_loop` takes fuel for its runs of the agent;
-- `run_persistent_goal` gives it max_recoveries + 1, which is enough. All other loops follow a list or a number. Times are milliseconds or ticks
-- of a clock that is an input.
--
-- Not modelled: what drives libraries and services (Playwright, LangGraph, deepagents, Telegram, Gmail,
-- SQLite), prompts, display and logs. rsync, the JSON parser, uuid4, the clock, Python's str and
-- sanitize_human_text are arguments of the definitions that use them. Cancellation of a task is
-- modelled in the broker, in the gate and in the run service, and left out in the pool of browsers, where a run whose launch is cancelled
-- counts as launching from then on, as its slot stays leased. In the run service an emission takes its number
-- and makes its event in one step with its operation; the event may get to the observers late, out of order or
-- never. Only `accept` may wait, or be cut off, between its two emissions. A takeover gets the gate at once, and an unrelated step of a run
-- may come at any time, so that the relation has every order of the code and more. Its start and close,
-- the gateways of models, the ledger and the files of artifacts are outside it. Costs are floats, which are a parameter of the ledger.
mod Prelude
pub mod Slots
pub mod Dict
pub mod Browsers
pub mod Broker
pub mod Star
pub mod Workspace
pub mod Service
pub mod Ledger
pub mod Protocol
pub mod Escalation
pub mod Events
pub mod Goal
pub mod Guard
pub mod Payload
pub mod Serializer
