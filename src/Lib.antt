-- ===== src/Lib.antt =====
-- A verification library for the core of the academic assistant: the durable job queue, the planner's
-- policy, the remediation ladder, the evaluation of material triggers, the learning session, the
-- curriculum graph, the diagnostic selection and the mastery engine.
--
-- The parts and their files:
-- * Jobs models packages/domain/jobs.py, packages/persistence/jobs.py and
--   packages/persistence/job_events.py, with the rows of packages/persistence/models.py.
--   Jobs.Status holds the lifecycle (`validate_transition`, `failure_status`), Jobs.Retry holds
--   `retry_delay`, Jobs.Events the events (`append_event`). The methods of `JobRepository` are
--   functions on the tables: `claim` and `heartbeat` in Jobs.Repository, `finish`, `fail`, `cancel`
--   and `report_progress` in Jobs.Outcome, `reap` in Jobs.Reaper. One method is one transaction, and
--   an exception rolls it back. Jobs.Lifecycle relates a row before and after a method, Jobs.History
--   runs any calls in any order.
-- * Planner models packages/planner/policy.py. Planner.Vocabulary and Planner.State hold the
--   enumerations and the input records of packages/domain/enums.py, packages/domain/adaptation.py and
--   packages/domain/graph.py, Planner.Decision the output of packages/domain/models.py and the helpers
--   `_decision`, `_blocked`, `_graph_issue` and `_diagnostic_issue`. `decide` is cut into stages, one
--   for each rule, in Planner.Policy and its children. Planner.Contract holds what they guarantee.
-- * Remediation models `evaluate_remediation_progress` of packages/domain/remediation.py, the frames of
--   packages/domain/runtime.py and the frame that packages/persistence/remediation.py stores.
-- * Triggers models `evaluate_trigger` of packages/domain/triggers.py with its policy of
--   packages/domain/runtime_policy.py.
-- * Session models the session's states, transitions and validators of packages/domain/runtime.py.
-- * Curriculum models packages/curriculum/graph.py and the graph contents of packages/domain/graph.py.
--   Curriculum.Definition holds the records, Curriculum.References `validate_references` with a function
--   for each of its loops, Curriculum.Prerequisites the selection of edges, Curriculum.Kahn
--   `_topological_order`, `topological_order` and `validate_dag`, Curriculum.Depth `topological_depth`,
--   Curriculum.Reach `unique_descendant_counts` and Curriculum.Descend `descendants`. A dictionary over
--   the nodes is a function. A heap is an ascending list and a stack a list whose head is popped.
-- * Diagnostics models `select_diagnostic_candidates` of packages/curriculum/diagnostics.py on the order and
--   the descendants of Curriculum.
-- * Mastery models packages/mastery/weights.py with `apply_evidence` and
--   `apply_self_report_priors` of packages/mastery/engine.py on the contracts of
--   packages/domain/mastery.py. Its float arithmetic is a structure of its own, Mastery.State.
-- * Runtime models the writes of packages/persistence/runtime.py and, for pushes and returns of frames,
--   packages/persistence/remediation.py. Runtime.Tables holds the rows, Runtime.Values the diagnostic
--   values of packages/domain/runtime.py, Runtime.Journal the locks, the checks and the journal that the
--   operations share, Runtime.Requests what they serialize. An operation is its `journaled` frame around
--   its own work: Runtime.Sessions, Runtime.Frames, Runtime.Stack, Runtime.Diagnostics and Runtime.Answers.
--   Runtime.Recovery is `recover_deferred_trigger`, which has no journal; Runtime.Recovers proves on it.
--   Runtime.Calls gathers the operations into calls and histories of them; Runtime.History and its
--   children hold what every history keeps.
-- * Base holds what they share: Boolean tests, lists, results that may raise, and floats.
-- * Examples applies the theorems to concrete inputs.
--
-- The parts meet in their data: the planner reads the state of the session, the open remediation frame
-- and the reviews, a trigger decides whether the planner runs, the worker runs what the queue holds,
-- and the runtime stores the session, its frames and its diagnostic runs.
--
-- Conventions. A UUID is the number that its bits spell, so that `bytes` order it as a number. A time is
-- a count of microseconds. A float is an element of a structure with the comparisons and operations
-- that the program uses, Base.Floats; the laws of IEEE arithmetic on values that are no NaN are named
-- hypotheses, which the whole numbers satisfy. `uuid5`, `str`, the digest of a planning state and
-- the readings of the clock are parameters. Loops are recursion on lists or on the count of the rounds
-- left. `while` loops take their rounds as fuel: one for each node in the order, one more than the nodes in
-- a climb up the parents, and one more than twice the edges in the search for descendants. The theorems on
-- them show that this is enough.
--
-- An operation of the runtime is a function from the tables to a result and the tables that it leaves. The
-- caller's transaction is open, and the row locks make transactions on a learner follow one another. A
-- constraint of the database is a check at the flush: primary keys and check constraints are
-- written out, the other unique and foreign keys are a parameter, as is the serialization of
-- values and requests. Between two calls other modules may write their own tables, move the plan
-- head of a session and journal results of their own.
--
-- Not modelled: the input and output of the API, the workers and the model gateway, the SQL of the
-- other repositories, and the bounds of single fields, which are checked where a record is built. The
-- plan versions, execution receipts, topic windows and directives of the runtime, the replay of evidence, the review schedules, the inferred diagnostic evidence and the graph of a
-- confirmed revision are not part of the library yet.
pub mod Base
pub mod Jobs
pub mod Planner
pub mod Remediation
pub mod Triggers
pub mod Session
pub mod Curriculum
pub mod Diagnostics
pub mod Mastery
pub mod Runtime
pub mod Examples
