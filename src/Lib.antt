-- ===== src/Lib.antt =====
-- Verification library of the knowledge system server: the core of its task control, of its model
-- gateway, of its memory, of its document chunking, and its way into the workflow engine.
--
-- The program. A desktop client talks to a Python server. A task runs in a loop: a controller reads
-- one snapshot of the facts and decides what comes next (modules/tasking); counters of rounds
-- without progress end a loop that goes nowhere; a decision to continue binds and runs the actions
-- that the model proposes, and a decision to end asks the completion gate. The plan that the task
-- follows is checked for cycles first. A model call goes through the model gateway: a permit lets
-- it leave once, its budget is reserved in a ledger, its context is selected within the model's
-- window (modules/memory), the provider's stream is normalised into numbered events, a failed call
-- is retried after a computed delay, and the consumption is settled against the reservation.
-- Documents are cut into chunks for the index (modules/knowledge). What the workflow engine has to
-- do is written to an outbox in the transaction that commits the facts and is delivered by a
-- poller; what the engine stores is encrypted first (modules/temporal). All paths below start at
-- server/src/knowledge_system.
--
-- Where is what.
--   Prelude            helpers: tests, lists measured by native numbers, integers, errors as values
--   ModelGateway.CallState      modules/model_gateway/domain/call_state.py: the table of transitions,
--                      `can_transition`, `require_transition`
--   ModelGateway.Usage, ProviderError   domain/usage.py, domain/provider_error.py
--   ModelGateway.Stream         domain/stream_event.py, domain/stream_normalizer.py: the handlers of
--                      `normalize_bifrost_event`, the caller's loop (`normalize_all`), and
--                      `resolve_stream_terminal`; its children: Numbering, Order, Ending
--   ModelGateway.Retry          domain/retry_policy.py: `classify_retry`, `compute_next_retry_delay`
--   ModelGateway.Budget.Quantity, Ledger, Reservation   domain/budget_quantity.py,
--                      domain/budget_ledger.py, domain/budget_reservation.py
--   ModelGateway.Budget.Tables, Repository   infrastructure/persistence/budget_models.py and
--                      budget_repository.py with application/budget.py: the two tables with their
--                      constraints, and the methods of the adapter as functions from the tables to the
--                      tables and a result; Cas, History and Replay are about the compare-and-set,
--                      whole histories and retried insertions
--   ModelGateway.Egress         domain/egress_permit.py, domain/egress_admission.py,
--                      application/egress.py and infrastructure/persistence/
--                      egress_permit_repository.py: Permit (`commit_model_egress`), Repository (the
--                      transactions on the tables of permits and of calls), Admission (the state of
--                      one permit as the tables are meant to hold it)
--   Tasking.RuntimeDecision     modules/tasking/domain/runtime_decision.py: Signals (the snapshot and
--                      its validator), Select (`_select_directive`, one function for each branch that
--                      may fall through), Evaluate (`evaluate_runtime_decision`); Priority says, of
--                      the facts, when each kind of directive may be issued
--   Tasking.RuntimeProgress     domain/runtime_progress.py and application/runtime_convergence.py
--   Tasking.RuntimeLoop         application/runtime_loop.py: Attempts (what an executor returns), Run
--                      (`ActionRunService.run`), Advance (the dispatch of a decision), Step (a whole
--                      step: a decision and its dispatch)
--   Tasking.PlanRelations       domain/planning_fragments.py: `validate_plan_relations`
--   Tasking.FinalGate           domain/final_gate.py: `decide_completion`, `deliverable_usability`
--   Memory.ContextPack          modules/memory/domain/context_pack.py: Budget
--                      (`compute_context_budget`), Select (`select_context_items`)
--   Memory.Types, Governance, Duplicate, States   domain/memory_types.py,
--                      domain/memory_governance.py: `plan_correction_or_conflict`,
--                      `assess_proposal_legality`, `resolve_duplicate`, the memory states
--   Knowledge.IndexBuild, Chunking   modules/knowledge/domain/chunking.py: the states of a build;
--                      `_walk_units`, `_split_groups`, `_make_parent`, `create_parent_chunks`
--   Knowledge.Candidates        domain/retrieval.py: `dedup_candidates` with its two dictionaries
--   Temporal.Payload            modules/temporal/payload/codec.py, bundle_store.py, key_provider.py:
--                      Libraries (what the codec calls), Stores (the two stores), Codec
--   Temporal.Outbox             infrastructure/persistence/outbox.py (Repository), the outbox table
--                      of task_models.py (Table), and application/outbox_publisher.py and
--                      outbox_signal_publisher.py of modules/temporal (Publisher: one round of each)
--   Examples           tests, and each theorem at a concrete input
--
-- How the code is modelled. Exceptions are values of `Result`, with the code that the source
-- raises. Counts that a contract bounds from below by zero are natural numbers; a balance change is
-- an integer. The cost of a budget is counted in its smallest unit, 10^-6 of the currency. Times
-- are numbers and only compared. Integers of Python have no upper bound; the numbers of the two
-- budget tables are checked against their columns' largest values, the numbers of the other tables
-- and the lengths of texts are not. A power of floats that is too large is the error that Python
-- raises. Loops are structural recursion, but for the search for a cycle in a plan (`visit`): its
-- fuel is the number of nodes and one more, which is enough because every call that goes on enters
-- a node that no call around it has entered. A transaction is one step on the tables, which a
-- raised error leaves as they were; what two processes do at once is an order of such steps.
--
-- What stands for code that is not here. The canonical SHA-256 digests and the name-based
-- identifiers are functions given as parameters (`Digests`, `config_hash`, `parent_id_for`), as are
-- the text functions that compare two memories (`normalize`, `TextTools`); nothing is assumed of
-- them. The jitter of a retry reads 32 bits of a digest (`digest32`), assumed to be below 2^32 and
-- no more; its floating-point arithmetic is exact fractions here. A score of an item or of a
-- candidate is a natural number, since only the order is read. The codec's AES-GCM, Base64, UTF-8
-- and JSON are parameters of which no more is assumed than that each decoder undoes its encoder,
-- AES-GCM for a key of 32 and a nonce of 12 bytes; its SHA-256 is one of which nothing is assumed.
-- The answers of the workflow engine to a start or a signal, the reading of a UUID from a text, the
-- model, the binder of an action, its executor and the final synthesis are parameters too.
--
-- What is not modelled. Adapters of HTTP, secrets and SQL besides the tables of budgets, of permits
-- and of the outbox, the workflows that the engine runs, the desktop client, migrations and
-- declarative message contracts are input and output or third-party code. Of the program's own
-- logic these are not here: the construction of the document tree, the child chunks, the parsing of
-- documents, retrieval besides the deduplication of its candidates, recall and assembly in the
-- memory, the compilation and activation of a plan, the admission and validation of final claims,
-- the control of a whole model call, and task creation and cancellation.
pub mod Prelude
pub mod ModelGateway
pub mod Tasking
pub mod Memory
pub mod Knowledge
pub mod Temporal
