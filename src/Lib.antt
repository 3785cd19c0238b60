-- ===== src/Lib.antt =====
-- A model of the backend of biaice (apps/backend/src/biaice), a decision platform for tenders, with
-- the properties that its core decisions rest on.
--
-- The program. A decision unit of a procurement project goes through a life cycle
-- (modules/projects/domain/lifecycle.py), moved by LifecycleService.submit
-- (modules/projects/application/services.py), which records an event, changes the unit, and
-- writes to the outbox and the audit log. Rule clauses of a project and of a unit are resolved
-- per key. Risk acceptances (modules/approvals_reports) are made by one person and approved by
-- another for a period. Governance (modules/governance) invalidates what depends on a changed
-- object, expires what is past its retention, and deletes the replicas of an object once no
-- legal hold stands. The simulation module (modules/simulation/domain) decides which candidates
-- form a plan and whether a recommendation may be issued. Documents (modules/documents) are
-- uploaded in parts, checked and scanned into quarantine, released by a second person, parsed,
-- and linked to decision units. The commercial module (modules/commercial) keeps cost baselines
-- and policies, and assesses whether a strategy is ready. All of them rest on the core (core):
-- error codes, the tenant scope, the security gates and the audit hash chain.
--
-- The files.
--   Common, Common/*    shared names: tests, lists, dictionaries, texts and decimals.
--   Core/Errors*        core/errors.py: codes, catalogue, and exceptions as results.
--   Core/Scope*         core/auth.py: TenantScope.assert_allows; the scope tests of the project and
--                       the approvals repositories (_scope_ok, _scope_matches).
--   Core/Gates*         core/security/gates.py: build_machine_assessment, GateService.
--   Core/Audit*         core/audit.py: sink, HashChainAuditWriter.write, verify_hash_chain.
--   Core/Outbox*        core/outbox.py: the check of an event's payload, on ASCII keys.
--   Lifecycle*          modules/projects/domain/lifecycle.py: State, Value and Tables are the enum
--                       and its tables, Transition is resolve_transition; Gates, Runs, Names and
--                       Closing say what histories of commands satisfy.
--   Projects*           modules/projects: Store is the repository, Service is submit; Checks, Chain and
--                       Laws say how events and units agree.
--   Projects/Resolution*  modules/projects/domain/resolution.py: the inheritance of rule clauses; Resolving
--                       and Covering say when a key is resolved and that each key is.
--   Projects/Pagination*  modules/projects/application/pagination.py; Following reads all the pages.
--   Approvals*          modules/approvals_reports: Risk is the model, Service the service; Invariant,
--                       Creating and Laws say what its calls do.
--   Governance/Invalidation*  modules/governance/domain/invalidation.py
--   Governance/Retention*     modules/governance/application/retention.py
--   Governance/Deletion*      modules/governance/application/deletion.py: Job has the models,
--                       Receipts the loop over the replicas, Run the rest of run_once.
--   Simulation*         modules/simulation/domain: eligibility.py, merge.py, stress.py, and the
--                       selection of optimization.py.
--   Documents/Model to Links  modules/documents: Model is domain/models.py, Intake the checks of names and
--                       contents, Scanner infrastructure/scanner.py, Store application/repository.py,
--                       and Upload, Completion, Review, Parse, Jobs and Links the calls of
--                       DocumentIntakeService (application/services.py).
--   Documents, the others     what holds of them: Parts, Sizes, Slices and Roundtrip of the parts of a
--                       file, Sessions, Uploads and Finishing of the stored sessions, Released and
--                       Reviewed of the documents, Attempts and JobSteps of the parse jobs,
--                       LinkFrames of the links, Checks of single checks; Runs has the calls as
--                       commands, and Guarantees what holds after any of them.
--   Commercial*         modules/commercial: Model is domain/models.py with the states of the evidence
--                       module, Store application/repository.py, Costs and Readiness the calls of
--                       CommercialService (application/services.py); Baselines and Verdicts say what
--                       holds after them.
--   */Tests             fixed inputs.
--
-- How state is modelled. A service call takes its store and returns the store after it with its
-- result; an exception is an `err` of Core/Errors, and a call that raises returns the store with the
-- writes made before. The deletion coordinator returns the list of its writes instead. Times and
-- identifiers are numbers; what a call draws from the clock or from uuid4 is an argument. A
-- frozenset is a list, of which only membership is used. Texts are lists of code points; strip and
-- upper are those of ASCII. Decimals are whole numbers of a smallest unit; sums are exact, as
-- Python's are up to 28 digits. All functions are structural recursions: no fuel is needed.
--
-- Code that is not the repository's, and ports that the callers fill, are parameters: the outbox port
-- and the audit writer of a submission, SHA-256, the canonical JSON text, the replica
-- adapters and the receipt verifier of a deletion, the provider of gate assessments, the answer of the
-- ClamAV daemon, the listing of a zip archive, and the text of an identifier. The only assumption made
-- of one is that a digest is not empty, which a 64-digit hash is not. The extraction of a document's
-- text, which rests on zip and XML libraries, is a parameter too.
--
-- Not modelled: the HTTP layer, SQL repositories, sockets, workers and migrations, which
-- are I/O; locks, since each call is one step; the audit writer or the outbox raising in the middle of
-- a call of the documents, commercial and approvals services, where they are taken to accept what they
-- are told once the availability check has passed (`LifecycleService.submit` has both raising); the
-- listing and reading calls of the documents service; the services of the modules rules, evidence,
-- market, model_governance, and the services of simulation.
pub mod Common
pub mod Core
pub mod Lifecycle
pub mod Projects
pub mod Approvals
pub mod Governance
pub mod Simulation
pub mod Documents
pub mod Commercial
