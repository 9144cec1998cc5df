-- ===== src/Lib.antt =====
-- A model of the core of the animation service's backend, and what is proved of it.
--
-- The backend turns a teacher's slides into animated scenes. An upload passes a guard, its problems are
-- rendered by templates, and the clips live in the store of a session. A problem that no template fits
-- is observed; enough observations, or a teacher's request, enqueue a generation job, a worker leases
-- the job and drafts a template, a reviewer rejects the draft, which requeues the job, or approves it,
-- which publishes a version that the sessions see, privately or shared.
--
-- The parts, each named by its path under backend/app:
-- - Meta/Models: meta/models.py, the tables and their partial unique indexes. A table is the list of
--   its rows, a query a count or a search, UPDATE ... WHERE a rewrite of the rows that match.
-- - Meta/Jobs: meta/jobs.py, one definition for each function, by its name. Valid holds the invariant,
--   Reach the table over any sequence of calls, Lease who holds a job, Order which job is handed out,
--   Enqueue when a job is accepted.
-- - Meta/Observations: record_observation of meta/observations.py and store_tag of
--   meta/fingerprint.py. Tags holds what they keep unique.
-- - Meta/ReviewActions: requeue_for_refinement of meta/review_actions.py, and record_review of
--   meta/drafts.py. Requeue holds its outcomes.
-- - Meta/Approval: approve_draft_service of meta/approval.py and the functions that it calls. Snapshot
--   is about the names that a session sees, Evidence about the reports, Outcome about an approval's
--   effect.
-- - Meta/Promotion: promote_version of meta/promotion.py; Sharing holds when it succeeds.
-- - Meta/FixtureMutation: meta/fixture_mutation.py. Drop is about the positive fixtures that stay;
--   Search is the search for a fixture that makes a guard's predicate fail, Witnesses what it adds.
-- - Meta/Revalidation: meta/revalidation.py with update_fixture of meta/review_api.py. Evidence is what
--   a revalidation writes, Stale what it writes where a fixture is edited meanwhile.
-- - SessionStore: the class of session.py. Registry and Disk hold its state, Sweeps the evictions,
--   Operations the methods; Shrink, Bytes, Files, Caps, Budget, Safety and Reach the proofs.
-- - Storyboard: the scenes of a session in routes.py, models/scene.py and pipeline/mismatch.py. Scenes
--   holds the state and the write by revision, Review the handlers of one scene, Render the render
--   requests, Chain the combined scenes, Build a new storyboard and a retry. Requests is the relation
--   of requests in flight at once, its children the proofs; Retry is about a retry beside an approval,
--   Claims about render batches.
-- - Templates: the guards, chains and answers under templates: Chain for _shared/chain_math.py,
--   NumberLine for number_line, fraction_bar and balance_scale, ArrayGrid for array_grid.
-- - Dsl: meta/dsl. Expression is compile_expression of expression.py, Compile what it accepts; Fraction
--   is Python's Fraction, Evaluation the rest of expression.py; Guard is guard.py. The modules called
--   Safety show what can be raised at run time once a document compiles.
-- - Grounding: the phrase solver of pipeline/grounding.py. Phrases is the solver, Explored and Maximum what it finds,
--   Steps how long it searches.
-- - PptxGuard: pipeline/pptx_guard.py. Quota: quota.py.
-- - Base: the Boolean tests on numbers, lists by predicate with their counts, and integers.
-- The modules called Tests run the theorems on concrete inputs.
--
-- Identifiers, keys, hashes and paths are only compared, so they are numbers; times are numbers of
-- seconds. Fresh ids, the clock, the settings, which files can be deleted and whether Redis answers are
-- arguments. An exception that leaves a transaction restores the database. What a method of
-- the store does under its lock is one step, and a database call is one transaction, so interleavings are
-- sequences of these. Split are the claim of a job, since another worker may write between its SELECT
-- and its UPDATE, and create, abort and sweep_orphans of the store, which touch the disk after the lock.
--
-- A handler of the storyboard reads its scene first and writes under the session's lock later, so each
-- has a part that takes the scene as it was read, and Requests interleaves these parts freely, with the
-- writes of build_storyboard and retry_scene, which take no lock. A retry resets the revision, so what
-- the revisions promise is stated for the scenes that no retry has replaced. The
-- results of assemble_scene, of the renderer and of the store's registrations are arguments there, and
-- the parameter classes a record of functions. `is` on two scenes is an argument: no proof reads it.
--
-- Two loops are on fuel. One is the byte cap of the store (enforce_bytes of SessionStore/Sweeps): each round
-- evicts an entry, and its callers give it as many rounds as there are entries. The
-- other is the continued fraction of limit_denominator (converge of Dsl/Fraction), whose denominator,
-- the fuel, falls with each round. Base 2 powers of the
-- backoff and all sizes are exact, as in Python.
--
-- Not modelled: the other documents of meta/dsl and meta/v3, validation and
-- generation of drafts,
-- the language model pipeline, the drawing itself, the other HTTP routes, reject_and_refine, and what only carries
-- text or draws.
pub mod Base
pub mod Meta
pub mod Templates
pub mod PptxGuard
pub mod Quota
pub mod SessionStore
pub mod Tests
pub mod Dsl
pub mod Storyboard
pub mod Grounding
