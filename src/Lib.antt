-- ===== src/Lib.antt =====
-- A model of the local content processor (src/lcp): a pipeline that crawls an article, judges and
-- rewrites it, and takes it through a human sign-off to a record of its publication.
--
-- The parts and their files:
--   Core/State      src/lcp/core/state.py: the states of a job and the transition table;
--                   Core/State/Lifecycle: what the table promises
--   Core/Errors     src/lcp/core/errors.py: the exceptions, as values of `Result`
--   Core/Draft      src/lcp/core/draft.py: the article
--   Core/Lint       src/lcp/core/rules/lint_rules.py; Core/Lint/Verdict: when a draft passes
--   Core/Risk       src/lcp/core/rules/risk_rules.py; Core/Risk/Verdict: when an input is blocked and
--                   when it passes
--   Core/Clean      src/lcp/core/text_sanitize.py: the cleaning of scraped text
--   Core/Grounding  src/lcp/core/rules/grounding.py; Core/Grounding/Verdict: when a draft is supported
--   Core/Dedup      src/lcp/core/rules/dedup_rules.py: the texts that are compared; Cache: the cache of
--                   signatures, with Invariant and Fresh; Cascade: the verdict, with its own Verdict
--   Core/Assets     src/lcp/core/rules/asset_rules.py; Core/Assets/Verdict: when a video passes; Cover:
--                   the advice on a cover
--   Core/Extraction src/lcp/core/rules/extraction.py; Core/Extraction/Downloads: what is fetched
--   Core/Templates  src/lcp/core/rules/template_lint.py; Core/Templates/Accepted: what an accepted
--                   template cannot hold
--   Core/Steps      src/lcp/core/rules/sop_steps.py: the steps of the progress panel
--   Storage/World   the store that all adapters share: the rows of lcp.db, the folders of
--                   data/jobs, the lines of audit.jsonl; and what the host gives (`Host`)
--   Storage/Exec    methods as functions of the store that return or raise; what was written before a
--                   raise stays written. Storage/Exec/Respects: the rules by which a relation between
--                   the stores before and after carries over from the parts of a method to the whole
--   Storage/Audit   src/lcp/adapters/storage/audit_log.py; Outcome: one append; Chain: the hash chain,
--                   with Tampering, and Unended: a last line without its newline
--   Storage/JobStore src/lcp/adapters/storage/job_store.py (Rows: its SQL); Table, Lifecycle,
--                   Invariant and Deletion: what each write does, along which states jobs move, which
--                   tables are valid, what a deletion leaves
--   Storage/Orderly the contract of the store, which every operation but the deletion keeps
--   Processor       src/lcp/adapters/processor: risk_checker.py and _persist.py (RiskGate),
--                   draft_linter.py (DraftLinter), dedup_checker.py (DedupGate; Passing: what a job
--                   that passes is), media_checker.py (MediaGate; Verdict: when it parks a job)
--   Publisher       src/lcp/adapters/publisher: review_packet.py (ReviewPacket), whose message is in
--                   Sanitizer with src/lcp/adapters/processor/sanitizer.py; and signoff.py, whose
--                   approve and reject are in Signoff, resolve in Hold, backfill_published_url in
--                   Publication, supersede in Supersession; Effects, Approval, Redo and
--                   Binding: what they do
--   Pipeline        src/lcp/pipeline.py and src/lcp/adapters/processor/gate_registry.py: Stage 2 and the
--                   reconciliation of crashed jobs; Stage1: the crawl and run_until; Worklist: the
--                   summary and the batch; Effects, Crawl, Reconcile, Worklist/Summary and
--                   Worklist/Batch: what they do
--   System          the calls of the shells on one store, in any order
--   Examples        the theorems at values
--
-- How the parts interact: a handler of Publisher or Pipeline reads the row of its job, writes the
-- folder, moves the row by one of the three writes of JobStore (set_state, persist_crawl_result,
-- persist_from_processing), and appends to the audit log, in the order of the code. The table, the
-- folders and the log are one record `World`, which every method takes and gives back.
--
-- A transaction of SQLite and a locked section of the audit log are one step each, since the lock
-- keeps other writers out and a raise rolls back. Interleavings of two handlers between such steps are
-- not modelled: a run is a sequence of whole calls. Times, identifiers and texts of messages are
-- arguments or left out. All recursions are structural, so there is no fuel.
--
-- Parameters stand for what is not under src: SHA-256 and the canonical JSON (`Host`), the user, the
-- processes, Python's character tables (`Unicode`), hashlib, json and datasketch
-- (`DedupTools`, `DedupGateTools`; a MinHash is what was put into it). Parameters too are some parts of
-- the repository that are not modelled: what the media tools measure and draw (`MediaTools`), the calls
-- of the language model (`Stage2Tools`), and the crawler (`Stage1Tools`); `CrawlerLaws` says of the
-- crawler that it writes by the store's operations, `HashLaws` of SHA-256 that a digest has 64 digits. Floats are natural numbers in thousandths, ratios
-- are fractions; where a float may be no number or infinite, that is a value of its own.
--
-- Not modelled: the crawlers, the language model client, the media tools, the shells (cli, gui,
-- webserver), the gossip scraper and the configuration; file modes and
-- fsync; the dry-run flag and the notes of results; review manifests that the program has not written,
-- whose hashes are no texts or whose freeze is null; audit lines whose number is no natural number.
pub mod Prelude
pub mod Core
pub mod Storage
pub mod Processor
pub mod Publisher
pub mod Pipeline
pub mod System
pub mod Examples
