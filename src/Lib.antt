-- ===== src/Lib.antt =====
-- A model of the skill governance control plane (`src/skillctl/`), which plans, approves, deploys
-- and rolls back skills on targets and keeps a ledger of what it did.
--
-- The parts and their files:
-- - Base: the shared names of the libraries, Python's `==`, `in`, `any`, `all`, sorting,
--   `datetime`, `timedelta`, `bytes.splitlines`, the lines and the stripping of texts (Lines),
--   `pathlib` paths (Files), the loop of `os.read` up to a limit (Reading), and the failures of
--   `src/skillctl/errors.py` as a result type.
-- - Models: the classes of `src/skillctl/models.py` as records (Entities), the validators that
--   relate their fields (Validators), and `model_dump` of what enters a digest (Dump, over the
--   JSON values of Json).
-- - Canonical: `canonical_json` and `canonical_digest` of `src/skillctl/canonical.py`.
-- - Ledger: `DeploymentLedger` of `src/skillctl/ledger.py`. The file is its bytes or is missing;
--   `append` and `read_all` take what the operating system answers, a write that is cut short
--   included. `fcntl.flock` makes each of them one step.
-- - Repository: `DocumentRepository` of `src/skillctl/repository.py`. Snapshot has
--   `load_snapshot`; Records has `create_plan`, `get_plan`, `create_approval`, `get_approval` and
--   the publication under a temporary name. `write_all` has one round for each byte of the
--   payload, which is enough since each `os.write` takes at least one.
-- - Planner: `desired_assets` (Desired), `calculate_changes` (Changes) and `PlanService` (Service)
--   of `src/skillctl/planner.py`.
-- - Approvals: `ApprovalService.record` of `src/skillctl/approvals.py`.
-- - Service: `DeploymentService` of `src/skillctl/service.py`. Env has its collaborators as
--   oracles over the trace of all calls, of which the theorems count the adapter's two mutations
--   and the ledger's append as effects, Checks the guards, Deploy `apply`, Rollback
--   `create_rollback_plan` and `rollback`. `require_capability` is that of
--   `src/skillctl/adapters/base.py`.
-- - Tokens: `DecisionTokenStore` and `InventoryRefreshTokenStore` of
--   `src/skillctl/web/security.py`. The lock makes `issue` and `consume` one step each.
-- - Inventory: the records of `src/skillctl/runtime_inventory/models.py` and
--   `RuntimeInventoryService` of `src/skillctl/runtime_inventory/service.py`. Inventory/Discovery
--   is `src/skillctl/runtime_inventory/discovery.py`: the checks of Skillshare's output (Values),
--   its parts (Targets, Ignored), reading a file (Opened), the walk over a directory (Walk) and
--   its digest (Digest), the skills that are found (Scan), the assets they make (Aggregate) and
--   `discover` (Run). A directory is a tree of entries; the walk has one round for each folder.
--   Inventory/Store is `src/skillctl/runtime_inventory/store.py` on the directory of the snapshot,
--   with the answer of each call of the system; `write_all` and `read_chunks` have one round for
--   each byte. Inventory/Dump is `model_dump` of the snapshot, and Inventory/Refinement the
--   service with the store and what it is compared to.
-- - Readiness: `src/skillctl/web/readiness.py`, with the Markdown documents (Markdown) and the
--   gates (Gates).
-- - Reads: the reports of `GovernanceReadService` of `src/skillctl/read_service.py`.
-- - Evidence: `DeploymentEvidenceResolver` of `src/skillctl/evidence_refs.py`, and the validators
--   of `EvidenceRef` in `src/skillctl/models.py`. Its hooks around the opening of a file do
--   nothing.
-- - Presentation: the page of the runtime inventory, `src/skillctl/web/inventory_presentation.py`.
-- - Tests: each theorem at a concrete input.
--
-- Discovery makes the snapshot that the inventory service has the store save and read. Plans go
-- from Planner to Repository, approvals from Approvals to Repository; Service reads both, calls an
-- adapter and appends to the ledger. Reads looks at the documents, the ledger and the adapters.
--
-- Parameters stand for code outside the repository: the JSON writer, SHA-256 and the text of a
-- `datetime` (Canon), decoding with the field checks of pydantic, YAML, path resolution, URL
-- parsing, `fnmatchcase`, `str.casefold`, the pattern of versions, UTF-8, the adapters,
-- Skillshare's output, the clock, the random tokens and the operating system.
-- `contains_secret_like` is a parameter of Approvals. Times do not overflow. File names encode as
-- UTF-8, no directory changes during one operation on it, `O_APPEND` and the seek put each write
-- of the ledger at its end, and the system opens files without following links.
--
-- Not modelled: the command line, wiring and configuration, redaction, the export of evidence and
-- its locator, projections, the rendered portal, the drivers of external tools and their runners,
-- and the routes and templates of the web application.
pub mod Base
pub mod Models
pub mod Canonical
pub mod Ledger
pub mod Repository
pub mod Planner
pub mod Approvals
pub mod Service
pub mod Reads
pub mod Evidence
pub mod Presentation
pub mod Tokens
pub mod Inventory
pub mod Readiness
pub mod Tests
