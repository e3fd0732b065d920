-- ===== src/Lib.antt =====
-- Verification of the deterministic core of Supply Response: the services that compute the effect of
-- a supply disruption, rank the possible responses to it, and carry a chosen one through finance
-- review and execution.
--
-- The program reads an operational snapshot of a case (data/synthetic/rl001.py), computes what each
-- response option would achieve (services/analysis/options.py, which calls
-- services/analysis/exposure.py to allocate components to production orders), ranks the options
-- (services/analysis/ranking.py), asks finance for a review where the cost calls for one
-- (services/policy/finance_review.py, thresholds.py), and executes the planned actions
-- (services/execution/worker.py over services/persistence/store.py) or sends a reviewed e-mail to the
-- supplier (services/execution/mail_service.py). The evidence that an analysis rests on is validated
-- by services/policy/evidence.py, the roles that standing authorizations satisfy are found by
-- services/policy/approvals.py, and the exposure of orders to a shortage is computed by
-- services/exposure/calculator.py.
--
-- Files:
--   Base            shared names: tests, lists, integers, texts, sorting by keys, results
--   Domain          the records of data/domain and the snapshot of data/synthetic/rl001.py
--   Analysis        services/analysis: Exposure (exposure.py), Ranking (ranking.py),
--                   Options (options.py)
--   Exposure        services/exposure/calculator.py: the projection of an inventory, and the
--                   exposure of orders to its shortages
--   Policy          services/policy: Thresholds, FinanceReview, Evidence (evidence.py: Item is the
--                   validation of one item, Resolver the resolution of a conflict, Required the
--                   validation of all the evidence of an analysis), Approvals (approvals.py and
--                   workflow.py)
--   Execution       Records (data/domain/execution.py and the rows that store.py keeps of one
--                   action), Service (ExecutionService of worker.py), Actions (planned actions),
--                   Mail (services/execution/mail_service.py over its rows in store.py)
--   Persistence     services/persistence: Presenter (the retention plan of presenter_runs.py)
--   Examples        the theorems at concrete inputs
--
-- Correspondence. A Python function is the definition of the same name (without the leading
-- underscore); a long function is split into helpers named for what they do. A raised exception is
-- an error value of the component's error type. A dictionary is an association list, `sorted` is a
-- stable insertion sort, a `set` of texts is a list without duplicates. A date is its ordinal, an
-- aware datetime a number of microseconds, an amount of money a number of cents. A field that the
-- model's validators bound below by 0 is a natural number, any other `int` an integer; Python's
-- integers are unbounded, so nothing wraps. Loops over lists are structural recursions; no fuel is
-- used. `uuid4`, the clock and the verdict of `guard_execution_current` are arguments of the
-- execution's calls; `uuid.UUID` is a parameter of the finance review, `urlparse` of the evidence
-- policy.
--
-- A `send` of a supplier email reads its rows, claims the delivery and records the provider's answer
-- in three steps, between which other calls may take place; every other call on the email is one
-- step, as its transaction is. The sender's claims are kept after use, so that the steps include more
-- than the program's.
--
-- Simplifications. The keyword arguments of `_calculate_intervention_outcome` and
-- `_response_option` are records. Sorting by priority raises `TypeError` when some priorities are
-- missing and some are not. Rows of an action are kept newest first, where the code reads the last
-- of a sequence; only the status of an action changes, so the immutable columns are not repeated.
-- A case is read without the e-mail and the presenter run that it stems from, and the retention plan
-- reads the few fields of a decoded case, or that the decoding failed, from its row.
-- The verdict on an item of evidence is a function of its own, and whether the validation raises,
-- because `urlparse` does, a test of its own; the validation of all the evidence makes that test.
-- A review that is validated again has a proposal and identities that are valid already.
--
-- Not modelled: the web application, the HTTP API, the SQL mapping of persistence and the deletions
-- of presenter runs, the agents and the integrations (input and output), the generators of synthetic
-- data, the outbox worker and the playback service of execution, the decision and finance
-- application services, the compare-and-set of proposals.
pub mod Analysis
pub mod Base
pub mod Domain
pub mod Examples
pub mod Execution
pub mod Exposure
pub mod Persistence
pub mod Policy
