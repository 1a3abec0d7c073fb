-- ===== src/Lib.antt =====
-- QuantForge: a tribunal that takes a research claim about trading through a fixed sequence of reviews
-- to a verdict, with every step in a hash-chained audit log. Language models propose and review; the
-- code owns the workflow, the evidence, the approval, the verdict and the log. The development models
-- that code.
--
-- The parts, and how they interact:
--   Domain         src/quantforge/domain/models.py and domain/constitution.py: the models as records and
--                  enumerations, each `model_validator` as a function into `Result`, the validation of
--                  a whole case (`validate_case`), and the factories (`Factories`). `Platform` holds
--                  what comes from outside: calendar dates, case folding, and the digests.
--   Serialization  src/quantforge/serialization/canonical.py: the text of a decimal, which the
--                  validation of evidence compares.
--   Workflow       src/quantforge/workflow/rules.py: the table of transitions and who may make them.
--   Verdict        src/quantforge/verdict/policy.py: the inputs of the policy and `compute`.
--   Evidence       src/quantforge/evidence: the append-only ledger of one experiment (`Ledger`), the claim
--                  graph (`Nodes`, `Acyclic`, `Graph`), and the evidence bundle of a run (`Bundle`).
--   Engine         src/quantforge/engine/base.py and trust.py: the run of the numerical engine, the
--                  receipt that is issued for it, and the capability that admits its bundle.
--   Evaluation     src/quantforge/evaluation/models.py and scoring.py: benchmark cases, the results of an
--                  architecture, their scores (`Scoring`) and the metrics over them (`Metrics`).
--   Audit          src/quantforge/audit/log.py: the chain (`Verify`), the reconstruction of the case from
--                  the payloads (`Replay`, `Policy`), and the methods of `AuditLog` (`Log`). It uses the
--                  domain's validators, the workflow's authority, the ledger and the policy. The theorems
--                  are on the chain (`Succession`, `Tamper`), on `append` (`Extend`, `Append`), and on the
--                  replay (`Agreement`, `Held`, `Governed`, `History`).
--   Machine        src/quantforge/workflow/machine.py: the case beside its log. A method prepares the
--                  new case and appends one event, and the log accepts it only if it replays to
--                  that case. `Refinement` compares the calls with the documented workflow.
--   Roles          src/quantforge/roles/chair.py and validation.py: what the Chair and the other roles
--                  may return, in each of its texts (`Texts`).
--   Common         tests and lists of Python, `Result` for what returns or raises, and the results that
--                  `except (TypeError, ValueError)` catches.
--   Tests          a small case with its whole log, the code run on it, and the theorems at it.
--
-- State and errors: a method that changes an object returns the new state beside its result; an exception
-- is `err` with its class and text, without the values that the text is formatted with. Python
-- tuples are lists, `None` is an `Option`, sets are lists that are read by membership, times are
-- microseconds in UTC, and the numbers of events and the exponents of decimals are unbounded as in
-- Python. All loops are structural recursion, but for three on fuel: the digits of a number have more fuel
-- than the number; the visits of `_assert_acyclic` have as much as there are nodes, of which each is visited
-- once; and the search from a final claim has one more than there are edges, of which each is followed once.
-- A Python set is gone through in the order of the list, and no result depends on it. Decimal division
-- and the sums of decimals are a parameter.
--
-- Not modelled: the field constraints of pydantic on single texts (patterns, lengths, stripping and
-- Unicode normalisation), which a value of a record is taken to have passed, but for the texts in the payload of an
-- event, of which the constructor of the event is a parameter; files, SQL, the network,
-- subprocesses and the command line; SHA-256 and HMAC, which are functions of the platform. Of the
-- evidence bundle the checks that read its files and the evidence object made from it, of the engine the
-- adapter that starts it, and of the evaluation the adapters, the suite and the runs are not in the
-- development, nor are the request builder, the orchestrator, the storage service and the providers.
pub mod Common
pub mod Domain
pub mod Engine
pub mod Evaluation
pub mod Serialization
pub mod Verdict
pub mod Audit
pub mod Evidence
pub mod Workflow
pub mod Machine
pub mod Roles
pub mod Tests
