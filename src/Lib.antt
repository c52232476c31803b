-- ===== src/Lib.antt =====
-- A model of PQTrust-Agent, a protocol by which two agents agree on a post-quantum trust profile:
-- each derives the assurance that a task requires, a deterministic selector chooses among the
-- profiles that are safe for both, the agents commit to and reveal their proposals, sign a
-- contract on the outcome, and a gate admits the contract before any TLS connection.
--
-- The parts, with the files of the repository that they model (under src/pqtrust_agent):
--   Assurance, Assurance/*       models/common.py and assurance/order.py
--   Requirement, Requirement/*   models/requirements.py
--   Policy, Policy/Mapper        models/task.py, models/policy.py and policy/mapper.py
--   Policy/Compilation, Encoding, Compiler
--                                models/compilation.py, models/manifest.py, policy/z3_encoding.py,
--                                policy/compiler.py and the input checks of policy/validation.py
--   Solver, Solver/Meaning       the part of Z3 that these files use, as a parameter
--   Negotiation/Cost, Normalization, Pareto, Regret, Selector
--                                negotiation/cost_evidence.py, normalization.py, pareto.py,
--                                regret.py, selector.py, models/selection.py, models/preference.py
--   Protocol/Time, Replay, Commitment, Transcript, Verification
--                                the same files of protocol/; contract_builder.py is in Transcript
--   Protocol/Models              models/protocol.py, contract.py, profile.py and catalog.py
--   Runtime/StateMachine, Gate   runtime/state_machine.py and runtime/execution_gate.py
--   Transport/Sequence           the `SequenceValidator` of transport/framing.py
--   Conflict, Conflict/Constraints, Core, Possible, SafeSets
--                                models/conflict.py, negotiation/conflict_constraints.py and
--                                negotiation/unsat_core.py
--   Conflict/Certificate, Remediation, Abort, Checks
--                                negotiation/conflict_certificate.py, remediation.py, safe_abort.py,
--                                models/abort.py, protocol/failure_transcript.py and
--                                protocol/conflict_verification.py
--   Prelude/*                    Python's tests, sequences, exceptions and sorting
--   Tests/*                      concrete inputs at which the theorems apply
--
-- A definition has the name of the function, method or class that it models. A function that may
-- raise returns a `Result`; a method that changes its object is an `Exec`, which returns the
-- object beside the result, since what was written before a raise stays written. A dict is an
-- association list, or its lookup function where every key that is read is present; a set of
-- threat classes is a pair of flags. A datetime is an instant in microseconds, aware or naive.
-- Texts of errors are shortened; their classes and stable codes are kept.
--
-- Parameters stand for what the program takes from outside: SHA-256, RFC 8785 canonical bytes,
-- hexadecimal and base64 decoding and the signature check (`Crypto`; its `is_hex` says which texts
-- `bytes.fromhex` takes, and is tested where a text has no hexadecimal pattern), digests of policies and
-- selections, `decimal.Decimal` (`Decimals`, with the behaviour that is relied on in its `Laws`) and
-- Z3's check (`Solver`, whose `Laws` say what the answers sat and unsat mean).
--
-- A loop is structural recursion on the list that it runs over. The enumeration of the compiler
-- runs until the solver answers unsat: it has fuel for one round per profile of the catalog and one
-- more, which is enough since each round excludes one more index of the catalog.
-- The shrinking of a core runs until nothing can be dropped: it has fuel for one round per
-- constraint of the core and one more, since each round but the last drops a constraint.
--
-- Not modelled: the monotonicity self-check of policy/validation.py, the JSON file behind the
-- file-backed registry, the decoding of frames and sockets, the loaders of YAML and evidence files,
-- the calls of OpenSSL, the measurement campaigns (but for the chain of an abort) and their
-- analysis, and the validators of input models that only coerce or match patterns.
pub mod Prelude
pub mod Assurance
pub mod Requirement
pub mod Policy
pub mod Solver
pub mod Negotiation
pub mod Protocol
pub mod Runtime
pub mod Transport
pub mod Conflict
pub mod Tests
