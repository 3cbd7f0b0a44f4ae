-- ===== src/Lib.antt =====
-- post-training-rsi-pipeline: the control plane, the decision policy of the RSI loop and the
-- policies of the co-evolution loop.
--
-- The program trains a model in rounds. Each round diagnoses, synthesises data, verifies it,
-- trains a candidate checkpoint and evaluates it; a policy then promotes the candidate to the
-- accepted Peak, rejects it, rolls back or ends the run. Everything that a controller does is
-- written down as records of a versioned control plane. The co-evolution loop of harness/
-- searches for a better harness under a frozen model (MUTATE_HARNESS to HARVEST_TRACES),
-- harvests traces with it until enough are verified (to TRAIN_MODEL), and trains, evaluates and
-- promotes a model on them (to SLIM_HARNESS or the next FREEZE_MODEL); each policy starts from
-- the snapshot that the one before ends in. Paths below are from src/post_training_rsi/.
--
-- The files:
--   Prelude            shared numbers, lists, errors and their lemmas
--   Platform           binary64 floats, SHA-256, datetime and the decimal text of an int, which
--                      are outside the sources: a record that every definition takes. Its laws
--                      (Platform/Laws) are hypotheses; Platform/Fixed is a platform that can be run
--   ControlPlane       control_plane/: Enums (enums.py), Text, Value, Validation and Reading
--                      (validation.py; Value/Canonical is about sorted keys), Encoding and Records
--                      (records.py: one module per record, with __post_init__ as post_init,
--                      to_dict and from_dict)
--   Config             the budget and RSI sections of config.py, with their checks
--   RsiPolicy          orchestration/rsi_policy.py: Inputs and Step are its data classes, Records
--                      what _candidate_step and _append_run_decision build, Edges the methods
--                      _validate_input, _required_peak_score, _candidate_step, _advance and
--                      _append_run_decision, Evaluate the method evaluate. The other modules are
--                      proofs: Emitted and Branches read a returned step back, Outcomes, Peak,
--                      Progress, Chain and Admission state what a call does, and Ready, Built,
--                      BuiltRun, ReadyEdges and Totality show that the call returns, and
--                      FromConfig that an accepted configuration gives the limits
--   Cost               cost.py: CostLedger, each method with the ledger that it leaves. History states
--                      what any run of calls adds up to, Circuit when the breaker opens
--   Lineage            lineage/peak_store.py and the JSON files of lineage/_io.py: PeakPointer and
--                      JsonFile are the data, PeakStore is PeakPointerStore over a pointer file and a
--                      directory of history files. The stores that a pointer links to are the
--                      interface LinkedStores. Swap, Results and Runs are proofs
--   DataGate           verification/decontamination.py: Decontamination has the loops of lcs_ratio on
--                      token lists, with the rows that the code keeps; Subsequence is the
--                      specification, Table the proof
--   Harness            harness/: the three policies of the co-evolution loop. Steps is what they share
--                      (the records of an edge, _combine and _record_id), Metadata the check on
--                      forbidden keys. Position and Position/Walks are for proofs: where a snapshot
--                      stands, and sequences of steps
--   Harness/Outer      outer_loop/contracts.py (Contracts) and policy.py: Edges has _edge and the checks,
--                      Moves each call of _edge_from_snapshot, Policy the operations. Search is an
--                      abstract machine, to which Refines relates them; Runs, Climb and Start are
--                      about any run of calls
--   Harness/Traces     trace_harvesting/ in the same way, with Harvest as the abstract machine
--   Harness/Inner      model_inner_loop/ in the same way: Decisions has the budgets and the two verdicts,
--                      Policy the training and the evaluation, Commits the review and the commits,
--                      Promotion is the abstract machine
--
-- How the code is modelled. An exception is a value of Error under Outcome: its class is kept,
-- its message is not. Every check that stands before a raise is a line of a do block, in the
-- order of the code. A dict is its entries in insertion order. An int that the code checks to be
-- not negative is a natural number; a decoded int is an integer, and the check stands in
-- from_dict, after all fields have been read. float(n) and astimezone may raise OverflowError. A
-- check of a Python type (isinstance) is given by the types of the model. Strings are sequences
-- of code points; the regular expressions on identifiers and digests are tests on them.
-- Comparisons of floats are written with `<` as the code has them, so NaN makes each of them
-- false. canonical_json, str.casefold and the division of two ints are parameters where they
-- occur. No definition uses fuel: every function is structurally recursive.
--
-- compare_and_swap runs with the lock of the store held, so its calls follow one another; `a <=
-- b` on finite scores is written as the negation of `b < a`.
--
-- Not modelled: the json module (the record Json of Lineage/JsonFile stands for it, with the
-- round trip of objects with sorted keys and finite numbers as a hypothesis; its limit on the
-- digits of an int is left out), the tokenisation and the rest of verification/, lock timeouts,
-- writes that the operating system refuses, the other stores of lineage/, processes and
-- services, the command line, the stores and runtimes of harness/, and the other packages
-- (approval, adapter_runtime, audit, preflight, recovery_bundle, recovery_activation, serving,
-- training, evaluation, synthesis), and the rest of config.py.
pub mod Config
pub mod ControlPlane
pub mod Cost
pub mod DataGate
pub mod Harness
pub mod Lineage
pub mod Platform
pub mod Prelude
pub mod RsiPolicy
