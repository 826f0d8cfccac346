-- ===== src/Lib.antt =====
-- ProspectEngine: the generic layer that evaluates interventions and acts on the results.
--
-- An engine evaluates a state under a baseline and under each scenario of a list. What it returns,
-- a signature per scenario, is compared, scored, assessed and selected from. The parts and where
-- their code is, by path from the root of the repository:
--
-- Core: crates/prospect-core/src/lib.rs. `ScenarioId::new` is `new_scenario_id`; the traits
--   `ProspectiveEngine`, `SignatureMetric` and `DecisionPolicy` are records of their methods.
-- Scenario: crates/prospect-scenario/src/lib.rs. `evaluate_batch`, `score_against_baseline` and
--   `best_by_policy`; the loops of the first and the last are `evaluate_each` and `best_from`.
-- Scenario/Controlled: crates/prospect-scenario/src/controlled.rs. `evaluate_with_clock`, with the
--   loop `run_candidates`, `interruption_at`, and the gate `into_completed_batch`. The closures
--   `progress` and `now` are the record `Host`.
-- Scenario/Decision, with Assess and Select: crates/prospect-scenario/src/decision.rs.
--   `assess_decision_set`, `validate_objectives`, `lexicographic_best`, `pareto_front` and
--   `pareto_dominance_witnesses`.
-- Adapter: crates/prospect-adapter/src/lib.rs. Versions, namespaced ids, `AdapterMetadata::new`
--   (`new_metadata`) and `supports_capability`; Adapter/BuiltIn has the catalog of this repository.
-- Registry: crates/prospect-registry/src/lib.rs. `register` and `resolve`, written once for the
--   two registries that the source writes out, and used at both.
-- Bundle: crates/prospect-bundle/src/lib.rs. `ScenarioBundle::new` (`new_bundle`); Bundle/Wire has
--   `wire_ref` and the way back (`from_wire`); Bundle/Json has `canonical_json` and
--   `from_canonical_json`.
-- Dispatch: crates/prospect-dispatch/src/lib.rs, `resolve_bundle_requirements`;
--   Dispatch/Execution: crates/prospect-dispatch/src/execution.rs, `execute_registered_bundle`;
--   Dispatch/Controlled: crates/prospect-dispatch/src/execution/controlled.rs,
--   `evaluate_registered_bundle_controlled`; Dispatch/Catalog: crates/prospect-dispatch/src/catalog.rs,
--   `DispatchCatalog::new` (`new_catalog`) and `DispatchCatalog::resolve_bundle`, with its canonical
--   JSON in Dispatch/Catalog/Json.
-- Record: crates/prospect-dispatch/src/execution/record.rs. The wire form and the lifecycle checks
--   (`check_record`); Record/Capture has `capture_record` up to the wire form (`capture_wire`),
--   Record/Verify `verify_against_bundle`, Record/Bound `evaluate_registered_bundle_bound` and the
--   whole `capture_record`, Record/Summary `summary`.
-- Journal: crates/prospect-dispatch/src/execution/record/journal.rs. `Lifecycle::accept` is `accept`,
--   and the inspection loop, on events that are already decoded, is `replay`; Journal/Phases has the
--   state machine that it follows. Journal/Emit has the `Emitter`, Journal/Session (from
--   crates/prospect-dispatch/src/execution/record/journal/evaluation.rs) the session and the
--   recording engine, Journal/Run a run from the header to the terminal, Journal/Evaluate
--   `validate_header` and the result `JournalRun`, Journal/Journaled
--   `evaluate_registered_bundle_journaled` and Journal/Inspect `inspect_execution_journal`. The bytes
--   that a sink holds are seen through a function `stored` of the world, with the documented contract
--   of a sink in `IsFaithful` (an error may follow a partial write) and in `IsSingleWriter`.
-- Base: what these share. Strings are their sequences of code points, `BTreeMap` is its entries in
--   key order, `BTreeSet` the keys inserted so far, `sort_by` a stable insertion sort, and `?` the
--   bind of `Result`, or of `Effect` where calls change the world.
--
-- How they interact: a bundle names an adapter, and may name a metric and a policy. Dispatch looks
-- them up in a catalog of metadata and in the registries; execution then passes the scenarios of the
-- bundle to `evaluate_batch` on the registered engine and scores the batch. The decision set and the
-- controlled evaluator work on the same scenarios and outcomes.
--
-- State and calls. An engine, a progress callback, a clock or an assessor may have state of its own,
-- so each call takes and returns a value of a type `W`, the world outside this layer; the order of
-- calls is the order in which the world is passed on. `&mut self` methods return the new state.
-- Metrics and policies are functions. A comparison of a generic type is an instance of `Ord`, whose
-- laws are those that the trait documents: a total preorder, in which values that compare as equal
-- need not be identical.
--
-- Bounds and termination. Loops run over lists and recur on them, so no fuel is needed. Counts are
-- natural numbers: they count the items of sequences in memory, below `usize::MAX`. Version numbers,
-- seeds and instants are only copied and compared.
--
-- Not modelled: `Display` and `Error` impls, which only print; panics of callbacks; the digest
-- `sha256`; serde_json, which is a parameter (`Serde`) of Bundle/Json, with what the crate relies on
-- in the record `Reads`, of Dispatch/Catalog/Json (`CatalogSerde`) and of Record/Verify
-- (`RecordSerde`); recovery and continuation of a journal; multi-trace grouping; the domain
-- adapters, which read files of other projects in floating point; the command line.
pub mod Adapter
pub mod Base
pub mod Bundle
pub mod Core
pub mod Dispatch
pub mod Journal
pub mod Record
pub mod Registry
pub mod Scenario
