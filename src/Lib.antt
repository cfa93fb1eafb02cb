-- ===== src/Lib.antt =====
-- Verification of the core of the Lion microkernel framework.
--
-- The program is a workspace of Rust crates under lion/. A plugin acts through capabilities
-- (lion_capability), policies decide who may do what (lion_policy), and workflows of nodes and
-- edges drive the work (lion_workflow); the other crates are the shared types and traits
-- (lion_core), the WebAssembly host (lion_isolation), the runtime, pools and actors
-- (lion_concurrency) and the tools around them.
--
-- Base holds the shared names: Boolean tests, lists, `Result`, texts as lists of character codes,
-- hash maps and sets (Base/HashMap, Base/HashSet, Base/TextSet), `BTreeMap<usize, _>` (Base/OrdMap)
-- and signed numbers.
--
-- Capability models lion/lion_capability/src/model/capability.rs. Its children File, Memory,
-- Message, PluginCall, Composite, and HostRule with Network are the files of
-- lion/lion_capability/src/model; Filter, Proxy and Combine those of src/attenuation; Store,
-- Revocation, Audit (with the checker of engine.rs) and Set (aggregator.rs) those of src/store and
-- src/check. Functions have the names of the methods they translate. The trait `Capability` is the
-- record Trait/Trait of its methods: wrappers and composites are written over any such record, and
-- the store over the smaller interface Revocation/Filterable. Boxed fills both for file
-- capabilities and filters around them.
--
-- Policy has Request (lion/lion_core/src/types/access.rs), Rule (lion/lion_policy/src/model), Store
-- (lion/lion_policy/src/store/mod.rs, the interface as a record), Store/Memory (store/in_memory.rs)
-- and Evaluator (lion/lion_policy/src/engine/evaluator.rs), which takes a store as an argument.
--
-- Workflow has Node and Edge (lion/lion_workflow/src/model/node.rs and edge.rs), Definition
-- (model/definition.rs) with Definition/Search (has_cycle) and Definition/Building (add_edge and
-- remove_node) and Definition/Ordering (get_topological_order), and State (state/machine.rs,
-- `WorkflowState`), which executes a definition. A definition that is a graph (Definition/Graph) is
-- what the executions (State/Executions) start from. Saga has the steps (patterns/saga/step.rs and
-- types.rs), Saga/Definition `add_step` and `validate` (patterns/saga/definition.rs), Saga/Built
-- the sagas that `add_step` builds. Event has the events (patterns/event/types.rs) and Event/Retry
-- the queue of those that failed (patterns/event/retry.rs).
--
-- Conventions: a method that mutates returns the new state; an error is a constructor without its
-- message text; `usize` is 64 bits wide and a sum of addresses wraps, as in a release build; shift
-- amounts are taken modulo the width of the word, as there. Loops over a collection are recursions
-- on its list. The depth of `has_cycle_dfs` is bounded by two more than the number of edges, since
-- each call below the first visits the target of an edge that was not visited before. The sort of
-- `get_topological_order` has one round more than there are nodes, since a round adds a node to the
-- result. The search of `SagaDefinition::validate` is given a depth of one more than the number of
-- steps. The counters of nodes are at most the number of edges and do not overflow. The time that a
-- method reads from the clock is its argument `now`; JSON values and the identifiers of libraries
-- are type parameters or numbers, an `f64` its bit pattern. A hash map is an association list whose
-- order is the order of iteration; no theorem depends on that order. Base/EquivMap has the maps
-- whose keys are compared by an equality that does not tell all of them apart: the evaluation
-- cache, since the path of a request is a `PathBuf`, which compares components. Reading an address
-- or a plugin id from a text is a parameter (`parse_ip`, `parse_id`), and so is whether two
-- functions are the same object (`Arc::ptr_eq`).
--
-- Not modelled: builders, printing, serialisation, logs, the asynchronous glue, threads that run
-- inside one method of a store at the same time, and the crates of the WebAssembly host, the
-- runtime, the pools and the tools, which call libraries.
pub mod Base
pub mod Capability
pub mod Policy
pub mod Workflow
