-- ===== src/Workflow.antt =====
-- lion/lion_workflow/src: the graph of a workflow and the state of its execution.
pub mod Node
pub mod Edge
pub mod Definition
pub mod State
pub mod Saga
pub mod Event
mod Examples
