-- ===== src/Workflow.antt =====
-- src/workflow.rs: manifests of workflows, their runs as projected from the event log, and the
-- checks that guard each action on a run.
pub mod Manifest
pub mod Load
pub mod Run
pub mod Project
pub mod Claims
pub mod Valid
pub mod Steps
pub mod Protocol
pub mod Start
pub mod Effects
pub mod Latest
