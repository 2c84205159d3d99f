-- ===== src/Examples.antt =====
-- Concrete runs of the code, with the theorems applied to them.
mod Scenario
mod StoreRuns
mod LeaseRuns
mod EngineRuns
mod TextRuns
mod AdapterRuns
mod WorkflowRuns
mod ReopenRuns
mod ComposeRuns
mod IpcRuns
mod BrokerRuns
