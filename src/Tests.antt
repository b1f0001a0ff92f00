-- ===== src/Tests.antt =====
-- Runs at concrete inputs.
pub mod Samples
mod StormdRuns
mod TransferRuns
mod NodeRuns
mod ClientRuns
mod CliRuns
mod DownloadRuns
mod ProvisionRuns
mod SystemRuns
mod TraceRuns
mod OrderRuns
