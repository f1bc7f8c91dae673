-- ===== src/Tests.antt =====
-- Runs at concrete inputs, and each theorem applied where its hypotheses hold.
mod SimpleRpm
mod DaemonRuns
mod ExtensionRuns
mod PackageRuns
mod SplitRuns
mod ConversionRuns
mod PipelineRuns
mod ArchiveRuns
mod InstallRuns
mod UtilsRuns
mod MainRuns
mod GreeterRuns
