-- ===== src/Utils.antt =====
-- daemon/utils.c
pub mod LogNumbers
pub mod LogFiles
pub mod LogPaths
pub mod LogSteps
pub mod LogKept
pub mod LogSizes
pub mod LogRuns
pub mod LogLock
pub mod LogWriter
pub mod Files
pub mod Copying
pub mod Records
pub mod RecordFields
pub mod RecordFiles
pub mod Directories
pub mod Removal
pub mod Split
