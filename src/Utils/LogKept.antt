-- ===== src/Utils/LogKept.antt =====
-- What a call of `do_write_log` does to the files.
use isoft_package_installer.Utils.LogSteps.{with_line}
use isoft_package_installer.Utils.LogPaths.{path_of}
use isoft_package_installer.Utils.LogFiles.{kept_name}
use isoft_package_installer.Utils.LogWriter.{Store, Logger, Moment, current_path}
use isoft_package_installer.Base.{Bytes, ℕ, ◌+◌, Option, List}

module _ (log_level : ℕ) (fmt : Option Bytes) (text : Bytes) (m : Moment) (g : Logger)
    (names : List Bytes) (n : ℕ) where
  abbrev current : Bytes
  current = current_path m.datestr

  before : Store
  before = with_line log_level text m g

  numbered_path : Bytes
  numbered_path = path_of (kept_name m.datestr (n + 1))
