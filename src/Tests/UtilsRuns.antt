-- ===== src/Tests/UtilsRuns.antt =====
-- Directories and log files.
use isoft_package_installer.Utils.RecordFiles.{
  RecordCall, write_records, write_records-lines, installed_lines, pending_lines,
}
use isoft_package_installer.Utils.Records.{
  installed_log_file, not_installed_log_file, log_file_filter, record_line,
}
use isoft_package_installer.Utils.Directories.{Content, removable, folder, nothing, named}
use isoft_package_installer.Utils.LogFiles.{LogDirectory, log_id, max_log_id, kept_name}
use isoft_package_installer.Base.{
  decimal, atoi, Bytes, codes, bytes_eq, starts_with, ℕ, ◌≡◌, refl, false, some, [], ◌∷◌, true,
  none, List, ◌++◌, arith, negsuc, pos, length, sum_by, decimal_int,
}
use isoft_package_installer.Utils.LogSizes.{IsUsual, IsBounded}
use isoft_package_installer.Utils.LogRuns.{LogCall, write_all, write_all-IsBounded}
use isoft_package_installer.Utils.LogWriter.{
  Store, put_file, text_of, Logger, Moment, log_notice, level_name, current_path, log_line,
  after_line, do_write_log, logger_init,
}
use isoft_package_installer.Utils.Copying.{utils_copy_file-text}
use isoft_package_installer.Utils.Files.{copied, utils_copy_file}
use isoft_package_installer.Utils.LogLock.{run_callers, callers_of}
use isoft_package_installer.Utils.LogLock.Runs.{run_callers-write_all}
use isoft_package_installer.Utils.LogLock.Callers.{in_lock, past_lock, as_number, once_left}
use isoft_package_installer.Utils.Split.{split_all}
use isoft_package_installer.Utils.RecordFields.{split_all-record_line}

abbrev tidy : Content
tidy = folder true (named (codes "a") removable (named (codes "d") (folder true nothing) nothing))

abbrev log_date : Bytes
log_date = codes "2015-09-09"

abbrev log_directory : LogDirectory
log_directory = record {
  names = some (codes "." ∷ kept_name log_date 3 ∷ kept_name log_date 2 ∷ []);
  is_dir = λ name. false;
  nowtime = 0;
}

abbrev moment : Moment
moment = record {
  datestr = log_date;
  timestr = codes "10:00:00";
  pid = 7;
  opens = true;
  directory = log_directory;
  renames = true;
  renames_again = true;
  makes_directory = true;
}

moment-IsUsual : IsUsual moment
unfolding max_log_id log_id atoi decimal starts_with bytes_eq
moment-IsUsual = record {
  ten = refl;
  names = codes "." ∷ kept_name log_date 3 ∷ kept_name log_date 2 ∷ [];
  largest = 3;
  listed = refl;
  found_largest = refl;
  fits = omega arith;
  moves = refl;
}

abbrev no_files : Store
no_files path = none

abbrev hello : Bytes
hello = codes "hello"

-- The first line of a day.
abbrev first_files : Store
first_files =
    put_file no_files (current_path log_date)
      (some (text_of (no_files (current_path log_date)) ++ log_line log_notice hello moment))

abbrev logger : Logger
logger = logger_init no_files

first_line :
    do_write_log log_notice (some hello) hello moment logger
    ≡ some (record logger { store = first_files })
unfolding do_write_log after_line log_line level_name decimal bytes_eq
first_line = refl

abbrev one_call : List LogCall
one_call = record { log_level = log_notice; fmt = some hello; text = hello; moment = moment } ∷ []

write_all-IsBounded_example :
    (g' : Logger) × (write_all one_call logger ≡ some g') × IsBounded g'.store
write_all-IsBounded_example =
    write_all-IsBounded one_call logger (moment-IsUsual, tt) (λ date ten. omega arith)

-- Two callers, of which the second waits for the lock.
abbrev made_logger : Logger
made_logger = record logger { g_log_lock_inited = true }

abbrev two_calls : List LogCall
two_calls = one_call ++ one_call

abbrev two_in_turn : List ℕ
two_in_turn = 0 ∷ 1 ∷ 1 ∷ 0 ∷ 1 ∷ 1 ∷ 0 ∷ 0 ∷ 0 ∷ []

run_callers-write_all_example :
    let s = run_callers two_in_turn (callers_of made_logger two_calls) in
    (sum_by in_lock s.callers ≡ as_number s.is_held)
    × (length s.order ≡ sum_by past_lock s.callers)
    × (write_all s.order made_logger ≡ once_left s.callers s.logger)
run_callers-write_all_example = run_callers-write_all two_in_turn made_logger two_calls refl

-- Where no call has made the lock before, the second caller makes it anew while the first holds it.
lock_made_twice :
    sum_by in_lock
      (run_callers (0 ∷ 1 ∷ 0 ∷ 0 ∷ 0 ∷ 1 ∷ 1 ∷ 1 ∷ []) (callers_of logger two_calls)).callers
    ≡ 2
unfolding run_callers callers_of sum_by
lock_made_twice = refl

abbrev one_file : Store
one_file = put_file no_files (codes "a") (some hello)

utils_copy_file-text_example :
    (g : Store) × (utils_copy_file 2 (λ i. true) true (codes "a") (codes "b") one_file
      ≡ some (copied g))
    × (g (codes "b") ≡ some hello)
    × ((q : Bytes) → bytes_eq (codes "b") q ≡ false → g q ≡ one_file q)
unfolding bytes_eq
utils_copy_file-text_example =
    utils_copy_file-text 1 (λ i. true) (codes "a") (codes "b") hello one_file refl (λ j. refl)

split_all-record_line_example :
    split_all 5 log_file_filter (
      some (
        record_line (codes "update-1.upt") (codes "bugfix") (negsuc 0) log_date (codes "10:00:00")))
    ≡ some (
        codes "update-1.upt" ∷ codes "-1" ∷ codes "bugfix" ∷ (log_date ++ codes " 10:00:00\n") ∷ [])
unfolding decimal_int decimal
split_all-record_line_example =
    split_all-record_line (codes "update-1.upt") (codes "bugfix") log_date (codes "10:00:00")
      (negsuc 0) (ground arith) (ground arith) (ground arith)

abbrev record_calls : List RecordCall
record_calls =
    record {
      upt_name = some (codes "update-1.upt");
      upt_type = some (codes "bugfix");
      action = b'u';
      upt_state = negsuc 0;
      datestr = log_date;
      timestr = codes "10:00:00";
      opens = true;
    }
    ∷ record {
      upt_name = some (codes "update-1.upt");
      upt_type = some (codes "bugfix");
      action = b'i';
      upt_state = pos 0;
      datestr = log_date;
      timestr = codes "10:05:00";
      opens = true;
    }
    ∷ []

write_records-lines_example :
    (text_of (write_records record_calls no_files installed_log_file)
      ≡ installed_lines record_calls)
    × (text_of (write_records record_calls no_files not_installed_log_file)
        ≡ pending_lines [] record_calls)
    × ((q : Bytes)
        → bytes_eq installed_log_file q ≡ false
        → bytes_eq not_installed_log_file q ≡ false
        → write_records record_calls no_files q ≡ no_files q)
write_records-lines_example = write_records-lines record_calls no_files
