-- ===== src/Utils/LogWriter.antt =====
-- `do_write_log` of daemon/utils.c and the calls over it. A call is a function of the state that
-- the last one left; LogLock has the calls of several threads.
use isoft_package_installer.Utils.LogFiles.{log_file_path, LogDirectory, get_next_log_file}
use isoft_package_installer.Base.{
  ltb, ◌==◌, if◌then◌else◌, decimal, Bytes, codes, bytes_eq, length, take, ℕ, ◌-◌, ◌%◌, Bool, true,
  false, not, ◌&&◌, ◌||◌, Option, none, some, [], ◌∷◌, ◌++◌,
}

-- The files by their paths.
abbrev pub Store : Type 0
Store = Bytes → Option Bytes

abbrev pub put_file : Store → Bytes → Option Bytes → Store
put_file f path v q = if bytes_eq path q then v else f q

abbrev pub text_of : Option Bytes → Bytes
text_of none = []
text_of (some s) = s

-- The statics of the file, and the disk.
pub record Logger : Type 0 where
  pub g_log_level : ℕ
  pub g_log_lock_inited : Bool
  pub store : Store

-- What a call finds: the texts of `localtime`, the process, whether `fopen` succeeds, the log
-- directory, whether the first and the second `rename` succeed, and whether `mkdir` succeeds or
-- finds the directory there.
pub record Moment : Type 0 where
  pub datestr : Bytes
  pub timestr : Bytes
  pub pid : ℕ
  pub opens : Bool
  pub directory : LogDirectory
  pub renames : Bool
  pub renames_again : Bool
  pub makes_directory : Bool

-- `LOG_ERR`, `LOG_NOTICE` and `LOG_DEBUG` of syslog.h
abbrev pub log_err : ℕ
log_err = 3

abbrev pub log_notice : ℕ
log_notice = 5

abbrev pub log_debug : ℕ
log_debug = 7

abbrev pub log_max_line_size : ℕ
log_max_line_size = 1024

abbrev pub log_max_file_size : ℕ
log_max_file_size = 10485760

-- `g_get_log_level_name[level]`
unfoldable pub level_name : ℕ → Bytes
level_name n =
    if n == 0
    then codes "EMERG"
    else if n == 1
    then codes "ALERT"
    else if n == 2
    then codes "CRITI"
    else if n == 3
    then codes "ERROR"
    else if n == 4
    then codes "WARNING"
    else if n == 5
    then codes "NOTICE"
    else if n == 6
    then codes "INFO"
    else codes "DEBUG"

-- `"%s/%s.log"`
abbrev pub current_path : Bytes → Bytes
current_path date = log_file_path ++ (b'/' ∷ (date ++ codes ".log"))

-- `"%s %s (%s:%d): %s: %s\n"`, with what `vsnprintf` leaves of the text.
unfoldable pub log_line : ℕ → Bytes → Moment → Bytes
unfolding level_name
log_line log_level text m =
    m.datestr
    ++ (b' '
        ∷ (m.timestr
            ++ (codes " (isoft-install-daemon:"
                ++ (decimal m.pid
                    ++ (codes "): "
                        ++ (level_name (log_level % 8)
                            ++ (codes ": "
                                ++ (take (log_max_line_size - 2) text ++ (b'\n' ∷ [])))))))))

-- `rename`, which replaces what is there.
abbrev pub rename : Store → Bytes → Bytes → Store
rename f from to = put_file (put_file f to (f from)) from none

-- The two attempts to move the full file.
unfoldable pub move_file : Moment → Store → Bytes → Bytes → Store
move_file m f from to =
    if m.renames
    then rename f from to
    else if m.renames_again
    then rename (put_file f to none) from to
    else put_file f to none

-- Behind the `fprintf`: a file that is too long now gets a number.
unfoldable pub after_line : Moment → Store → Option Store
unfolding move_file get_next_log_file
after_line m f =
    let current = current_path m.datestr in
    if ltb log_max_file_size (length (text_of (f current)))
    then elim (get_next_log_file m.directory m.datestr 512) [
      | none ↦ none
      | some target ↦ some (move_file m f current target)
    ]
    else some f

abbrev pub is_blank : Option Bytes → Bool
is_blank none = true
is_blank (some []) = true
is_blank (some (c ∷ s)) = false

-- `do_write_log`. `text` is what the format and the arguments make; `none` is a name that is read
-- from memory which nothing has set.
unfoldable pub do_write_log : ℕ → Option Bytes → Bytes → Moment → Logger → Option Logger
unfolding after_line log_line
do_write_log log_level fmt text m g =
    let current = current_path m.datestr in
    let longer = text_of (g.store current) ++ log_line log_level text m in
    if ltb g.g_log_level log_level || (is_blank fmt || not m.opens)
    then some g
    else elim (after_line m (put_file g.store current (some longer))) [
      | none ↦ none
      | some f ↦ some (record g { store = f })
    ]

-- What a call returns: 0, -1, or nothing where the end of a function with a result is reached.
pub data Returned : Type 0 where
  zero_code : Returned
  minus_one_code : Returned
  no_code : Returned

-- The common body of the four calls, with what they return.
unfoldable pub logged :
    Returned → ℕ → Option Bytes → Bytes → Moment → Logger → Option (Returned × Logger)
unfolding do_write_log
logged code log_level fmt text m g =
    if not g.g_log_lock_inited && not m.makes_directory
    then some (minus_one_code, g)
    else elim (do_write_log log_level fmt text m (record g { g_log_lock_inited = true })) [
      | none ↦ none
      | some g' ↦ some (code, g')
    ]

-- `_write_log`
unfoldable pub write_log_plain : Option Bytes → Bytes → Moment → Logger → Option (Returned × Logger)
unfolding logged
write_log_plain fmt text m g = logged no_code log_debug fmt text m g

unfoldable pub write_log : ℕ → Option Bytes → Bytes → Moment → Logger → Option (Returned × Logger)
unfolding logged
write_log log_level fmt text m g = logged zero_code log_level fmt text m g

unfoldable pub write_error_log : Option Bytes → Bytes → Moment → Logger → Option (Returned × Logger)
unfolding logged
write_error_log fmt text m g = logged zero_code log_err fmt text m g

unfoldable pub write_debug_log : Option Bytes → Bytes → Moment → Logger → Option (Returned × Logger)
unfolding logged
write_debug_log fmt text m g = logged zero_code log_debug fmt text m g

unfoldable pub set_write_log_level : ℕ → Logger → Logger
set_write_log_level log_level g = record g { g_log_level = log_level }

abbrev pub logger_init : Store → Logger
logger_init f = record { g_log_level = log_notice; g_log_lock_inited = false; store = f }
