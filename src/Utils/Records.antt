-- ===== src/Utils/Records.antt =====
-- `write_upt_reocord_file` of daemon/utils.c.
use isoft_package_installer.Utils.LogWriter.{Store, put_file, text_of, is_blank}
use isoft_package_installer.Base.{
  ◌==◌, if◌then◌else◌, Bytes, codes, ℤ, decimal_int, ℕ, Bool, ◌||◌, Option, none, some, [], ◌∷◌,
  ◌++◌,
}

abbrev pub installed_log_file : Bytes
installed_log_file = codes "/etc/update/updates/updated.log"

abbrev pub not_installed_log_file : Bytes
not_installed_log_file = codes "/etc/update/updates/updating.log"

-- `LOG_FILE_FILTER`
abbrev pub log_file_filter : Bytes
log_file_filter = codes "|||"

-- `"%s%s%d%s%s%s%s %s\n"`
unfoldable pub record_line : Bytes → Bytes → ℤ → Bytes → Bytes → Bytes
unfolding decimal_int
record_line upt_name type state datestr timestr =
    upt_name
    ++ (log_file_filter
        ++ (decimal_int state
            ++ (log_file_filter
                ++ (type ++ (log_file_filter ++ (datestr ++ (b' ' ∷ (timestr ++ (b'\n' ∷ [])))))))))

-- `fopen (path, "a")`, `fprintf` and `fclose`, where the file opens.
abbrev pub append_to : Bool → Bytes → Bytes → Store → Store
append_to opens path text f = if opens then put_file f path (some (text_of (f path) ++ text)) else f

-- The call, which always returns 0. The file is opened before the other is removed.
unfoldable pub write_upt_reocord_file :
    Option Bytes → Option Bytes → ℕ → ℤ → Bytes → Bytes → Bool → Store → Store
unfolding record_line
write_upt_reocord_file upt_name type action state datestr timestr opens f =
    let text = record_line (text_of upt_name) (text_of type) state datestr timestr in
    if is_blank upt_name || is_blank type
    then f
    else if action == b'u'
    then append_to opens not_installed_log_file text f
    else put_file (append_to opens installed_log_file text f) not_installed_log_file none
