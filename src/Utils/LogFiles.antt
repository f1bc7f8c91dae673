-- ===== src/Utils/LogFiles.antt =====
-- `get_next_log_file` of daemon/utils.c: the name under which a full log file is kept.
use isoft_package_installer.Base.{
  ltb, if◌then◌else◌, decimal, atoi, Bytes, codes, bytes_eq, starts_with, length, take, drop, ℕ,
  ◌+◌, ◌-◌, Bool, not, ◌||◌, Option, none, some, List, [], ◌∷◌, ◌++◌, int_max,
}

abbrev pub log_file_path : Bytes
log_file_path = codes "/var/log/isoft-install"

-- What `readdir` gives of the log directory, and for which names `stat`, in the working directory,
-- finds a directory.
pub record LogDirectory : Type 0 where
  pub names : Option (List Bytes)
  pub is_dir : Bytes → Bool
  pub nowtime : ℕ

abbrev pub is_dots : Bytes → Bool
is_dots name = bytes_eq name (codes ".") || bytes_eq name (codes "..")

abbrev pub max : ℕ → ℕ → ℕ
max id max_id = if ltb max_id id then id else max_id

-- `atoi (entry->d_name + len + 1)`: `none` where the name ends before that and the read is behind
-- its NUL, and where the number is no int.
unfoldable pub log_id : Bytes → Bytes → Option ℕ
unfolding atoi
log_id date name =
    if ltb (length date) (length name) then atoi (drop (length date + 1) name) else none

-- The loop, with `max_id`.
unfoldable pub max_log_id : (Bytes → Bool) → Bytes → List Bytes → ℕ → Option ℕ
unfolding log_id starts_with
max_log_id is_dir date [] max_id = some max_id
max_log_id is_dir date (name ∷ names) max_id =
    let skipped = max_log_id is_dir date names max_id in
    if is_dots name || (is_dir name || not (starts_with date name))
    then skipped
    else elim (log_id date name) [
      | none ↦ none
      | some id ↦ max_log_id is_dir date names (max id max_id)
    ]

-- `"%s/%s_%d.log"` within `dst_len - 1` bytes, the NUL among them.
abbrev pub numbered : ℕ → Bytes → ℕ → Bytes
numbered dst_len date id =
    take (dst_len - 2) (log_file_path ++ (b'/' ∷ (date ++ (b'_' ∷ (decimal id ++ codes ".log")))))

-- `max_id ++` and the name. The sum is undefined behind the largest int.
unfoldable pub next_name : ℕ → Bytes → Option ℕ → Option Bytes
next_name dst_len date none = none
next_name dst_len date (some id) =
    if ltb id int_max then some (numbered dst_len date (id + 1)) else none

-- The text in `dst_file`, where `date` is given; `none` where the code is undefined.
unfoldable pub get_next_log_file : LogDirectory → Bytes → ℕ → Option Bytes
unfolding max_log_id next_name
get_next_log_file d date dst_len = elim d.names [
  | none ↦
      some (
        take (dst_len - 2)
          (log_file_path ++ (codes "/tmp_" ++ (decimal d.nowtime ++ codes ".log"))))
  | some names ↦ next_name dst_len date (max_log_id d.is_dir date names 0)
]

-- A name that the code has given before.
abbrev pub kept_name : Bytes → ℕ → Bytes
kept_name date k = date ++ (b'_' ∷ (decimal k ++ codes ".log"))
