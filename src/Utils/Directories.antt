-- ===== src/Utils/Directories.antt =====
-- `utils_remove_dir` and `utils_find_file` of daemon/utils.c. `error_exit` ends the process, and what
-- was removed before stays removed. The working directory, which is changed and restored, is taken
-- to be where the paths say.
use isoft_package_installer.Base.{
  ◌==◌, if◌then◌else◌, Bytes, bytes_eq, Bool, true, false, Option, none, some, [], ◌∷◌, codes, ◌||◌,
}

-- What `readdir` gives of a directory, without "." and "..": each name with a file that can be
-- removed, one that cannot be, a directory that can be entered, with whether `remove` succeeds once
-- it is empty, or one that cannot.
mutual
  pub data Content : Type 0 where
    removable : Content
    fixed_file : Content
    folder : Bool → Listing → Content
    locked_folder : Content

  pub data Listing : Type 0 where
    nothing : Listing
    named : Bytes → Content → Listing → Listing

abbrev pub is_hidden : Bytes → Bool
is_hidden [] = false
is_hidden (c ∷ s) = c == b'.'

-- The call returns 0 and the thing is gone, or the process ends and this is left.
pub data Removal : Type 0 where
  removed : Removal
  exited : Content → Removal

-- The loop came to its end and leaves this, or the process ended in it.
pub data Sweep : Type 0 where
  swept : Listing → Sweep
  stopped : Listing → Sweep

unfoldable pub keep : Bytes → Content → Sweep → Sweep
keep file c (swept l) = swept (named file c l)
keep file c (stopped l) = stopped (named file c l)

unfoldable pub after_entry : Bytes → Listing → Removal → Sweep → Sweep
after_entry file l removed others = others
after_entry file l (exited c) others = stopped (named file c l)

-- `remove (dir)` at the end, which removes an empty directory only, and not that of a mount point or
-- of a parent that cannot be written.
unfoldable pub after_loop : Bool → Sweep → Removal
after_loop true (swept nothing) = removed
after_loop false (swept nothing) = exited (folder false nothing)
after_loop b (swept (named file c l)) = exited (folder b (named file c l))
after_loop b (stopped l) = exited (folder b l)

unfoldable mutual
  unfolding keep after_entry after_loop

  -- `remove`, or `utils_remove_dir` for a directory.
  pub remove_content : Content → Removal
  remove_content removable = removed
  remove_content fixed_file = exited fixed_file
  remove_content locked_folder = exited locked_folder
  remove_content (folder b l) = after_loop b (sweep l)

  pub sweep : Listing → Sweep
  sweep nothing = swept nothing
  sweep (named file c l) =
      let others = sweep l in
      let one = remove_content c in
      if is_hidden file then keep file c others else after_entry file l one others

-- What cannot be entered ends the process before anything is removed.
unfoldable pub utils_remove_dir : Content → Removal
unfolding remove_content
utils_remove_dir (folder b l) = remove_content (folder b l)
utils_remove_dir removable = exited removable
utils_remove_dir fixed_file = exited fixed_file
utils_remove_dir locked_folder = exited locked_folder

-- `utils_find_file` in a directory or in what cannot be opened, where `none` is the end of the
-- process.
unfoldable pub has_name : Bytes → Listing → Bool
has_name name nothing = false
has_name name (named file c l) =
    let rest = has_name name l in if bytes_eq file name then true else rest

abbrev is_dots : Bytes → Bool
is_dots name = bytes_eq name (codes ".") || bytes_eq name (codes "..")

unfoldable pub utils_find_file : Option Listing → Bytes → Option Bool
unfolding has_name
utils_find_file path name = elim path [
  | none ↦ none
  | some l ↦ some (is_dots name || has_name name l)
]
