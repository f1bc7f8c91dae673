-- ===== src/Utils/Files.antt =====
-- `utils_check_number` and `utils_copy_file` of daemon/utils.c.
use isoft_package_installer.Utils.LogWriter.{Store, put_file, text_of}
use isoft_package_installer.Base.{
  if◌then◌else◌, is_digit, Bytes, length, take, drop, ℕ, zero, suc, Bool, true, false, Option, none,
  some, [], ◌∷◌, ◌++◌,
}

unfoldable pub check_digits : Bytes → Bool
check_digits [] = true
check_digits (c ∷ s) = let rest = check_digits s in if is_digit c then rest else false

-- `none` is NULL.
unfoldable pub utils_check_number : Option Bytes → Bool
unfolding check_digits
utils_check_number none = false
utils_check_number (some s) = check_digits s

-- A return of 0 or of -1, or the end of the process by `error_exit`, each with the files.
pub data Copied : Type 0 where
  copied : Store → Copied
  write_failed : Store → Copied
  ended : Store → Copied

-- The loop: what is left to read, the number of the round, and what was written. `writes` says in
-- which rounds `fwrite` succeeds. A round reads a byte at least or is the last, so one round more
-- than there are bytes is enough.
unfoldable pub copy_rounds : ℕ → (ℕ → Bool) → ℕ → ℕ → Bytes → Bytes → Option (Bool × Bytes)
copy_rounds bufsiz writes zero i left out = none
copy_rounds bufsiz writes (suc f) i left out =
    let rest = copy_rounds bufsiz writes f (suc i) (drop bufsiz left) (out ++ take bufsiz left) in
    elim (take bufsiz left) [
      | [] ↦ some (true, out)
      | c ∷ cs ↦ if writes i then rest else some (false, out)
    ]

abbrev pub finish_copy : Store → Bytes → Option (Bool × Bytes) → Option Copied
finish_copy f dest none = none
finish_copy f dest (some (true, out)) = some (copied (put_file f dest (some out)))
finish_copy f dest (some (false, out)) = some (write_failed (put_file f dest (some out)))

-- The destination is emptied by its `fopen` before anything is read.
unfoldable pub copy_opened : ℕ → (ℕ → Bool) → Bytes → Bytes → Store → Option Copied
unfolding copy_rounds
copy_opened bufsiz writes src dest f =
    let emptied = put_file f dest (some []) in
    let left = text_of (emptied src) in
    finish_copy emptied dest (copy_rounds bufsiz writes (suc (length left)) 0 left [])

-- `can_write` is the `fopen` of the destination. `none` is fuel that runs out.
unfoldable pub utils_copy_file : ℕ → (ℕ → Bool) → Bool → Bytes → Bytes → Store → Option Copied
unfolding copy_opened
utils_copy_file bufsiz writes can_write src dest f = elim (f src) [
  | none ↦ some (ended f)
  | some text ↦ if can_write then copy_opened bufsiz writes src dest f else some (ended f)
]
