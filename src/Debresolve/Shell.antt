-- ===== src/Debresolve/Shell.antt =====
-- The commands of daemon/debresolve.c: `deb_subproc_fork`, `deb_dup2`, `deb_output`,
-- `deb_command_init`, `deb_command_shell` and `movecontrolfiles`.
use isoft_package_installer.Debresolve.Subproc.{
  Code, SubprocFlags, Answer, deb_subproc_reap, number_of, minus_one, Status, interrupted, no_child,
  died, interruptions, ended_well, deb_subproc_check, deb_subproc_wait, deb_subproc_reap-ended_well,
}
use isoft_package_installer.Debresolve.Extract.{control_directory}
use isoft_package_installer.Base.{
  ltb, if◌then◌else◌, Bytes, codes, length, ℕ, ◌≡◌, ◌⊎◌, Bool, true, false, not, Option, none, some,
  List, [], ◌∷◌, ◌++◌, arith, zero, suc, refl, ap, inl, inr,
}

-- What `fork` returns: -1, 0 in the child, or the number of the child in the parent.
pub data Fork : Type 0 where
  no_fork : Fork
  in_child : Fork
  in_parent : ℕ → Fork

-- `deb_subproc_fork`
unfoldable pub deb_subproc_fork : Fork → Fork
deb_subproc_fork no_fork = no_fork
deb_subproc_fork (in_parent pid) = in_parent pid
deb_subproc_fork in_child = in_child

-- The int that a function returns: 0, -1, or none where its end is reached without a `return`.
pub data Result : Type 0 where
  zero_returned : Result
  minus_one_returned : Result
  nothing_returned : Result

-- `deb_output`, by what `ferror` shows.
unfoldable pub deb_output : Bool → Result
deb_output has_error = if has_error then minus_one_returned else nothing_returned

-- `deb_dup2`, by whether `dup2` returns the new descriptor.
unfoldable pub deb_dup2 : Bool → ℕ → Result
deb_dup2 duplicates newfd =
    if duplicates
    then zero_returned
    else if ltb newfd 3
    then minus_one_returned
    else nothing_returned

-- `struct command` of libdpkg. `argv` holds the arguments before the NULL.
pub record Command : Type 0 where
  pub filename : Bytes
  pub command_name : Bytes
  pub argc : ℕ
  pub argv_size : ℕ
  pub argv : List Bytes

-- `deb_command_init`; `path_basename` of libdpkg is the first argument.
unfoldable pub deb_command_init : (Bytes → Bytes) → Bytes → Option Bytes → Command
deb_command_init path_basename file given = record {
  filename = file;
  command_name = elim given [ none ↦ path_basename file | some name ↦ name ];
  argc = 0;
  argv_size = 10;
  argv = [];
}

-- `str_is_unset` of libdpkg: NULL or the empty text.
abbrev or_default : Bytes → Option Bytes → Bytes
or_default default_shell none = default_shell
or_default default_shell (some []) = default_shell
or_default default_shell (some (c ∷ s)) = c ∷ s

-- `deb_command_shell`: the arguments of `execlp`, with the file first. `DEFAULTSHELL` and the
-- variable SHELL are the first arguments; a NULL ends the arguments.
unfoldable pub deb_command_shell : Bytes → Option Bytes → Option Bytes → List Bytes
deb_command_shell default_shell shell_variable none =
    let shell = or_default default_shell shell_variable in shell ∷ shell ∷ codes "-i" ∷ []
deb_command_shell default_shell shell_variable (some cmd) =
    let shell = or_default default_shell none in shell ∷ shell ∷ codes "-c" ∷ cmd ∷ []

-- `sprintf (buf, "mv %s/* . && rmdir %s", thing, thing)`
abbrev pub move_command : Bytes → Bytes
move_command thing = codes "mv " ++ (thing ++ (codes "/* . && rmdir " ++ thing))

-- What becomes of a process in `movecontrolfiles`: the buffer of 200 bytes is overrun, a status is
-- read that nothing has set, it becomes the shell with these arguments, it waits without end, or it
-- goes on in the code of the caller behind this code of `deb_subproc_reap`.
pub data Moved : Type 0 where
  overrun : Moved
  reads_unset : Moved
  becomes : List Bytes → Moved
  waits : Moved
  goes_on : Code → Moved

abbrev after_reap : Option Code → Moved
after_reap none = waits
after_reap (some code) = goes_on code

abbrev pub no_flags : SubprocFlags
no_flags = record { nopipe = false; nocheck = false; reterror = false; retsigno = false }

-- `deb_subproc_reap` for the process -1 after a fork that failed: the -1 of `waitpid` for a
-- process without children is the awaited number, so that the status is returned without being set.
unfoldable pub reap_failed_fork : List Answer → Moved
reap_failed_fork [] = waits
reap_failed_fork (interrupted ∷ l) = reap_failed_fork l
reap_failed_fork (no_child ∷ l) = reads_unset
reap_failed_fork (died pid status ∷ l) = goes_on minus_one

-- `movecontrolfiles`, by whether `execlp` works, what `fork` returns and what `waitpid` answers. A
-- child that could not become the shell waits for the process 0, a number that no process has.
unfoldable pub movecontrolfiles : Bytes → Bool → Fork → List Answer → Bytes → Moved
unfolding deb_subproc_fork deb_command_shell deb_subproc_reap reap_failed_fork
movecontrolfiles default_shell execs f answers thing =
    if not (ltb (length (move_command thing)) 200) then overrun else elim (deb_subproc_fork f) [
      | no_fork ↦ reap_failed_fork answers
      | in_child ↦
          if execs
          then becomes (deb_command_shell default_shell none (some (move_command thing)))
          else after_reap (deb_subproc_reap 0 no_flags answers)
      | in_parent pid ↦ after_reap (deb_subproc_reap pid no_flags answers)
    ]

-- The only texts that reach `movecontrolfiles`.
control_directory-some :
    (wants_admin : Bool) (v : ℕ × ℕ) (d : Bytes)
    → control_directory wants_admin v ≡ some d
    → (d ≡ codes ".DEBIAN") ⊎ (d ≡ codes "DEBIAN")
unfolding control_directory
control_directory-some wants_admin v d h = ground arith

control_directory-fits :
    (wants_admin : Bool) (v : ℕ × ℕ) (d : Bytes)
    → control_directory wants_admin v ≡ some d
    → ltb (length (move_command d)) 200 ≡ true
control_directory-fits wants_admin v d h = elim (control_directory-some wants_admin v d h) [
  | inl e ↦ rw e refl
  | inr e ↦ rw e refl
]

deb_subproc_reap-no_child :
    (pid n : ℕ) (l : List Answer)
    → deb_subproc_reap pid no_flags (interruptions n (no_child ∷ l)) ≡ some minus_one
unfolding deb_subproc_reap deb_subproc_wait deb_subproc_check
deb_subproc_reap-no_child pid zero l = refl
deb_subproc_reap-no_child pid (suc n) l = deb_subproc_reap-no_child pid n l

-- For each directory that `extracthalf` hands to `movecontrolfiles`: the command fits in its buffer,
-- and the child becomes the default shell with that command. The parent, however often its wait is
-- interrupted, goes on with 0 if the shell ended with the code 0 or no signal, and with -1 else. A
-- child that cannot become the shell goes on too, in the code of the parent, with -1.
pub control_directory-movecontrolfiles :
    (default_shell : Bytes) (wants_admin : Bool) (v : ℕ × ℕ) (d : Bytes) (execs : Bool) (pid n : ℕ)
    (status : Status) (l : List Answer) (h : control_directory wants_admin v ≡ some d)
    → (movecontrolfiles default_shell true in_child l d
        ≡ becomes (default_shell ∷ default_shell ∷ codes "-c" ∷ move_command d ∷ []))
      × (movecontrolfiles default_shell execs
            (in_parent pid)
            (interruptions n (died pid status ∷ l))
            d
          ≡ goes_on (if ended_well false status then number_of 0 else minus_one))
      × (movecontrolfiles default_shell false in_child (interruptions n (no_child ∷ l)) d
          ≡ goes_on minus_one)
unfolding movecontrolfiles deb_subproc_fork deb_command_shell
control_directory-movecontrolfiles default_shell wants_admin v d execs pid n status l h =
    rw (control_directory-fits wants_admin v d h) (
      refl,
      ap after_reap (deb_subproc_reap-ended_well pid n false status l),
      ap after_reap (deb_subproc_reap-no_child 0 n l),
    )
