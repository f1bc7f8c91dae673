-- ===== src/Debresolve/Subproc.antt =====
-- `deb_subproc_check`, `deb_subproc_wait` and `deb_subproc_reap` of daemon/debresolve.c.
use isoft_package_installer.Base.{
  ◌==◌, if◌then◌else◌, ℕ, zero, suc, ◌≡◌, Bool, false, ◌&&◌, ◌||◌, Option, none, some, List, [],
  ◌∷◌, arith,
}

-- A status as `WIFEXITED`, `WEXITSTATUS`, `WIFSIGNALED` and `WTERMSIG` read it; the -1 that
-- `deb_subproc_wait` returns for a failure is neither.
pub data Status : Type 0 where
  exited_with : ℕ → Status
  signaled_by : ℕ → Status
  neither : Status

-- `enum subproc_flags` of libdpkg, as far as the code reads it.
pub record SubprocFlags : Type 0 where
  pub nopipe : Bool
  pub nocheck : Bool
  pub reterror : Bool
  pub retsigno : Bool

-- The returned int: a status that is passed on, a number, or -1.
pub data Code : Type 0 where
  raw : Status → Code
  number_of : ℕ → Code
  minus_one : Code

-- `SIGPIPE`
abbrev pub sigpipe : ℕ
sigpipe = 13

unfoldable pub deb_subproc_check : Status → SubprocFlags → Code
deb_subproc_check (exited_with n) flags =
    if n == 0 then number_of 0 else if flags.reterror then number_of n else minus_one
deb_subproc_check (signaled_by n) flags =
    if n == 0
    then number_of 0
    else if flags.nopipe && (n == sigpipe)
    then number_of 0
    else if flags.retsigno
    then number_of n
    else minus_one
deb_subproc_check neither flags = minus_one

-- What a call of `waitpid` gives: -1 with EINTR, -1 with another error, or a process with its status.
pub data Answer : Type 0 where
  interrupted : Answer
  no_child : Answer
  died : ℕ → Status → Answer

-- The calls of `waitpid` in order; `none` where they are not enough for the loop to end.
unfoldable pub deb_subproc_wait : ℕ → List Answer → Option Status
deb_subproc_wait pid [] = none
deb_subproc_wait pid (interrupted ∷ l) = deb_subproc_wait pid l
deb_subproc_wait pid (no_child ∷ l) = some neither
deb_subproc_wait pid (died dead status ∷ l) = if dead == pid then some status else some neither

unfoldable pub deb_subproc_reap : ℕ → SubprocFlags → List Answer → Option Code
unfolding deb_subproc_wait deb_subproc_check
deb_subproc_reap pid flags l = elim (deb_subproc_wait pid l) [
  | none ↦ none
  | some status ↦ some (if flags.nocheck then raw status else deb_subproc_check status flags)
]

abbrev pub interruptions : ℕ → List Answer → List Answer
interruptions zero l = l
interruptions (suc n) l = interrupted ∷ interruptions n l

-- A process that ended well: with the code 0, or at a closed pipe where that is allowed. The test
-- on the signal 0 is part of the code.
abbrev pub ended_well : Bool → Status → Bool
ended_well nopipe (exited_with n) = n == 0
ended_well nopipe (signaled_by n) = (n == 0) || (nopipe && (n == sigpipe))
ended_well nopipe neither = false

-- With none of the flags that ask for codes, and however often `waitpid` is interrupted before it
-- gives the awaited process: `deb_subproc_reap` returns 0 if the process ended with the code 0 or
-- by SIGPIPE where the flag for pipes is set, and -1 else.
pub deb_subproc_reap-ended_well :
    (pid n : ℕ) (nopipe : Bool) (status : Status) (l : List Answer)
    → deb_subproc_reap pid
        (record { nopipe = nopipe; nocheck = false; reterror = false; retsigno = false })
        (interruptions n (died pid status ∷ l))
      ≡ some (if ended_well nopipe status then number_of 0 else minus_one)
unfolding deb_subproc_reap deb_subproc_wait deb_subproc_check
deb_subproc_reap-ended_well pid (suc n) nopipe status l =
    deb_subproc_reap-ended_well pid n nopipe status l
deb_subproc_reap-ended_well pid zero nopipe (exited_with m) l = ground arith
deb_subproc_reap-ended_well pid zero nopipe (signaled_by m) l = ground arith
deb_subproc_reap-ended_well pid zero nopipe neither l = ground arith
