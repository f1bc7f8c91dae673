-- ===== src/Utils/LogLock.antt =====
-- The lock of daemon/utils.c: callers of `write_log` in several threads, whose steps interleave.
pub mod Callers
pub mod Runs
use isoft_package_installer.Utils.LogWriter.{Logger, do_write_log}
use isoft_package_installer.Utils.LogRuns.{LogCall}
use isoft_package_installer.Base.{
  if◌then◌else◌, get_elem?, set, ℕ, Bool, true, false, Option, none, some, List, [], ◌∷◌, ◌++◌,
}

-- A caller before the test of `g_log_lock_inited`, before `mkdir`, before `pthread_mutex_init`,
-- before `pthread_mutex_lock`, in `do_write_log` with what it has found at its start, before
-- `pthread_mutex_unlock`, and behind its call.
pub data Caller : Type 0 where
  before_test before_mkdir before_init before_lock : LogCall → Caller
  in_log : LogCall → Logger → Caller
  before_unlock call_over : Caller

-- The statics and the disk (`none` once `do_write_log` has read what nothing has set), whether
-- `g_log_lock` is held, the callers, and the calls that have got the lock, in their order.
pub record Shared : Type 0 where
  pub logger : Option Logger
  pub is_held : Bool
  pub callers : List Caller
  pub order : List LogCall

-- The caller at this place goes on as another.
abbrev pub becomes : ℕ → Caller → Shared → Shared
becomes i t s = record s { callers = set s.callers i t }

-- `do_write_log` for a call.
abbrev pub done_log : LogCall → Logger → Option Logger
done_log c g = do_write_log c.log_level c.fmt c.text c.moment g

-- The next step of the caller at place `i`. A lock that is held lets nobody on, and
-- `pthread_mutex_init` leaves it free, whether it was or not.
unfoldable pub caller_step : ℕ → Caller → Logger → Shared → Shared
unfolding do_write_log
caller_step i (before_test c) g s =
    becomes i (if g.g_log_lock_inited then before_lock c else before_mkdir c) s
caller_step i (before_mkdir c) g s =
    if c.moment.makes_directory
    then becomes i (before_init c)
        (record s { logger = some (record g { g_log_lock_inited = true }) })
    else becomes i call_over s
caller_step i (before_init c) g s = becomes i (before_lock c) (record s { is_held = false })
caller_step i (before_lock c) g s =
    if s.is_held
    then s
    else becomes i (in_log c g) (record s { is_held = true; order = s.order ++ (c ∷ []) })
caller_step i (in_log c found_logger) g s =
    becomes i before_unlock (record s { logger = done_log c found_logger })
caller_step i before_unlock g s = becomes i call_over (record s { is_held = false })
caller_step i call_over g s = s

unfoldable pub callers_step : ℕ → Shared → Shared
unfolding caller_step
callers_step i s = elim s.logger [
  | none ↦ s
  | some g ↦ elim (get_elem? s.callers i) [ none ↦ s | some t ↦ caller_step i t g s ]
]

unfoldable pub run_callers : List ℕ → Shared → Shared
unfolding callers_step
run_callers [] s = s
run_callers (i ∷ is) s = run_callers is (callers_step i s)

unfoldable pub all_callers : List LogCall → List Caller
all_callers [] = []
all_callers (c ∷ cs) = before_test c ∷ all_callers cs

unfoldable pub callers_of : Logger → List LogCall → Shared
unfolding all_callers
callers_of g cs = record { logger = some g; is_held = false; callers = all_callers cs; order = [] }
