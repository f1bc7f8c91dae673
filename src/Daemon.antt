-- ===== src/Daemon.antt =====
-- The D-Bus object of daemon/daemon.c: its private state, the two methods, the two routines that
-- run in threads of their own, and the callbacks that these hand to `install_rpm` and
-- `install_deb`. A run is a list of events, so the threads and the main loop interleave freely.
pub mod Weights
pub mod Steps
pub mod Sessions
pub mod Races
pub mod Lifecycle
pub mod Exclusion
pub mod Signals
pub mod Locking
pub mod Lives
pub mod Held
pub mod Delivery
pub mod Origin
use isoft_package_installer.Base.{
  ℕ, Bool, true, false, Option, none, some, List, [], ◌∷◌, ◌++◌, Bytes, codes, bytes_eq, get_elem?,
  set, if◌then◌else◌, ◌==◌, ◌&&◌, not, ◌||◌,
}

-- `enum Status` of daemon/daemon.h
pub data Status : Type 0 where
  deb2rpm install_install : Status

-- A C double of the program: a quotient `num / den`. The literal 0.2 is 2 / 10, and the rounding
-- of `((float) amount) / total` is left out.
pub record Percent : Type 0 where
  pub num : ℕ
  pub den : ℕ

-- `*percent == 1.0`
abbrev pub is_one : Percent → Bool
is_one p = p.num == p.den

-- The D-Bus signals of the interface.
pub data Signal : Type 0 where
  percent_changed : Status → Option Bytes → Percent → Signal
  error : Bytes → Signal
  finished : Status → Signal

-- How far a thread is: in `install_deb_routine` before its read of `priv->deb`, in `install_deb`,
-- and behind the last write; in `install_rpm_routine` before its read of `priv->rpm_list`, in
-- `install_rpm`, behind `rpm_list = NULL`, behind the signal, and behind the last write.
pub data Thread : Type 0 where
  deb_started : Thread
  deb_running : Option Bytes → Thread
  deb_gone : Thread
  rpm_started : Thread
  rpm_running : List Bytes → Thread
  rpm_cleared rpm_announced rpm_gone : Thread

-- The fields of `DaemonPrivate` that the two methods and the routines work on, the signals that
-- were emitted, oldest first, and the threads that were made. A list of files is never NULL: the
-- empty `GList` is NULL.
pub record Daemon : Type 0 where
  pub task_locked : Bool
  pub rpm_list : List Bytes
  pub deb : Option Bytes
  pub emitted : List Signal
  pub threads : List Thread

abbrev emit : Signal → Daemon → Daemon
emit s d = record d { emitted = d.emitted ++ (s ∷ []) }

-- `g_thread_new`
abbrev spawn : Thread → Daemon → Daemon
spawn t d = record d { threads = d.threads ++ (t ∷ []) }

-- `daemon_init`, on the zeroed memory of a new object.
unfoldable pub daemon_init : Daemon
daemon_init = record { task_locked = false; rpm_list = []; deb = none; emitted = []; threads = [] }

unfoldable pub rpm_progress_handle : Percent → Option Bytes → Daemon → Daemon
rpm_progress_handle progress none d = d
rpm_progress_handle progress (some filename) d =
    emit (percent_changed install_install (some filename) progress) d

unfoldable pub rpm_problem_handler : Bytes → Daemon → Daemon
rpm_problem_handler problem d = emit (error problem) d

abbrev pub is_empty : Bytes → Bool
is_empty [] = true
is_empty (c ∷ s) = false

unfoldable pub deb_converted_handler : Percent → Bytes → Daemon → Daemon
deb_converted_handler percent filename d =
    let said : Daemon = emit (percent_changed deb2rpm d.deb percent) d in
    if not (is_one percent) || is_empty filename
    then said
    else spawn rpm_started (record said { rpm_list = said.rpm_list ++ (filename ∷ []) })

unfoldable pub deb_problem_handler : Bytes → Daemon → Daemon
deb_problem_handler problem d = emit (error problem) d

abbrev pub task_locked_message : Bytes
task_locked_message = codes "task locked"

abbrev pub src_rpm_note : Bytes
src_rpm_note = codes "NOTE: src.rpm will not be rebuilt to binary rpm"

abbrev pub rpm_type : Bytes
rpm_type = codes "application/x-rpm"

abbrev pub deb_type : Bytes
deb_type = codes "application/vnd.debian.binary-package"

abbrev pub source_rpm_type : Bytes
source_rpm_type = codes "application/x-source-rpm"

abbrev add_rpm : Bytes → Daemon → Daemon
add_rpm file d = record d { rpm_list = d.rpm_list ++ (file ∷ []) }

-- The three tests of `daemon_add_install`, on the content type that GLib guesses.
unfoldable pub add_install_as : Bytes → Bytes → Daemon → Daemon
unfolding rpm_problem_handler
add_install_as type file d =
    if bytes_eq type rpm_type
    then add_rpm file d
    else if bytes_eq type deb_type
    then if d.task_locked
      then rpm_problem_handler task_locked_message d
      else spawn deb_started (record d { deb = some file })
    else if bytes_eq type source_rpm_type
    then add_rpm file (rpm_problem_handler src_rpm_note d)
    else d

abbrev pub is_null : List Bytes → Bool
is_null [] = true
is_null (x ∷ l) = false

unfoldable pub daemon_install : Daemon → Daemon
unfolding rpm_problem_handler
daemon_install d =
    if d.task_locked
    then rpm_problem_handler task_locked_message d
    else let locked : Daemon = record d { task_locked = true } in
      if is_null d.rpm_list then locked else spawn rpm_started locked

-- The next step of the routines' own code, for the thread at place `i`.
unfoldable pub routine_step : ℕ → Thread → Daemon → Daemon
routine_step i deb_started d = record d { threads = set d.threads i (deb_running d.deb) }
routine_step i (deb_running file) d = record d {
  threads = set d.threads i deb_gone;
  task_locked = false;
}
routine_step i deb_gone d = d
routine_step i rpm_started d = record d { threads = set d.threads i (rpm_running d.rpm_list) }
routine_step i (rpm_running files) d = record d {
  threads = set d.threads i rpm_cleared;
  rpm_list = [];
}
routine_step i rpm_cleared d =
    emit (finished install_install) (record d { threads = set d.threads i rpm_announced })
routine_step i rpm_announced d = record d {
  threads = set d.threads i rpm_gone;
  task_locked = false;
}
routine_step i rpm_gone d = d

-- What `install_deb` and `install_rpm` may call while they run.
pub data Callback : Type 0 where
  progress : Percent → Option Bytes → Callback
  rpm_problem : Bytes → Callback
  converted : Percent → Bytes → Callback
  deb_problem : Bytes → Callback

unfoldable pub call_back : Thread → Callback → Daemon → Daemon
unfolding rpm_progress_handle rpm_problem_handler deb_converted_handler deb_problem_handler
call_back (rpm_running files) (progress p f) d = rpm_progress_handle p f d
call_back (rpm_running files) (rpm_problem m) d = rpm_problem_handler m d
call_back (deb_running file) (converted p f) d = deb_converted_handler p f d
call_back (deb_running file) (deb_problem m) d = deb_problem_handler m d
call_back t c d = d

-- A method call, a step of a thread's routine, or a callback from within one.
pub data Event : Type 0 where
  add_install : Bytes → Event
  install : Event
  advance : ℕ → Event
  calls : ℕ → Callback → Event

-- `guess` is `g_content_type_guess` of a name, with no data.
module _ (guess : Bytes → Bytes) where
  unfoldable pub daemon_add_install : Bytes → Daemon → Daemon
  daemon_add_install file d = add_install_as (guess file) file d

  unfoldable pub step : Event → Daemon → Daemon
  unfolding daemon_add_install
  step (add_install file) d = daemon_add_install file d
  step install d = daemon_install d
  step (advance i) d = elim (get_elem? d.threads i) [ none ↦ d | some t ↦ routine_step i t d ]
  step (calls i c) d = elim (get_elem? d.threads i) [ none ↦ d | some t ↦ call_back t c d ]

  unfoldable pub run : List Event → Daemon → Daemon
  unfolding step
  run [] d = d
  run (e ∷ es) d = run es (step e d)
