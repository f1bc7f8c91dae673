-- ===== src/Daemon/Locking.antt =====
-- The flag `task_locked` and the calls that it refuses.
use isoft_package_installer.Base.{
  ℕ, true, false, some, List, [], ◌∷◌, Bytes, get_elem?, ◌≡◌, arith, sum_by, weight-le-sum_by,
}
use isoft_package_installer.Daemon.{
  Daemon, Thread, deb_gone, rpm_gone, Event, add_install, install, advance, calls, Callback, step,
  run, routine_step, call_back, add_install_as, daemon_install, task_locked_message,
  rpm_problem_handler,
}
use isoft_package_installer.Daemon.Weights.{live, at_thread}

-- The lock is held, and no thread is left that could free it.
pub record IsStuck (d : Daemon) : Type 0 where
  pub locked : d.task_locked ≡ true
  pub nobody : sum_by live d.threads ≡ 0

add_install_as-IsStuck :
    (type file : Bytes) (d : Daemon) → IsStuck d → IsStuck (add_install_as type file d)
unfolding add_install_as
add_install_as-IsStuck type file d v = ground arith

daemon_install-IsStuck : (d : Daemon) → IsStuck d → IsStuck (daemon_install d)
unfolding daemon_install
daemon_install-IsStuck d v = ground arith

routine_step-IsStuck :
    (i : ℕ) (t : Thread) (d : Daemon) → live t ≡ 0 → IsStuck d → IsStuck (routine_step i t d)
unfolding routine_step
routine_step-IsStuck i deb_gone d e v = v
routine_step-IsStuck i rpm_gone d e v = v
routine_step-IsStuck i _ d e v = absurd (omega arith)

call_back-IsStuck :
    (t : Thread) (c : Callback) (d : Daemon) → live t ≡ 0 → IsStuck d → IsStuck (call_back t c d)
unfolding call_back
call_back-IsStuck deb_gone c d e v = v
call_back-IsStuck rpm_gone c d e v = v
call_back-IsStuck _ c d e v = absurd (omega arith)

at_rest :
    (t : Thread) (d : Daemon) (i : ℕ) → get_elem? d.threads i ≡ some t → IsStuck d → live t ≡ 0
at_rest t d i e v = omega (arith, v.nobody, weight-le-sum_by live d.threads i t e)

module _ (guess : Bytes → Bytes) where
  step-IsStuck : (e : Event) (d : Daemon) → IsStuck d → IsStuck (step guess e d)
  unfolding step
  step-IsStuck (add_install file) d v = add_install_as-IsStuck (guess file) file d v
  step-IsStuck install d v = daemon_install-IsStuck d v
  step-IsStuck (advance i) d v =
      at_thread IsStuck (get_elem? d.threads i) (λ t. routine_step i t d) d v
        λ t e. routine_step-IsStuck i t d (at_rest t d i e v) v
  step-IsStuck (calls i c) d v =
      at_thread IsStuck (get_elem? d.threads i) (λ t. call_back t c d) d v
        λ t e. call_back-IsStuck t c d (at_rest t d i e v) v

  run-IsStuck : (es : List Event) (d : Daemon) → IsStuck d → IsStuck (run guess es d)
  unfolding run
  run-IsStuck [] d v = v
  run-IsStuck (e ∷ es) d v = run-IsStuck es (step guess e d) (step-IsStuck e d v)

  -- A call of Install that finds no file listed, no lock held and no thread at work takes the lock
  -- for ever: after any further events it is still held, no thread is at work, and another call of
  -- Install is answered by the error "task locked" alone.
  pub install-IsStuck :
      (d : Daemon) (es : List Event)
      → d.task_locked ≡ false
      → d.rpm_list ≡ []
      → sum_by live d.threads ≡ 0
      → let later = run guess es (daemon_install d) in
        IsStuck later × (daemon_install later ≡ rpm_problem_handler task_locked_message later)
  unfolding daemon_install
  install-IsStuck d es free empty idle =
      let v = run-IsStuck es (daemon_install d) (ground arith) in (v, ground (arith, v.locked))
