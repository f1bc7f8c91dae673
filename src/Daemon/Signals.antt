-- ===== src/Daemon/Signals.antt =====
-- The signal Finished.
use isoft_package_installer.Base.{
  ℕ, Bytes, sum_by, arith, ◌≡◌, List, get_elem?, ◌∷◌, some, none, [], weights,
}
use isoft_package_installer.Daemon.{
  Daemon, daemon_init, call_back, daemon_install, run, add_install_as, step, routine_step, Thread,
  Event, rpm_started, deb_started, Callback, add_install, advance, rpm_running, deb_running,
  progress, calls, deb_gone, install, rpm_cleared, rpm_announced, rpm_problem, rpm_gone, converted,
  deb_problem,
}
use isoft_package_installer.Daemon.Weights.{at_thread, of_finished, announced}

-- As many signals as routines that got past the emission.
abbrev pub IsAnnounced : Daemon → Type 0
IsAnnounced d = sum_by of_finished d.emitted ≡ sum_by announced d.threads

add_install_as-IsAnnounced :
    (type file : Bytes) (d : Daemon) → IsAnnounced d → IsAnnounced (add_install_as type file d)
unfolding add_install_as
add_install_as-IsAnnounced type file d v = grind weights

daemon_install-IsAnnounced : (d : Daemon) → IsAnnounced d → IsAnnounced (daemon_install d)
unfolding daemon_install
daemon_install-IsAnnounced d v = grind weights

routine_step-IsAnnounced :
    (i : ℕ) (t : Thread) (d : Daemon)
    → get_elem? d.threads i ≡ some t
    → IsAnnounced d
    → IsAnnounced (routine_step i t d)
unfolding routine_step
routine_step-IsAnnounced i deb_started d e v = grind weights
routine_step-IsAnnounced i (deb_running f) d e v = grind weights
routine_step-IsAnnounced i deb_gone d e v = v
routine_step-IsAnnounced i rpm_started d e v = grind weights
routine_step-IsAnnounced i (rpm_running fs) d e v = grind weights
routine_step-IsAnnounced i rpm_cleared d e v = grind weights
routine_step-IsAnnounced i rpm_announced d e v = grind weights
routine_step-IsAnnounced i rpm_gone d e v = v

-- A callback emits no Finished and moves no thread past its emission.
call_back-IsAnnounced :
    (t : Thread) (c : Callback) (d : Daemon) → IsAnnounced d → IsAnnounced (call_back t c d)
unfolding call_back
call_back-IsAnnounced (rpm_running fs) (progress p none) d v = v
call_back-IsAnnounced (rpm_running fs) (progress p (some f)) d v = grind weights
call_back-IsAnnounced (rpm_running fs) (rpm_problem m) d v = grind weights
call_back-IsAnnounced (deb_running file) (converted p f) d v = grind weights
call_back-IsAnnounced (deb_running file) (deb_problem m) d v = grind weights
call_back-IsAnnounced _ c d v = ground arith

module _ (guess : Bytes → Bytes) where
  step-IsAnnounced : (e : Event) (d : Daemon) → IsAnnounced d → IsAnnounced (step guess e d)
  unfolding step
  step-IsAnnounced (add_install file) d v = add_install_as-IsAnnounced (guess file) file d v
  step-IsAnnounced install d v = daemon_install-IsAnnounced d v
  step-IsAnnounced (advance i) d v =
      at_thread IsAnnounced (get_elem? d.threads i) (λ t. routine_step i t d) d v
        λ t e. routine_step-IsAnnounced i t d e v
  step-IsAnnounced (calls i c) d v =
      at_thread IsAnnounced (get_elem? d.threads i) (λ t. call_back t c d) d v
        λ t e. call_back-IsAnnounced t c d v

  run-IsAnnounced_from :
      (es : List Event) (d : Daemon) → IsAnnounced d → IsAnnounced (run guess es d)
  unfolding run
  run-IsAnnounced_from [] d v = v
  run-IsAnnounced_from (e ∷ es) d v =
      run-IsAnnounced_from es (step guess e d) (step-IsAnnounced e d v)

  -- From the initial state, after any events, the signal Finished was emitted exactly once for each
  -- `install_rpm_routine` that has come past its emission, and by nothing else.
  pub run-IsAnnounced : (es : List Event) → IsAnnounced (run guess es daemon_init)
  unfolding daemon_init sum_by
  run-IsAnnounced es = run-IsAnnounced_from es daemon_init (omega arith)
