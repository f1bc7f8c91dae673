-- ===== src/Daemon/Exclusion.antt =====
-- Who holds `task_locked` in a run without .deb files.
use isoft_package_installer.Base.{
  ℕ, Bytes, sum_by, weight-le-sum_by, arith, ◌≡◌, ◌≤◌, Bool, bytes_eq, List, get_elem?, All, some,
  false, ◌∷◌, [], weights,
}
use isoft_package_installer.Daemon.{
  Daemon, daemon_init, daemon_install, call_back, run, add_install_as, step, routine_step, Event,
  Thread, rpm_started, add_install, deb_type, Callback, advance, calls, rpm_running, rpm_cleared,
  install, rpm_announced, rpm_gone,
}
use isoft_package_installer.Daemon.Weights.{live, of_deb, at_thread}
use mathlib.Core.Bool.{true}

abbrev pub held : Bool → ℕ
held true = 1
held false = 0

-- No routine for a .deb file was started, and a thread at work holds the lock.
pub record IsExclusive (d : Daemon) : Type 0 where
  pub no_deb : sum_by of_deb d.threads ≡ 0
  pub at_most : sum_by live d.threads ≤ held d.task_locked

-- The call adds no file of the type of .deb files.
abbrev pub IsNotDeb : (Bytes → Bytes) → Event → Type 0
IsNotDeb guess (add_install file) = bytes_eq (guess file) deb_type ≡ false
IsNotDeb guess e = Unit

add_install_as-IsExclusive :
    (type file : Bytes) (d : Daemon)
    → bytes_eq type deb_type ≡ false
    → IsExclusive d
    → IsExclusive (add_install_as type file d)
unfolding add_install_as
add_install_as-IsExclusive type file d h v = ground arith

daemon_install-IsExclusive : (d : Daemon) → IsExclusive d → IsExclusive (daemon_install d)
unfolding daemon_install
daemon_install-IsExclusive d v = grind weights

routine_step-IsExclusive :
    (i : ℕ) (t : Thread) (d : Daemon)
    → get_elem? d.threads i ≡ some t
    → of_deb t ≡ 0
    → IsExclusive d
    → IsExclusive (routine_step i t d)
unfolding routine_step
routine_step-IsExclusive i rpm_started d e z v = grind weights
routine_step-IsExclusive i (rpm_running fs) d e z v = grind weights
routine_step-IsExclusive i rpm_cleared d e z v = grind weights
routine_step-IsExclusive i rpm_announced d e z v = grind weights
routine_step-IsExclusive i rpm_gone d e z v = v
routine_step-IsExclusive i _ d e z v = absurd (omega arith)

call_back-IsExclusive :
    (t : Thread) (c : Callback) (d : Daemon)
    → of_deb t ≡ 0
    → IsExclusive d
    → IsExclusive (call_back t c d)
unfolding call_back
call_back-IsExclusive (rpm_running fs) c d z v = ground arith
call_back-IsExclusive _ c d z v = ground arith

module _ (guess : Bytes → Bytes) where
  pub step-IsExclusive :
      (e : Event) (d : Daemon) → IsNotDeb guess e → IsExclusive d → IsExclusive (step guess e d)
  unfolding step
  step-IsExclusive (add_install file) d h v = add_install_as-IsExclusive (guess file) file d h v
  step-IsExclusive install d h v = daemon_install-IsExclusive d v
  step-IsExclusive (advance i) d h v =
      at_thread IsExclusive (get_elem? d.threads i) (λ t. routine_step i t d) d v
        λ t e.
          routine_step-IsExclusive i t d e
            (omega (arith, v.no_deb, weight-le-sum_by of_deb d.threads i t e)) v
  step-IsExclusive (calls i c) d h v =
      at_thread IsExclusive (get_elem? d.threads i) (λ t. call_back t c d) d v
        λ t e.
          call_back-IsExclusive t c d
            (omega (arith, v.no_deb, weight-le-sum_by of_deb d.threads i t e)) v

  run-IsExclusive_from :
      (es : List Event) (d : Daemon)
      → All (IsNotDeb guess) es
      → IsExclusive d
      → IsExclusive (run guess es d)
  unfolding run
  run-IsExclusive_from [] d h v = v
  run-IsExclusive_from (e ∷ es) d h v =
      run-IsExclusive_from es (step guess e d) h.1 (step-IsExclusive e d h.0 v)

  -- From the initial state, after any events none of which adds a file of the .deb type, no
  -- routine for a .deb file exists, at most one thread is at work, and then `task_locked` is set.
  pub run-IsExclusive :
      (es : List Event) → All (IsNotDeb guess) es → IsExclusive (run guess es daemon_init)
  unfolding daemon_init sum_by
  run-IsExclusive es h = run-IsExclusive_from es daemon_init h (omega arith)
