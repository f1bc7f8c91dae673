-- ===== src/Daemon/Held.antt =====
-- When `task_locked` is released, in a run of daemon/daemon.c without .deb files.
use isoft_package_installer.Daemon.Exclusion.{held, IsNotDeb}
use isoft_package_installer.Base.{
  Bytes, bytes_eq, get_elem?, sum_by, All, weight-le-sum_by, weights, ℕ, ◌≤◌, ◌≡◌, refl, Bool, true,
  false, not, ◌||◌, some, List, [], ◌∷◌, arith,
}
use isoft_package_installer.Daemon.{
  Thread, rpm_started, rpm_running, rpm_cleared, rpm_announced, rpm_gone, Daemon, daemon_init,
  deb_type, add_install_as, is_null, daemon_install, routine_step, Callback, call_back, Event,
  add_install, install, advance, calls, step, run,
}
use isoft_package_installer.Daemon.Weights.{live, of_deb, at_thread}

-- No routine for a .deb file was started, and the lock is held exactly while a thread is at work.
pub record IsHeld (d : Daemon) : Type 0 where
  pub no_deb : sum_by of_deb d.threads ≡ 0
  pub while_live : sum_by live d.threads ≡ held d.task_locked

-- A call of Install finds a file in the list, or the lock taken.
abbrev pub IsFilled : Event → Daemon → Type 0
IsFilled install d = (d.task_locked || not (is_null d.rpm_list)) ≡ true
IsFilled e d = Unit

abbrev pub AllFilled : (Bytes → Bytes) → List Event → Daemon → Type 0
AllFilled guess [] d = Unit
AllFilled guess (e ∷ es) d = IsFilled e d × AllFilled guess es (step guess e d)

pub held-le : (b : Bool) → held b ≤ 1
held-le true = omega arith
held-le false = omega arith

add_install_as-IsHeld :
    (type file : Bytes) (d : Daemon)
    → bytes_eq type deb_type ≡ false
    → IsHeld d
    → IsHeld (add_install_as type file d)
unfolding add_install_as
add_install_as-IsHeld type file d h v = ground arith

daemon_install-IsHeld :
    (d : Daemon)
    → (d.task_locked || not (is_null d.rpm_list)) ≡ true
    → IsHeld d
    → IsHeld (daemon_install d)
unfolding daemon_install
daemon_install-IsHeld d h v = grind weights

routine_step-IsHeld :
    (i : ℕ) (t : Thread) (d : Daemon)
    → get_elem? d.threads i ≡ some t
    → of_deb t ≡ 0
    → IsHeld d
    → IsHeld (routine_step i t d)
unfolding routine_step
routine_step-IsHeld i rpm_started d e z v = grind weights
routine_step-IsHeld i (rpm_running fs) d e z v = grind weights
routine_step-IsHeld i rpm_cleared d e z v = grind weights
routine_step-IsHeld i rpm_announced d e z v =
    grind (weights, held-le d.task_locked, weight-le-sum_by live d.threads i rpm_announced e)
routine_step-IsHeld i rpm_gone d e z v = v
routine_step-IsHeld i _ d e z v = absurd (omega arith)

call_back-IsHeld :
    (t : Thread) (c : Callback) (d : Daemon) → of_deb t ≡ 0 → IsHeld d → IsHeld (call_back t c d)
unfolding call_back
call_back-IsHeld (rpm_running fs) c d z v = ground arith
call_back-IsHeld _ c d z v = ground arith

module _ (guess : Bytes → Bytes) where
  step-IsHeld :
      (e : Event) (d : Daemon)
      → IsNotDeb guess e
      → IsFilled e d
      → IsHeld d
      → IsHeld (step guess e d)
  unfolding step
  step-IsHeld (add_install file) d h f v = add_install_as-IsHeld (guess file) file d h v
  step-IsHeld install d h f v = daemon_install-IsHeld d f v
  step-IsHeld (advance i) d h f v =
      at_thread IsHeld (get_elem? d.threads i) (λ t. routine_step i t d) d v
        λ t e.
          routine_step-IsHeld i t d e
            (omega (arith, v.no_deb, weight-le-sum_by of_deb d.threads i t e)) v
  step-IsHeld (calls i c) d h f v =
      at_thread IsHeld (get_elem? d.threads i) (λ t. call_back t c d) d v
        λ t e.
          call_back-IsHeld t c d (omega (arith, v.no_deb, weight-le-sum_by of_deb d.threads i t e))
            v

  run-IsHeld_from :
      (es : List Event) (d : Daemon)
      → All (IsNotDeb guess) es
      → AllFilled guess es d
      → IsHeld d
      → IsHeld (run guess es d)
  unfolding run
  run-IsHeld_from [] d h f v = v
  run-IsHeld_from (e ∷ es) d h f v =
      run-IsHeld_from es (step guess e d) h.1 f.1 (step-IsHeld e d h.0 f.0 v)

  -- From the initial state, after any events none of which adds a file of the .deb type, and where
  -- each call of Install finds a file in the list or the lock taken: the lock is held exactly while
  -- one thread is at work, so that it is free again once the threads have come to their ends.
  pub run-IsHeld :
      (es : List Event)
      → All (IsNotDeb guess) es
      → AllFilled guess es daemon_init
      → IsHeld (run guess es daemon_init)
  unfolding daemon_init sum_by
  run-IsHeld es h f =
      run-IsHeld_from es daemon_init h f (record { no_deb = refl; while_live = refl })
