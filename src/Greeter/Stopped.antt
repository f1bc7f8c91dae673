-- ===== src/Greeter/Stopped.antt =====
-- A single .deb file in greeter whose conversion by daemon/deb-helper.c stops.
use isoft_package_installer.DebHelper.{Machine, install_deb, quit}
use isoft_package_installer.Base.{
  Bytes, bytes_eq, sum_by, ◌<◌, ◌≡◌, refl, Bool, true, false, Option, some, List, [], ◌∷◌, ◌++◌,
  map, arith, ltb, sym, ap, ◌∙◌, append_assoc,
}
use isoft_package_installer.Daemon.{
  deb_running, deb_gone, Daemon, deb_type, add_install_as, daemon_install, routine_step, Callback,
  progress, rpm_problem, converted, deb_problem, Event, advance, calls, daemon_add_install, run,
  daemon_init,
}
use isoft_package_installer.Greeter.{Qt, step_widget}
use isoft_package_installer.Daemon.Weights.{of_finished}
use isoft_package_installer.AppPkg.Write.{Build}
use isoft_package_installer.Greeter.View.{install_widget, on_signals, on_signals-of_finished}
use isoft_package_installer.Rpm.{Rpm}
use isoft_package_installer.DebHelper.Callbacks.{
  signals_for, outcome_files, starting, install_deb-state,
}
use isoft_package_installer.Debresolve.Info.{Dpkg}
use isoft_package_installer.Daemon.Steps.{run-append}

signals_for-of_finished :
    (deb : Option Bytes) (cs : List Callback) → sum_by of_finished (signals_for deb cs) ≡ 0
unfolding sum_by signals_for
signals_for-of_finished deb [] = refl
signals_for-of_finished deb (converted p f ∷ cs) = omega (arith, signals_for-of_finished deb cs)
signals_for-of_finished deb (deb_problem m ∷ cs) = omega (arith, signals_for-of_finished deb cs)
signals_for-of_finished deb (progress p f ∷ cs) = signals_for-of_finished deb cs
signals_for-of_finished deb (rpm_problem m ∷ cs) = signals_for-of_finished deb cs

module _ (R : Rpm) (B : Build R) (k : Dpkg) (m : Machine) (deb : Bytes) where
  -- The daemon in which the file is converted: Install was called with an empty list.
  abbrev locked_daemon : Daemon
  locked_daemon = record daemon_init {
    task_locked = true;
    deb = some deb;
    threads = deb_running (some deb) ∷ [];
  }

  -- What the one thread does: it reads the file, makes its callbacks and ends.
  abbrev pub thread_of_deb : List Event
  thread_of_deb = advance 0 ∷ (map (calls 0) (install_deb R B k m deb).0 ++ (advance 0 ∷ []))

  module _ (guess : Bytes → Bytes) (shows_welcome : Bool) where
    started_deb :
        guess deb ≡ deb_type
        → run guess ((step_widget shows_welcome deb []).made ++ (advance 0 ∷ [])) daemon_init
          ≡ locked_daemon
    unfolding run step_widget daemon_add_install add_install_as daemon_install routine_step
        daemon_init bytes_eq
    started_deb t = rw t refl

    -- The last step of the thread.
    ended :
        (install_deb R B k m deb).1 ≡ quit
        → let (cs, outcome) = install_deb R B k m deb in
          run guess (advance 0 ∷ []) (record locked_daemon {
            rpm_list = outcome_files R B k m deb outcome;
            emitted = signals_for (some deb) cs;
            threads = deb_running (some deb) ∷ starting (outcome_files R B k m deb outcome);
          })
          ≡ record daemon_init {
            deb = some deb;
            emitted = signals_for (some deb) cs;
            threads = deb_gone ∷ [];
          }
    unfolding run routine_step daemon_init
    ended e = rw e refl

    -- The front end is opened with a single .deb file, and its calls of AddInstall and then Install
    -- reach a daemon that has just started, both before the first step of the thread that AddInstall
    -- starts; no other event comes between. The conversion comes to the label `exit` before its end, be it with a message of an
    -- error or, at a field that is not there, without, and its thread ends. PATH_MAX is larger than
    -- 2. Then the daemon is free, its list is empty and no other thread was
    -- started; no Finished was emitted, and the page that has received all signals does not show
    -- the button Finish.
    pub step_widget-quit :
        (q : Qt)
        → 2 < m.path_max
        → guess deb ≡ deb_type
        → (install_deb R B k m deb).1 ≡ quit
        → let d =
            run guess ((step_widget shows_welcome deb []).made ++ thread_of_deb) daemon_init in
          (d ≡ record daemon_init {
            deb = some deb;
            emitted = signals_for (some deb) (install_deb R B k m deb).0;
            threads = deb_gone ∷ [];
          })
          × ((on_signals q d.emitted install_widget).finish_visible ≡ false)
    unfolding daemon_init
    step_widget-quit q h t e =
        let cs = (install_deb R B k m deb).0 in
        let opened = (step_widget shows_welcome deb []).made in
        let whole =
          ap (λ l. run guess l daemon_init)
            (sym (append_assoc opened (advance 0 ∷ []) (map (calls 0) cs ++ (advance 0 ∷ []))))
          ∙ (run-append guess (opened ++ (advance 0 ∷ [])) (map (calls 0) cs ++ (advance 0 ∷ []))
                daemon_init
              ∙ (ap (run guess (map (calls 0) cs ++ (advance 0 ∷ []))) (started_deb t)
                  ∙ (run-append guess (map (calls 0) cs) (advance 0 ∷ []) locked_daemon
                      ∙ (ap (run guess (advance 0 ∷ []))
                            (install_deb-state R B k m deb guess locked_daemon 0 (some deb) h refl)
                          ∙ ended e)))) in
        (
          whole,
          ap (λ d. (on_signals q d.emitted install_widget).finish_visible) whole
              ∙ (on_signals-of_finished q (signals_for (some deb) cs) install_widget
                  ∙ ap (ltb 0) (signals_for-of_finished (some deb) cs)),
        )
