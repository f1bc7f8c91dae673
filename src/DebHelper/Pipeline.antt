-- ===== src/DebHelper/Pipeline.antt =====
-- A .deb file on its whole way: AddInstall, the conversion, and the installation of its package.
use isoft_package_installer.DebHelper.{go, Machine, out_path, install_deb}
use isoft_package_installer.DebHelper.Callbacks.{signals_for, install_deb-state}
use isoft_package_installer.DebHelper.WrittenPath.{
  IsAtPath, IsAtPathIfDone, install_deb-IsAtPathIfDone,
}
use isoft_package_installer.Daemon.{
  deb_running, deb_gone, rpm_running, rpm_gone, install_install, finished, Daemon, daemon_init,
  deb_type, add_install_as, Event, add_install, advance, calls, Callback, run, step, routine_step,
}
use isoft_package_installer.RpmHelper.{Rpmcli, Arguments, ran, install_rpm}
use isoft_package_installer.RpmHelper.Installing.{run-install_rpm}
use isoft_package_installer.RpmHelper.Progress.{Statics}
use isoft_package_installer.Daemon.Steps.{signals_of, run-append}
use isoft_package_installer.Base.{
  Bytes, bytes_eq, ◌<◌, ◌≡◌, refl, ap, ◌∙◌, some, List, [], ◌∷◌, ◌++◌, map, Option, subst,
}
use isoft_package_installer.Package.{Package}
use isoft_package_installer.AppPkg.Write.{Build}
use isoft_package_installer.Rpm.{Rpm}
use isoft_package_installer.Debresolve.Info.{Dpkg}

module _ (R : Rpm) (B : Build R) (k : Dpkg) (m : Machine) (deb : Bytes) where
  -- The daemon that converts the file, and the one that installs what was written of it.
  abbrev converting_daemon : Daemon
  converting_daemon = record daemon_init { deb = some deb; threads = deb_running (some deb) ∷ [] }

  abbrev pub installing_daemon : Daemon
  installing_daemon = record daemon_init {
    rpm_list = out_path R m deb ∷ [];
    deb = some deb;
    emitted = signals_for (some deb) (install_deb R B k m deb).0;
    threads = deb_running (some deb) ∷ rpm_running (out_path R m deb ∷ []) ∷ [];
  }

  -- The events of the conversion, up to the first step of the routine that it starts.
  abbrev pub conversion : List Event
  conversion =
      add_install deb ∷ advance 0 ∷ (map (calls 0) (install_deb R B k m deb).0 ++ (advance 1 ∷ []))

  -- The events of the installation, and the end of the routine for the .deb file.
  abbrev pub installation : List Callback → List Event
  installation cs = map (calls 1) cs ++ (advance 1 ∷ advance 1 ∷ advance 1 ∷ advance 0 ∷ [])

  module _ (guess : Bytes → Bytes) (p : Rpmcli) where
    added :
        guess deb ≡ deb_type
        → step guess (advance 0) (step guess (add_install deb) daemon_init) ≡ converting_daemon
    unfolding step add_install_as routine_step daemon_init bytes_eq
    added t = rw t refl

    converted_lem :
        (written : List (Package R × Bytes))
        → 2 < m.path_max
        → guess deb ≡ deb_type
        → (install_deb R B k m deb).1 ≡ go written
        → run guess conversion daemon_init ≡ installing_daemon
    unfolding run step routine_step daemon_init
    converted_lem written h t w =
        ap (run guess (map (calls 0) (install_deb R B k m deb).0 ++ (advance 1 ∷ []))) (added t)
        ∙ (run-append guess (map (calls 0) (install_deb R B k m deb).0) (advance 1 ∷ [])
              converting_daemon
            ∙ (ap (run guess (advance 1 ∷ []))
                  (install_deb-state R B k m deb guess converting_daemon 0 (some deb) h refl)
                ∙ rw w refl))

    installed_lem :
        (cs : List Callback) (s s' : Statics) (handed : Option (Arguments × List Bytes))
        → install_rpm p (out_path R m deb ∷ []) s ≡ ran cs handed s'
        → run guess (installation cs) installing_daemon ≡ record daemon_init {
          deb = some deb;
          emitted =
              (signals_for (some deb) (install_deb R B k m deb).0 ++ signals_of cs)
              ++ (finished install_install ∷ []);
          threads = deb_gone ∷ rpm_gone ∷ [];
        }
    unfolding run step routine_step daemon_init
    installed_lem cs s s' handed e =
        run-append guess (map (calls 1) cs) (advance 1 ∷ advance 1 ∷ advance 1 ∷ advance 0 ∷ [])
          installing_daemon
        ∙ ap (run guess (advance 1 ∷ advance 1 ∷ advance 1 ∷ advance 0 ∷ [])) (
            run-install_rpm p guess installing_daemon 1 (out_path R m deb ∷ []) s s' cs handed e
              refl)

    -- From the start of the daemon, a .deb file is added, its conversion comes to its end, and the
    -- routine that this starts runs install_rpm to its end, where no other event comes between and
    -- PATH_MAX is larger than 2: install_rpm is given the path of the .deb file with .rpm behind
    -- it, cut to PATH_MAX - 2 bytes, and nothing else, although nobody calls Install; what the
    -- conversion has written is one package at this path, or nothing. With the callbacks that it makes and the steps of the
    -- routines, the lock is free at the end, the list is empty, both routines are gone, and the
    -- signals were those of the conversion, those of the installation and Finished, in this order.
    pub run-conversion :
        (written : List (Package R × Bytes)) (cs : List Callback) (s s' : Statics)
        (handed : Option (Arguments × List Bytes))
        → 2 < m.path_max
        → guess deb ≡ deb_type
        → (install_deb R B k m deb).1 ≡ go written
        → install_rpm p (out_path R m deb ∷ []) s ≡ ran cs handed s'
        → IsAtPath R B k m deb written
          × (run guess conversion daemon_init ≡ installing_daemon)
          × (run guess (conversion ++ installation cs) daemon_init ≡ record daemon_init {
            deb = some deb;
            emitted =
                (signals_for (some deb) (install_deb R B k m deb).0 ++ signals_of cs)
                ++ (finished install_install ∷ []);
            threads = deb_gone ∷ rpm_gone ∷ [];
          })
    run-conversion written cs s s' handed h t w e = (
      subst (IsAtPathIfDone R B k m deb) w (install_deb-IsAtPathIfDone R B k m deb),
      converted_lem written h t w,
      run-append guess conversion (installation cs) daemon_init
          ∙ (ap (run guess (installation cs)) (converted_lem written h t w)
              ∙ installed_lem cs s s' handed e),
    )
