-- ===== src/Tests/DaemonRuns.antt =====
-- The daemon of daemon/daemon.c on concrete events.
use isoft_package_installer.Daemon.Lives.{Lives, run-Lives}
use isoft_package_installer.Base.{
  if◌then◌else◌, Bytes, codes, bytes_eq, sum_by, ◌≡◌, refl, true, false, ◌||◌, none, some, [], ◌∷◌,
  ◌++◌, get_elem?, List,
}
use isoft_package_installer.Daemon.{
  install_install, Percent, percent_changed, finished, deb_running, rpm_started, rpm_running,
  rpm_gone, Daemon, daemon_init, rpm_problem_handler, task_locked_message, rpm_type, deb_type,
  add_install_as, daemon_install, routine_step, progress, call_back, add_install, install, advance,
  calls, run, deb2rpm, converted, Thread, deb_started, Event,
}
use isoft_package_installer.Daemon.Locking.{IsStuck, install-IsStuck}
use isoft_package_installer.Daemon.Steps.{signals_of}
use isoft_package_installer.Daemon.Sessions.{install_session, add_install_twice}
use isoft_package_installer.Daemon.Signals.{IsAnnounced, run-IsAnnounced}
use isoft_package_installer.Daemon.Exclusion.{IsExclusive, run-IsExclusive}
use isoft_package_installer.Daemon.Races.{converted-install}
use isoft_package_installer.Daemon.Delivery.{pending, all_handed, all_kept}
use mathlib.Core.List.{Memᴰ}
use isoft_package_installer.Daemon.Origin.Runs.{run-IsFrom}
use isoft_package_installer.Daemon.Origin.{all_rpms, all_debs, IsFrom}
use isoft_package_installer.Daemon.Delivery.Runs.{run-pending}
use isoft_package_installer.Daemon.Held.{IsHeld, run-IsHeld}

abbrev guess : Bytes → Bytes
guess name =
    if bytes_eq name (codes "a.deb") || bytes_eq name (codes "b.deb") then deb_type else rpm_type

abbrev half : Percent
half = record { num = 1; den = 2 }

-- Two packages are listed, installed, and the signal is emitted.
two_rpms :
    run guess
      (add_install (codes "x.rpm")
        ∷ add_install (codes "y.rpm")
        ∷ install
        ∷ advance 0
        ∷ calls 0 (progress half (some (codes "x.rpm")))
        ∷ advance 0
        ∷ advance 0
        ∷ advance 0
        ∷ [])
      daemon_init
    ≡ record {
      task_locked = false;
      rpm_list = [];
      deb = none;
      emitted =
          percent_changed install_install (some (codes "x.rpm")) half
          ∷ finished install_install
          ∷ [];
      threads = rpm_gone ∷ [];
    }
unfolding run daemon_init add_install_as daemon_install routine_step call_back bytes_eq
two_rpms = refl

run-IsExclusive_example :
    IsExclusive (run guess (add_install (codes "x.rpm") ∷ install ∷ advance 0 ∷ []) daemon_init)
unfolding bytes_eq
run-IsExclusive_example =
    run-IsExclusive guess (add_install (codes "x.rpm") ∷ install ∷ advance 0 ∷ [])
      (refl, (tt, (tt, tt)))

run-IsAnnounced_example :
    IsAnnounced (run guess (add_install (codes "x.rpm") ∷ install ∷ advance 0 ∷ []) daemon_init)
run-IsAnnounced_example =
    run-IsAnnounced guess (add_install (codes "x.rpm") ∷ install ∷ advance 0 ∷ [])

install-IsStuck_example :
    let later =
      run guess (add_install (codes "x.rpm") ∷ install ∷ []) (daemon_install daemon_init) in
    IsStuck later × (daemon_install later ≡ rpm_problem_handler task_locked_message later)
unfolding daemon_init sum_by
install-IsStuck_example =
    install-IsStuck guess daemon_init (add_install (codes "x.rpm") ∷ install ∷ []) refl refl refl

abbrev listed : Daemon
listed = record {
  task_locked = false;
  rpm_list = codes "x.rpm" ∷ [];
  deb = none;
  emitted = [];
  threads = [];
}

install_session_example :
    run guess
      ((install ∷ advance 0 ∷ [])
        ++ (calls 0 (progress half (some (codes "x.rpm")))
            ∷ advance 0
            ∷ advance 0
            ∷ advance 0
            ∷ []))
      listed
    ≡ record listed {
      rpm_list = [];
      emitted =
          percent_changed install_install (some (codes "x.rpm")) half
          ∷ finished install_install
          ∷ [];
      threads = rpm_gone ∷ [];
    }
unfolding signals_of
install_session_example =
    install_session guess listed (progress half (some (codes "x.rpm")) ∷ []) refl (λ e. cc) (tt, tt)

abbrev running : Daemon
running = record listed {
  task_locked = true;
  threads = rpm_running (codes "x.rpm" ∷ []) ∷ deb_running (some (codes "a.deb")) ∷ [];
}

add_install_twice_example :
    run guess
      (add_install (codes "a.deb") ∷ add_install (codes "b.deb") ∷ advance 0 ∷ advance 1 ∷ [])
      listed
    ≡ record listed {
      deb = some (codes "b.deb");
      threads = deb_running (some (codes "b.deb")) ∷ deb_running (some (codes "b.deb")) ∷ [];
    }
unfolding bytes_eq
add_install_twice_example =
    add_install_twice guess listed (codes "a.deb") (codes "b.deb") refl refl refl

abbrev whole : Percent
whole = record { num = 10; den = 10 }

abbrev converting : Daemon
converting = record {
  task_locked = false;
  rpm_list = [];
  deb = some (codes "a.deb");
  emitted = [];
  threads = deb_running (some (codes "a.deb")) ∷ [];
}

converted-install_example :
    run guess
      (calls 0 (converted whole (codes "a.rpm")) ∷ install ∷ advance 1 ∷ advance 2 ∷ [])
      converting
    ≡ record converting {
      task_locked = true;
      rpm_list = codes "a.rpm" ∷ [];
      emitted = percent_changed deb2rpm (some (codes "a.deb")) whole ∷ [];
      threads =
          deb_running (some (codes "a.deb"))
          ∷ rpm_running (codes "a.rpm" ∷ [])
          ∷ rpm_running (codes "a.rpm" ∷ [])
          ∷ [];
    }
converted-install_example =
    converted-install guess converting 0 (some (codes "a.deb")) whole (codes "a.rpm") refl refl refl
      refl

abbrev living : Daemon
living = record daemon_init {
  rpm_list = codes "a.rpm" ∷ [];
  threads = deb_started ∷ rpm_started ∷ [];
}

run-Lives_example :
    (u : Thread) × (get_elem?
        (run
          (λ f. rpm_type)
          (advance 1 ∷ add_install (codes "b.rpm") ∷ advance 1 ∷ [])
          living).threads
        1
      ≡ some u)
    × Lives rpm_started u
unfolding daemon_init
run-Lives_example =
    run-Lives (λ f. rpm_type) (advance 1 ∷ add_install (codes "b.rpm") ∷ advance 1 ∷ []) 1
      rpm_started living refl

-- A file that is added before the routine reads its list, and one that is added too late.
abbrev late_file : List Event
late_file =
    add_install (codes "x.rpm")
    ∷ install
    ∷ add_install (codes "y.rpm")
    ∷ advance 0
    ∷ add_install (codes "z.rpm")
    ∷ advance 0
    ∷ add_install (codes "w.rpm")
    ∷ []

late_file_lost :
    (all_handed guess late_file daemon_init ≡ codes "x.rpm" ∷ codes "y.rpm" ∷ [])
    × (pending (run guess late_file daemon_init) ≡ codes "w.rpm" ∷ [])
unfolding run daemon_init add_install_as daemon_install routine_step call_back bytes_eq sum_by
late_file_lost = (refl, refl)

run-pending_example :
    all_kept guess late_file daemon_init
    ≡ all_handed guess late_file daemon_init ++ pending (run guess late_file daemon_init)
unfolding bytes_eq
run-pending_example =
    run-pending guess late_file (refl, (tt, (refl, (tt, (refl, (tt, (refl, tt)))))))

-- An installation during which Install is called again.
abbrev refused_call : List Event
refused_call =
    add_install (codes "x.rpm")
    ∷ install
    ∷ advance 0
    ∷ install
    ∷ advance 0
    ∷ advance 0
    ∷ advance 0
    ∷ []

run-IsHeld_example : IsHeld (run guess refused_call daemon_init)
unfolding run daemon_init add_install_as daemon_install routine_step bytes_eq
run-IsHeld_example =
    run-IsHeld guess refused_call (refl, (tt, (tt, (tt, (tt, (tt, (tt, tt)))))))
      (tt, (refl, (tt, (refl, (tt, (tt, (tt, tt)))))))

-- A conversion hands over its package, and the routine that it starts reads the list.
abbrev one_conversion : List Event
one_conversion =
    add_install (codes "a.deb")
    ∷ advance 0
    ∷ calls 0 (converted (record { num = 1; den = 1 }) (codes "c.rpm"))
    ∷ advance 1
    ∷ []

run-IsFrom_example :
    IsFrom
      (λ file. Memᴰ file (all_rpms guess one_conversion))
      (λ file. Memᴰ file (all_debs guess one_conversion))
      (run guess one_conversion daemon_init)
run-IsFrom_example = run-IsFrom guess one_conversion
