-- ===== src/Daemon/Origin/Runs.antt =====
-- The origin of the files in a run of daemon/daemon.c.
use mathlib.Core.List.{Memᴰ}
use isoft_package_installer.Base.{Bytes, All, List, [], ◌∷◌}
use isoft_package_installer.Daemon.{Daemon, daemon_init, Event, step, run}
use isoft_package_installer.Daemon.Origin.Kept.{step-IsFrom}
use isoft_package_installer.Daemon.Origin.{
  rpms_at, debs_at, all_rpms, all_debs, IsFrom, All-parts, All_if_each,
}

module _ (P Q : Bytes → Type 0) where
  run-IsFrom_all :
      (guess : Bytes → Bytes) (es : List Event) (d : Daemon)
      → All P (all_rpms guess es)
      → All Q (all_debs guess es)
      → IsFrom P Q d
      → IsFrom P Q (run guess es d)
  unfolding run
  run-IsFrom_all guess [] d h k v = v
  run-IsFrom_all guess (e ∷ es) d h k v =
      let (h1, h2) = All-parts P (rpms_at guess e) (all_rpms guess es) h in
      let (k1, k2) = All-parts Q (debs_at guess e) (all_debs guess es) k in
      run-IsFrom_all guess es (step guess e d) h2 k2 (step-IsFrom P Q guess e d h1 k1 v)

-- From the initial state, in any interleaving of calls, threads and callbacks: every file in the
-- list, and every file in the list that a routine works on, is a package or a source package of a
-- call of AddInstall, or the file of a callback that says that a conversion is complete; and every
-- file that waits for a conversion or is being converted was added by a call of AddInstall for a
-- .deb file.
pub run-IsFrom :
    (guess : Bytes → Bytes) (es : List Event)
    → IsFrom
        (λ file. Memᴰ file (all_rpms guess es))
        (λ file. Memᴰ file (all_debs guess es))
        (run guess es daemon_init)
unfolding daemon_init
run-IsFrom guess es =
    run-IsFrom_all (λ file. Memᴰ file (all_rpms guess es)) (λ file. Memᴰ file (all_debs guess es))
      guess es daemon_init (All_if_each (all_rpms guess es) _ (λ x m. m))
      (All_if_each (all_debs guess es) _ (λ x m. m))
      (record { listed = tt; waiting = tt; working = tt })
