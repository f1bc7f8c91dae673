-- ===== src/Daemon/Delivery.antt =====
-- Which files reach `install_rpm` in a run of daemon/daemon.c without .deb files.
pub mod Runs
use isoft_package_installer.Base.{
  ltb, if◌then◌else◌, Bytes, bytes_eq, get_elem?, sum_by, ℕ, ◌+◌, ◌≡◌, Bool, ◌||◌, some, List, [],
  ◌∷◌, ◌++◌, arith,
}
use isoft_package_installer.Daemon.{
  Thread, deb_started, deb_running, deb_gone, rpm_started, rpm_running, rpm_cleared, rpm_announced,
  rpm_gone, Daemon, rpm_type, source_rpm_type, Event, add_install, advance, step,
}
use isoft_package_installer.Daemon.Weights.{live}

-- 1 for a thread in `install_rpm`, and 1 for any other thread at work.
abbrev pub running : Thread → ℕ
running (rpm_running files) = 1
running t = 0

abbrev pub resting : Thread → ℕ
resting deb_started = 1
resting (deb_running f) = 1
resting rpm_started = 1
resting rpm_cleared = 1
resting rpm_announced = 1
resting t = 0

pub live-running : (ts : List Thread) → sum_by live ts ≡ sum_by running ts + sum_by resting ts
unfolding sum_by
live-running [] = omega arith
live-running (t ∷ ts) = omega (arith, live-running ts, one t)
  where
    one : (u : Thread) → live u ≡ running u + resting u
    one deb_started = omega arith
    one (deb_running f) = omega arith
    one deb_gone = omega arith
    one rpm_started = omega arith
    one (rpm_running files) = omega arith
    one rpm_cleared = omega arith
    one rpm_announced = omega arith
    one rpm_gone = omega arith

-- Some thread is in `install_rpm`.
abbrev pub is_installing : Daemon → Bool
is_installing d = ltb 0 (sum_by running d.threads)

-- The files that wait for an installation. Those of a list that is being installed do not.
abbrev pub pending : Daemon → List Bytes
pending d = if is_installing d then [] else d.rpm_list

-- The files that a routine gets at this event for its call of `install_rpm`.
abbrev pub handed_at : Event → Daemon → List Bytes
handed_at (advance i) d = elim (get_elem? d.threads i) [ some rpm_started ↦ d.rpm_list | _ ↦ [] ]
handed_at e d = []

-- The file of a call of AddInstall, if it is a package or a source package and no `install_rpm`
-- runs.
abbrev pub kept_of : Bytes → Bytes → Daemon → List Bytes
kept_of type file d =
    if bytes_eq type rpm_type || bytes_eq type source_rpm_type
    then (if is_installing d then [] else file ∷ [])
    else []

abbrev pub kept_at : (Bytes → Bytes) → Event → Daemon → List Bytes
kept_at guess (add_install file) d = kept_of (guess file) file d
kept_at guess e d = []

abbrev pub all_handed : (Bytes → Bytes) → List Event → Daemon → List Bytes
all_handed guess [] d = []
all_handed guess (e ∷ es) d = handed_at e d ++ all_handed guess es (step guess e d)

abbrev pub all_kept : (Bytes → Bytes) → List Event → Daemon → List Bytes
all_kept guess [] d = []
all_kept guess (e ∷ es) d = kept_at guess e d ++ all_kept guess es (step guess e d)
