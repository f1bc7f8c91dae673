-- ===== src/Daemon/Weights.antt =====
-- Measures of the thread list, and how each step moves them.
use isoft_package_installer.Base.{ℕ, Option, ◌≡◌, some, refl, none}
use isoft_package_installer.Daemon.{
  Thread, deb_running, Signal, finished, deb_started, rpm_announced, deb_gone, rpm_gone, Daemon,
}

-- 1 for a thread that has not made its last write.
abbrev pub live : Thread → ℕ
live deb_gone = 0
live rpm_gone = 0
live t = 1

-- 1 for a thread of `install_deb_routine`.
abbrev pub of_deb : Thread → ℕ
of_deb deb_started = 1
of_deb (deb_running f) = 1
of_deb deb_gone = 1
of_deb t = 0

-- 1 for a thread of `install_rpm_routine` that is behind its signal.
abbrev pub announced : Thread → ℕ
announced rpm_announced = 1
announced rpm_gone = 1
announced t = 0

-- 1 for the signal `Finished`.
abbrev pub of_finished : Signal → ℕ
of_finished (finished s) = 1
of_finished s = 0

-- What holds of a daemon that an absent thread leaves alone, and of the outcome at a present one.
pub at_thread {ℓ} :
    (P : Daemon → Type ℓ) (o : Option Thread) (f : Thread → Daemon) (d : Daemon)
    → P d
    → ((t : Thread) → o ≡ some t → P (f t))
    → P (elim o [ none ↦ d | some t ↦ f t ])
at_thread P none f d idle at = idle
at_thread P (some t) f d idle at = at t refl
