-- ===== src/Daemon/Lives.antt =====
-- The life of one thread among the others.
use mathlib.Core.Option.{some-injective}
use isoft_package_installer.Daemon.{
  Daemon, Thread, deb_started, deb_running, deb_gone, rpm_started, rpm_running, rpm_cleared,
  rpm_announced, rpm_gone, Event, add_install, install, advance, calls, Callback, progress,
  rpm_problem, converted, deb_problem, add_install_as, daemon_install, routine_step, call_back,
  step, run, is_one, is_empty, rpm_type, deb_type, source_rpm_type, is_null,
}
use isoft_package_installer.Daemon.Weights.{at_thread}
use isoft_package_installer.Base.{
  Bytes, get_elem?, set, get_elem?-append, ℕ, zero, suc, ◌≡◌, refl, sym, ◌∙◌, subst, Option, some,
  List, [], ◌∷◌, ◌++◌, if◌then◌else◌, bytes_eq, Bool, true, false, not, ◌||◌, none,
}

-- The steps of the two routines. Each reads its input once, and keeps it.
pub data Moves : Thread → Thread → Type 0 where
  deb_reads : (file : Option Bytes) → Moves deb_started (deb_running file)
  deb_ends : (file : Option Bytes) → Moves (deb_running file) deb_gone
  rpm_reads : (files : List Bytes) → Moves rpm_started (rpm_running files)
  rpm_clears : (files : List Bytes) → Moves (rpm_running files) rpm_cleared
  rpm_announces : Moves rpm_cleared rpm_announced
  rpm_ends : Moves rpm_announced rpm_gone

-- Any number of steps.
pub data Lives (t : Thread) : Thread → Type 0 where
  stays : Lives t t
  goes_on : {u v : Thread} → Lives t u → Moves u v → Lives t v

Lives-trans : {t u v : Thread} → Lives t u → Lives u v → Lives t v
Lives-trans p stays = p
Lives-trans p (goes_on q m) = goes_on (Lives-trans p q) m

-- The thread at this place has lived on.
abbrev pub LivesAt : ℕ → Thread → Daemon → Type 0
LivesAt i t d = (u : Thread) × (get_elem? d.threads i ≡ some u) × Lives t u

set-Moves :
    (ts : List Thread) (i j : ℕ) (t u v : Thread)
    → get_elem? ts i ≡ some t
    → get_elem? ts j ≡ some u
    → Moves u v
    → (w : Thread) × (get_elem? (set ts j v) i ≡ some w) × Lives t w
set-Moves [] i j t u v e f m = cc
set-Moves (x ∷ ts) zero zero t u v e f m =
    let same : u ≡ t = some-injective u t (sym f ∙ e) in
    (v, refl, goes_on stays (subst (λ s. Moves s v) same m))
set-Moves (x ∷ ts) zero (suc j) t u v e f m = (t, e, stays)
set-Moves (x ∷ ts) (suc i) zero t u v e f m = (t, e, stays)
set-Moves (x ∷ ts) (suc i) (suc j) t u v e f m = set-Moves ts i j t u v e f m

LivesAt-if :
    (i : ℕ) (t : Thread) (b : Bool) (x y : Daemon)
    → LivesAt i t x
    → LivesAt i t y
    → LivesAt i t (if b then x else y)
LivesAt-if i t true x y p q = p
LivesAt-if i t false x y p q = q

module _ (i : ℕ) (t : Thread) (d : Daemon) (at : get_elem? d.threads i ≡ some t) where
  -- Threads are only ever put behind the others.
  spawned : (u : Thread) → (w : Thread) × (get_elem? (d.threads ++ (u ∷ [])) i ≡ some w) × Lives t w
  spawned u = (t, get_elem?-append d.threads (u ∷ []) i t at, stays)

  same : (w : Thread) × (get_elem? d.threads i ≡ some w) × Lives t w
  same = (t, at, stays)

  add_install_as-LivesAt : (type file : Bytes) → LivesAt i t (add_install_as type file d)
  unfolding add_install_as
  add_install_as-LivesAt type file = LivesAt-if i t (bytes_eq type rpm_type) _ _ same (
      LivesAt-if i t (bytes_eq type deb_type) _ _
        (LivesAt-if i t d.task_locked _ _ same (spawned deb_started))
        (LivesAt-if i t (bytes_eq type source_rpm_type) _ _ same same))

  daemon_install-LivesAt : LivesAt i t (daemon_install d)
  unfolding daemon_install
  daemon_install-LivesAt =
      LivesAt-if i t d.task_locked _ _ same
        (LivesAt-if i t (is_null d.rpm_list) _ _ same (spawned rpm_started))

  routine_step-LivesAt :
      (j : ℕ) (u : Thread) → get_elem? d.threads j ≡ some u → LivesAt i t (routine_step j u d)
  unfolding routine_step
  routine_step-LivesAt j deb_started f = set-Moves d.threads i j t _ _ at f (deb_reads d.deb)
  routine_step-LivesAt j (deb_running file) f = set-Moves d.threads i j t _ _ at f (deb_ends file)
  routine_step-LivesAt j deb_gone f = same
  routine_step-LivesAt j rpm_started f = set-Moves d.threads i j t _ _ at f (rpm_reads d.rpm_list)
  routine_step-LivesAt j (rpm_running files) f =
      set-Moves d.threads i j t _ _ at f (rpm_clears files)
  routine_step-LivesAt j rpm_cleared f = set-Moves d.threads i j t _ _ at f rpm_announces
  routine_step-LivesAt j rpm_announced f = set-Moves d.threads i j t _ _ at f rpm_ends
  routine_step-LivesAt j rpm_gone f = same

  call_back-LivesAt : (u : Thread) (c : Callback) → LivesAt i t (call_back u c d)
  unfolding call_back
  call_back-LivesAt (rpm_running files) (progress p none) = same
  call_back-LivesAt (rpm_running files) (progress p (some f)) = same
  call_back-LivesAt (rpm_running files) (rpm_problem m) = same
  call_back-LivesAt (deb_running file) (converted p f) =
      LivesAt-if i t (not (is_one p) || is_empty f) _ _ same (spawned rpm_started)
  call_back-LivesAt (deb_running file) (deb_problem m) = same
  call_back-LivesAt _ c = same

module _ (guess : Bytes → Bytes) where
  step-LivesAt :
      (e : Event) (i : ℕ) (t : Thread) (d : Daemon)
      → get_elem? d.threads i ≡ some t
      → LivesAt i t (step guess e d)
  unfolding step
  step-LivesAt (add_install file) i t d at = add_install_as-LivesAt i t d at (guess file) file
  step-LivesAt install i t d at = daemon_install-LivesAt i t d at
  step-LivesAt (advance j) i t d at =
      at_thread (LivesAt i t) (get_elem? d.threads j) (λ u. routine_step j u d) d (t, at, stays)
        λ u f. routine_step-LivesAt i t d at j u f
  step-LivesAt (calls j c) i t d at =
      at_thread (LivesAt i t) (get_elem? d.threads j) (λ u. call_back u c d) d (t, at, stays)
        λ u f. call_back-LivesAt i t d at u c

  -- Whatever events come, a thread stays at its place and only moves on by the steps of its own
  -- routine: it never goes back, leaves none out, takes up the other routine, or changes the file
  -- or the list that it has read.
  pub run-Lives :
      (es : List Event) (i : ℕ) (t : Thread) (d : Daemon)
      → get_elem? d.threads i ≡ some t
      → (u : Thread) × (get_elem? (run guess es d).threads i ≡ some u) × Lives t u
  unfolding run
  run-Lives [] i t d at = (t, at, stays)
  run-Lives (e ∷ es) i t d at =
      let (u, there, lived) = step-LivesAt e i t d at in
      let (v, later, lives) = run-Lives es i u (step guess e d) there in
      (v, later, Lives-trans lived lives)
