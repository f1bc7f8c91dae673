-- ===== src/Daemon/Delivery/Runs.antt =====
-- Each step of daemon/daemon.c hands over, keeps or loses files.
use isoft_package_installer.Base.{
  ltb, if◌then◌else◌, Bytes, bytes_eq, get_elem?, set, sum_by, All, sum_by-set, weight-le-sum_by,
  weights, ℕ, ◌≡◌, refl, sym, ap, ◌∙◌, Bool, true, false, ◌||◌, Option, none, some, List, [], ◌∷◌,
  ◌++◌, append-nil, append_assoc, arith,
}
use isoft_package_installer.Daemon.{
  error, Thread, deb_started, deb_running, deb_gone, rpm_started, rpm_running, rpm_cleared,
  rpm_announced, rpm_gone, Daemon, daemon_init, task_locked_message, src_rpm_note, rpm_type,
  deb_type, source_rpm_type, add_install_as, is_null, daemon_install, routine_step, Callback,
  progress, rpm_problem, call_back, Event, add_install, install, advance, calls, step, run,
}
use isoft_package_installer.Daemon.Delivery.{
  running, resting, live-running, is_installing, pending, handed_at, kept_of, kept_at, all_handed,
  all_kept,
}
use isoft_package_installer.Daemon.Weights.{of_deb, at_thread}
use isoft_package_installer.Daemon.Exclusion.{IsExclusive, IsNotDeb, step-IsExclusive}
use isoft_package_installer.Daemon.Held.{held-le}

-- One more file for a list that waits.
pending-one :
    (b : Bool) (l : List Bytes) (file : Bytes)
    → (if b then [] else l) ++ (if b then [] else file ∷ []) ≡ (if b then [] else l ++ (file ∷ []))
pending-one true l file = refl
pending-one false l file = refl

add_install_as-kept_of :
    (type file : Bytes) (d : Daemon)
    → bytes_eq type deb_type ≡ false
    → pending d ++ kept_of type file d ≡ pending (add_install_as type file d)
unfolding add_install_as
add_install_as-kept_of type file d h =
    rw h (by_type (bytes_eq type rpm_type) (bytes_eq type source_rpm_type))
  where
    by_type :
        (b c : Bool)
        → pending d ++ (if b || c then (if is_installing d then [] else file ∷ []) else [])
          ≡ pending (
              if b
              then record d { rpm_list = d.rpm_list ++ (file ∷ []) }
              else if c
              then record d {
                rpm_list = d.rpm_list ++ (file ∷ []);
                emitted = d.emitted ++ (error src_rpm_note ∷ []);
              }
              else d)
    by_type true c = pending-one (is_installing d) d.rpm_list file
    by_type false true = pending-one (is_installing d) d.rpm_list file
    by_type false false = append-nil (pending d)

daemon_install-pending : (d : Daemon) → pending (daemon_install d) ≡ pending d
unfolding daemon_install
daemon_install-pending d = by_tests d.task_locked (is_null d.rpm_list)
  where
    locked : Daemon
    locked = record d { task_locked = true }

    by_tests :
        (b c : Bool)
        → pending (
            if b
            then record d { emitted = d.emitted ++ (error task_locked_message ∷ []) }
            else if c
            then locked
            else record locked { threads = locked.threads ++ (rpm_started ∷ []) })
          ≡ pending d
    by_tests true c = refl
    by_tests false true = refl
    by_tests false false = ap (λ n. if ltb 0 n then [] else d.rpm_list) (grind weights)

-- A thread that moves from one resting place to another.
module _ (i : ℕ) (d : Daemon) where
  set-running :
      (t u : Thread)
      → get_elem? d.threads i ≡ some t
      → running t ≡ running u
      → sum_by running (set d.threads i u) ≡ sum_by running d.threads
  set-running t u at e = grind weights

  unmoved :
      (t u : Thread)
      → get_elem? d.threads i ≡ some t
      → running t ≡ running u
      → pending d ++ [] ≡ pending (record d { threads = set d.threads i u })
  unmoved t u at e =
      append-nil (pending d)
      ∙ ap (λ n. if ltb 0 n then [] else d.rpm_list) (sym (set-running t u at e))

  routine_step-pending :
      (t : Thread)
      → get_elem? d.threads i ≡ some t
      → IsExclusive d
      → pending d ++ []
        ≡ (elim (some t) [ some rpm_started ↦ d.rpm_list | _ ↦ [] ]) ++ pending (routine_step i t d)
  unfolding routine_step
  routine_step-pending rpm_started at v =
      let none_runs : ltb 0 (sum_by running d.threads) ≡ false = ground (
        arith,
        live-running d.threads,
        weight-le-sum_by resting d.threads i rpm_started at,
        v.at_most,
        held-le d.task_locked,
      ) in
      let one_runs : ltb 0 (sum_by running (set d.threads i (rpm_running d.rpm_list))) ≡ true =
        ground (arith, sum_by-set running d.threads i rpm_started (rpm_running d.rpm_list) at) in
      rw none_runs (rw one_runs refl)
  routine_step-pending (rpm_running files) at v =
      let one_runs : ltb 0 (sum_by running d.threads) ≡ true =
        ground (arith, weight-le-sum_by running d.threads i (rpm_running files) at) in
      rw one_runs (empty_either (ltb 0 (sum_by running (set d.threads i rpm_cleared))))
    where
      the_empty : List Bytes
      the_empty = []

      empty_either : (b : Bool) → the_empty ≡ (if b then the_empty else the_empty)
      empty_either true = refl
      empty_either false = refl
  routine_step-pending deb_started at v = unmoved deb_started (deb_running d.deb) at refl
  routine_step-pending (deb_running file) at v = unmoved (deb_running file) deb_gone at refl
  routine_step-pending deb_gone at v = append-nil (pending d)
  routine_step-pending rpm_cleared at v = unmoved rpm_cleared rpm_announced at refl
  routine_step-pending rpm_announced at v = unmoved rpm_announced rpm_gone at refl
  routine_step-pending rpm_gone at v = append-nil (pending d)

call_back-pending :
    (t : Thread) (c : Callback) (d : Daemon) → of_deb t ≡ 0 → pending (call_back t c d) ≡ pending d
unfolding call_back
call_back-pending (rpm_running files) (progress p none) d z = refl
call_back-pending (rpm_running files) (progress p (some f)) d z = refl
call_back-pending (rpm_running files) (rpm_problem m) d z = refl
call_back-pending (deb_running file) c d z = absurd (omega arith)
call_back-pending _ c d z = refl

module _ (guess : Bytes → Bytes) where
  step-pending :
      (e : Event) (d : Daemon)
      → IsNotDeb guess e
      → IsExclusive d
      → pending d ++ kept_at guess e d ≡ handed_at e d ++ pending (step guess e d)
  unfolding step
  step-pending (add_install file) d h v = add_install_as-kept_of (guess file) file d h
  step-pending install d h v = append-nil (pending d) ∙ sym (daemon_install-pending d)
  step-pending (advance i) d h v = at_place (get_elem? d.threads i) refl
    where
      at_place :
          (o : Option Thread)
          → get_elem? d.threads i ≡ o
          → pending d ++ []
            ≡ (elim o [ some rpm_started ↦ d.rpm_list | _ ↦ [] ])
              ++ pending (elim o [ none ↦ d | some t ↦ routine_step i t d ])
      at_place none at = append-nil (pending d)
      at_place (some t) at = routine_step-pending i d t at v
  step-pending (calls i c) d h v =
      append-nil (pending d)
      ∙ sym (
          at_thread (λ x. pending x ≡ pending d) (get_elem? d.threads i) (λ t. call_back t c d) d
            refl
            λ t at.
              call_back-pending t c d
                (omega (arith, v.no_deb, weight-le-sum_by of_deb d.threads i t at)))

  run-pending_from :
      (es : List Event) (d : Daemon)
      → All (IsNotDeb guess) es
      → IsExclusive d
      → pending d ++ all_kept guess es d ≡ all_handed guess es d ++ pending (run guess es d)
  unfolding run
  run-pending_from [] d h v = append-nil (pending d)
  run-pending_from (e ∷ es) d h v =
      let after = step guess e d in
      let rest = run-pending_from es after h.1 (step-IsExclusive guess e d h.0 v) in
      sym (append_assoc (pending d) (kept_at guess e d) (all_kept guess es after))
      ∙ (ap (λ l. l ++ all_kept guess es after) (step-pending e d h.0 v)
          ∙ (append_assoc (handed_at e d) (pending after) (all_kept guess es after)
              ∙ (ap (λ l. handed_at e d ++ l) rest
                  ∙ sym (
                      append_assoc (handed_at e d) (all_handed guess es after)
                        (pending (run guess es after))))))

  -- From the initial state, in any interleaving of events none of which adds a file of the .deb
  -- type: the files that the routines get for their calls of `install_rpm`, in order, followed by
  -- those that still wait, are the packages and source packages of the calls of AddInstall, in
  -- order and each as often as it was added, but for those that were added while an `install_rpm`
  -- ran. These are lost.
  pub run-pending :
      (es : List Event)
      → All (IsNotDeb guess) es
      → all_kept guess es daemon_init
        ≡ all_handed guess es daemon_init ++ pending (run guess es daemon_init)
  unfolding daemon_init sum_by
  run-pending es h = run-pending_from es daemon_init h (omega arith)
