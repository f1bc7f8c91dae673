-- ===== src/Daemon/Sessions.antt =====
-- Whole sequences of events: an installation from its call to its end, and the interleavings
-- that the lock does not keep apart.
use isoft_package_installer.Daemon.Steps.{
  RpmCallback, signals_of, run-append, step-advance, run-callbacks, advance_last,
}
use isoft_package_installer.Base.{
  Bytes, length, get_elem?, set, All, ℕ, suc, ◌≡◌, refl, ◌∙◌, ◌≢◌, true, false, Option, some, List,
  [], ◌∷◌, ◌++◌, map, append_assoc, get_elem?-append_length, sym, ap, arith, bytes_eq,
  set-append_length, get_elem?-append_suc-length, set-append_suc-length,
}
use isoft_package_installer.Daemon.{
  install_install, finished, deb_running, deb_gone, rpm_started, rpm_running, rpm_gone, Daemon,
  rpm_type, deb_type, add_install_as, daemon_install, routine_step, Callback, Event, add_install,
  install, advance, calls, step, run, Thread, rpm_cleared, rpm_announced, deb_started,
  daemon_add_install,
}

module _ (guess : Bytes → Bytes) where
  session_end :
      (ts : List Thread) (files : List Bytes) (d : Daemon)
      → let i = length ts in
        run guess
          (advance i ∷ advance i ∷ advance i ∷ [])
          (record d { threads = ts ++ (rpm_running files ∷ []) })
        ≡ record d {
          task_locked = false;
          rpm_list = [];
          emitted = d.emitted ++ (finished install_install ∷ []);
          threads = ts ++ (rpm_gone ∷ []);
        }
  unfolding run routine_step
  session_end ts files d =
      let i = length ts in
      let from = λ (t : Thread). record d { rpm_list = []; threads = ts ++ (t ∷ []) } in
      ap (λ x. step guess (advance i) (step guess (advance i) x)) (cleared)
      ∙ (ap (λ x. step guess (advance i) x) said ∙ freed)
    where
      cleared :
          step guess (advance (length ts)) (record d { threads = ts ++ (rpm_running files ∷ []) })
          ≡ record d { rpm_list = []; threads = ts ++ (rpm_cleared ∷ []) }
      cleared =
          advance_last guess ts (rpm_running files) _ refl
          ∙ ap (λ x. record d { rpm_list = []; threads = x }) (set-append_length ts _ _ [])

      said :
          step guess
            (advance (length ts))
            (record d { rpm_list = []; threads = ts ++ (rpm_cleared ∷ []) })
          ≡ record d {
            rpm_list = [];
            emitted = d.emitted ++ (finished install_install ∷ []);
            threads = ts ++ (rpm_announced ∷ []);
          }
      said =
          advance_last guess ts rpm_cleared _ refl
          ∙ ap
              (λ x. record d {
                rpm_list = [];
                emitted = d.emitted ++ (finished install_install ∷ []);
                threads = x;
              })
              (set-append_length ts _ _ [])

      freed :
          step guess (advance (length ts)) (record d {
            rpm_list = [];
            emitted = d.emitted ++ (finished install_install ∷ []);
            threads = ts ++ (rpm_announced ∷ []);
          })
          ≡ record d {
            task_locked = false;
            rpm_list = [];
            emitted = d.emitted ++ (finished install_install ∷ []);
            threads = ts ++ (rpm_gone ∷ []);
          }
      freed =
          advance_last guess ts rpm_announced _ refl
          ∙ ap
              (λ x. record d {
                task_locked = false;
                rpm_list = [];
                emitted = d.emitted ++ (finished install_install ∷ []);
                threads = x;
              })
              (set-append_length ts _ _ [])

  pub session_start :
      (d : Daemon)
      → d.task_locked ≡ false
      → d.rpm_list ≢ []
      → run guess (install ∷ advance (length d.threads) ∷ []) d
        ≡ record d { task_locked = true; threads = d.threads ++ (rpm_running d.rpm_list ∷ []) }
  unfolding run routine_step daemon_install
  session_start d free listed =
      ap (λ x. step guess (advance (length d.threads)) x) started
      ∙ (advance_last guess d.threads rpm_started _ refl
          ∙ ap (λ x. record d { task_locked = true; threads = x })
              (set-append_length d.threads _ _ []))
    where
      started :
          daemon_install d
          ≡ record d { task_locked = true; threads = d.threads ++ (rpm_started ∷ []) }
      started = ground arith

  -- A call of Install on a free daemon with files listed starts one routine, and once this has
  -- made its callbacks and its own four steps the lock is free again, the list is empty, and the
  -- signals of the callbacks and then Finished were emitted.
  pub install_session :
      (d : Daemon) (cs : List Callback)
      → d.task_locked ≡ false
      → d.rpm_list ≢ []
      → All RpmCallback cs
      → let i = length d.threads in
        run guess
          ((install ∷ advance i ∷ [])
            ++ (map (calls i) cs ++ (advance i ∷ advance i ∷ advance i ∷ [])))
          d
        ≡ record d {
          task_locked = false;
          rpm_list = [];
          emitted = (d.emitted ++ signals_of cs) ++ (finished install_install ∷ []);
          threads = d.threads ++ (rpm_gone ∷ []);
        }
  unfolding run
  install_session d cs free listed h =
      run-append guess (install ∷ advance i ∷ []) (callbacks ++ ends) d
      ∙ (ap (run guess (callbacks ++ ends)) (session_start d free listed)
          ∙ (run-append guess callbacks ends running
              ∙ (ap (run guess ends) (
                    run-callbacks guess cs i d.rpm_list running h
                      (get_elem?-append_length d.threads _ []))
                  ∙ session_end d.threads d.rpm_list
                      (record d { task_locked = true; emitted = d.emitted ++ signals_of cs }))))
    where
      i : ℕ
      i = length d.threads

      callbacks : List Event
      callbacks = map (calls i) cs

      ends : List Event
      ends = advance i ∷ advance i ∷ advance i ∷ []

      running : Daemon
      running = record d {
        task_locked = true;
        threads = d.threads ++ (rpm_running d.rpm_list ∷ []);
      }

  -- A file of the .rpm type that is added while `install_rpm` runs leaves no trace once the
  -- routine has taken its next step: it is neither in that run's list nor in `rpm_list`.
  add_install-lost :
      (d : Daemon) (i : ℕ) (files : List Bytes) (file : Bytes)
      → get_elem? d.threads i ≡ some (rpm_running files)
      → guess file ≡ rpm_type
      → run guess (add_install file ∷ advance i ∷ []) d ≡ run guess (advance i ∷ []) d
  unfolding run add_install_as routine_step bytes_eq
  add_install-lost d i files file e t =
      step-advance guess i (rpm_running files) (add_install_as (guess file) file d) (rw t e)
      ∙ (rw t refl ∙ sym (step-advance guess i (rpm_running files) d e))

  both_read :
      (ts : List Thread) (d : Daemon)
      → run guess
          (advance (length ts) ∷ advance (suc (length ts)) ∷ [])
          (record d { threads = ts ++ (deb_started ∷ deb_started ∷ []) })
        ≡ record d { threads = ts ++ (deb_running d.deb ∷ deb_running d.deb ∷ []) }
  unfolding run routine_step
  both_read ts d =
      ap (λ x. step guess (advance (suc (length ts))) x)
        (step-advance guess (length ts) deb_started _ (get_elem?-append_length ts _ _)
          ∙ ap (λ x. record d { threads = x }) (set-append_length ts _ _ _))
      ∙ (step-advance guess (suc (length ts)) deb_started
            (record d { threads = ts ++ (deb_running d.deb ∷ deb_started ∷ []) })
            (get_elem?-append_suc-length ts _ _)
          ∙ ap (λ x. record d { threads = x }) (set-append_suc-length ts _ _ _))

  add_deb :
      (d : Daemon) (f : Bytes)
      → d.task_locked ≡ false
      → guess f ≡ deb_type
      → daemon_add_install guess f d
        ≡ record d { deb = some f; threads = d.threads ++ (deb_started ∷ []) }
  unfolding daemon_add_install add_install_as bytes_eq
  add_deb d f free t = rw (t, free)

  -- Two .deb files that are added to a free daemon before either thread has begun: both threads
  -- convert the second file, and the lock is still free.
  pub add_install_twice :
      (d : Daemon) (f g : Bytes)
      → d.task_locked ≡ false
      → guess f ≡ deb_type
      → guess g ≡ deb_type
      → let i = length d.threads in
        run guess (add_install f ∷ add_install g ∷ advance i ∷ advance (suc i) ∷ []) d ≡ record d {
          deb = some g;
          threads = d.threads ++ (deb_running (some g) ∷ deb_running (some g) ∷ []);
        }
  unfolding run add_install_as routine_step
  add_install_twice d f g free tf tg =
      ap (run guess reads) (
        ap (daemon_add_install guess g) (add_deb d f free tf)
        ∙ (add_deb (record d { deb = some f; threads = d.threads ++ (deb_started ∷ []) }) g free tg
            ∙ ap (λ x. record d { deb = some g; threads = x }) (append_assoc d.threads _ _)))
      ∙ both_read d.threads (record d { deb = some g })
    where
      reads : List Event
      reads = advance (length d.threads) ∷ advance (suc (length d.threads)) ∷ []

  -- When a routine for a .deb file ends it frees the lock, whoever holds it: a call of Install
  -- then starts another routine beside those that still run.
  deb_end-unlocks :
      (d : Daemon) (i : ℕ) (f : Option Bytes)
      → get_elem? d.threads i ≡ some (deb_running f)
      → d.rpm_list ≢ []
      → run guess (advance i ∷ install ∷ []) d
        ≡ record d { task_locked = true; threads = set d.threads i deb_gone ++ (rpm_started ∷ []) }
  unfolding run daemon_install routine_step
  deb_end-unlocks d i f e listed =
      ap (λ x. daemon_install x) (step-advance guess i _ d e) ∙ ground arith
