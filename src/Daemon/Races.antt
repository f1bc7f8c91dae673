-- ===== src/Daemon/Races.antt =====
-- Installations that a converted file starts.
use isoft_package_installer.Base.{
  Bytes, length, get_elem?, get_elem?-append_length, set-append_length, get_elem?-append_suc-length,
  set-append_suc-length, ℕ, suc, ◌≡◌, refl, ap, ◌∙◌, true, false, Option, some, List, [], ◌∷◌, ◌++◌,
  append_assoc,
}
use isoft_package_installer.Daemon.{
  deb2rpm, Percent, is_one, percent_changed, Thread, deb_running, rpm_started, rpm_running, Daemon,
  is_empty, deb_converted_handler, is_null, daemon_install, routine_step, converted, call_back,
  install, advance, calls, step, run,
}
use isoft_package_installer.Daemon.Steps.{step-advance, step-calls}

module _ (guess : Bytes → Bytes) where
  both_read_list :
      (ts : List Thread) (d : Daemon)
      → run guess
          (advance (length ts) ∷ advance (suc (length ts)) ∷ [])
          (record d { threads = ts ++ (rpm_started ∷ rpm_started ∷ []) })
        ≡ record d { threads = ts ++ (rpm_running d.rpm_list ∷ rpm_running d.rpm_list ∷ []) }
  unfolding run routine_step
  both_read_list ts d =
      ap (step guess (advance (suc (length ts)))) (
        step-advance guess (length ts) rpm_started _ (get_elem?-append_length ts _ _)
        ∙ ap (λ x. record d { threads = x }) (set-append_length ts _ _ _))
      ∙ (step-advance guess (suc (length ts)) rpm_started
            (record d { threads = ts ++ (rpm_running d.rpm_list ∷ rpm_started ∷ []) })
            (get_elem?-append_suc-length ts _ _)
          ∙ ap (λ x. record d { threads = x }) (set-append_suc-length ts _ _ _))

  -- The daemon with the converted file and one more thread.
  abbrev handed : Daemon → Percent → Bytes → Daemon
  handed d p f = record d {
    rpm_list = d.rpm_list ++ (f ∷ []);
    emitted = d.emitted ++ (percent_changed deb2rpm d.deb p ∷ []);
    threads = d.threads ++ (rpm_started ∷ []);
  }

  call_back-handed :
      (d : Daemon) (file : Option Bytes) (p : Percent) (f : Bytes)
      → is_one p ≡ true
      → is_empty f ≡ false
      → call_back (deb_running file) (converted p f) d ≡ handed d p f
  unfolding call_back deb_converted_handler
  call_back-handed d file p f one filled = rw one (rw filled refl)

  is_null-snoc : (l : List Bytes) (f : Bytes) → is_null (l ++ (f ∷ [])) ≡ false
  is_null-snoc [] f = refl
  is_null-snoc (x ∷ l) f = refl

  install-free :
      (d : Daemon)
      → d.task_locked ≡ false
      → is_null d.rpm_list ≡ false
      → daemon_install d
        ≡ record d { task_locked = true; threads = d.threads ++ (rpm_started ∷ []) }
  unfolding daemon_install
  install-free d free listed = rw (free, daemon_install) (rw listed refl)

  -- The callback with the percentage 1 from a conversion starts an installing routine and does not
  -- take the lock: where the lock is free, a call of Install that follows is not refused, and
  -- both routines come to run `install_rpm` on the same list at once.
  pub converted-install :
      (d : Daemon) (i : ℕ) (file : Option Bytes) (p : Percent) (f : Bytes)
      → get_elem? d.threads i ≡ some (deb_running file)
      → d.task_locked ≡ false
      → is_one p ≡ true
      → is_empty f ≡ false
      → let n = length d.threads in
        let list = d.rpm_list ++ (f ∷ []) in
        run guess (calls i (converted p f) ∷ install ∷ advance n ∷ advance (suc n) ∷ []) d
        ≡ record d {
          task_locked = true;
          rpm_list = list;
          emitted = d.emitted ++ (percent_changed deb2rpm d.deb p ∷ []);
          threads = d.threads ++ (rpm_running list ∷ rpm_running list ∷ []);
        }
  unfolding run
  converted-install d i file p f e free one filled =
      ap (run guess (advance (length d.threads) ∷ advance (suc (length d.threads)) ∷ [])) (
        ap (step guess install) (
          step-calls guess i (deb_running file) (converted p f) d e
          ∙ call_back-handed d file p f one filled)
        ∙ (install-free (handed d p f) free (is_null-snoc d.rpm_list f)
            ∙ ap (λ x. record (handed d p f) { task_locked = true; threads = x })
                (append_assoc d.threads _ _)))
      ∙ both_read_list d.threads (record (handed d p f) { task_locked = true })
