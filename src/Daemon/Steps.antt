-- ===== src/Daemon/Steps.antt =====
-- Steps of a thread and its callbacks, in an interleaving.
use isoft_package_installer.Base.{
  Bytes, length, get_elem?, All, ℕ, ◌≡◌, refl, ◌∙◌, none, some, List, [], ◌∷◌, ◌++◌, map,
  append-nil, append_assoc, get_elem?-append_length, ap,
}
use isoft_package_installer.Daemon.{
  install_install, Signal, percent_changed, error, rpm_running, Daemon, routine_step, Callback,
  progress, rpm_problem, converted, deb_problem, call_back, Event, advance, calls, step, run,
  Thread, rpm_progress_handle, rpm_problem_handler,
}

-- The callbacks of `install_rpm`, with the signals that they emit.
abbrev pub RpmCallback : Callback → Type 0
RpmCallback (progress p f) = Unit
RpmCallback (rpm_problem m) = Unit
RpmCallback c = ⊥

unfoldable pub signals_of : List Callback → List Signal
signals_of [] = []
signals_of (progress p none ∷ cs) = signals_of cs
signals_of (progress p (some f) ∷ cs) = percent_changed install_install (some f) p ∷ signals_of cs
signals_of (rpm_problem m ∷ cs) = error m ∷ signals_of cs
signals_of (c ∷ cs) = signals_of cs

module _ (guess : Bytes → Bytes) where
  pub run-append :
      (es fs : List Event) (d : Daemon) → run guess (es ++ fs) d ≡ run guess fs (run guess es d)
  unfolding run
  run-append [] fs d = refl
  run-append (e ∷ es) fs d = run-append es fs (step guess e d)

  pub step-advance :
      (i : ℕ) (t : Thread) (d : Daemon)
      → get_elem? d.threads i ≡ some t
      → step guess (advance i) d ≡ routine_step i t d
  unfolding step
  step-advance i t d e = rw (e, step)

  pub step-calls :
      (i : ℕ) (t : Thread) (c : Callback) (d : Daemon)
      → get_elem? d.threads i ≡ some t
      → step guess (calls i c) d ≡ call_back t c d
  unfolding step
  step-calls i t c d e = rw (e, step)

  -- The callbacks of a running `install_rpm` add their signals and change nothing else.
  pub run-callbacks :
      (cs : List Callback) (i : ℕ) (files : List Bytes) (d : Daemon)
      → All RpmCallback cs
      → get_elem? d.threads i ≡ some (rpm_running files)
      → run guess (map (calls i) cs) d ≡ record d { emitted = d.emitted ++ signals_of cs }
  unfolding run signals_of call_back
  run-callbacks [] i files d h e = rw append-nil refl
  run-callbacks (progress p none ∷ cs) i files d h e =
      ap (run guess (map (calls i) cs)) (step-calls i _ (progress p none) d e)
      ∙ run-callbacks cs i files d h.1 e
  run-callbacks (progress p (some f) ∷ cs) i files d h e =
      ap (run guess (map (calls i) cs)) (step-calls i _ (progress p (some f)) d e)
      ∙ (run-callbacks cs i files (rpm_progress_handle p (some f) d) h.1 e
          ∙ ap (λ es. record d { emitted = es }) (append_assoc d.emitted _ (signals_of cs)))
  run-callbacks (rpm_problem m ∷ cs) i files d h e =
      ap (run guess (map (calls i) cs)) (step-calls i _ (rpm_problem m) d e)
      ∙ (run-callbacks cs i files (rpm_problem_handler m d) h.1 e
          ∙ ap (λ es. record d { emitted = es }) (append_assoc d.emitted _ (signals_of cs)))
  run-callbacks (converted p f ∷ cs) i files d h e = absurd h.0
  run-callbacks (deb_problem m ∷ cs) i files d h e = absurd h.0

  -- A step of the thread that was made last.
  pub advance_last :
      (ts : List Thread) (t : Thread) (d : Daemon)
      → d.threads ≡ ts ++ (t ∷ [])
      → step guess (advance (length ts)) d ≡ routine_step (length ts) t d
  advance_last ts t d e = step-advance (length ts) t d (rw e (get_elem?-append_length ts t []))
