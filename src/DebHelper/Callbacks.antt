-- ===== src/DebHelper/Callbacks.antt =====
-- What the callbacks of `install_deb` do to the daemon that waits for them.
use isoft_package_installer.DebHelper.{Stage, go, Machine, out_path, install_deb}
use isoft_package_installer.Base.{
  if◌then◌else◌, Bytes, get_elem?, All, ℕ, ◌≡◌, not, ◌||◌, Option, some, List, [], ◌∷◌, ◌++◌, map,
  append-nil, get_elem?-append, refl, ap, ◌∙◌, append_assoc, arith, codes, take, suc, ◌-◌, ◌<◌,
  false,
}
use isoft_package_installer.Package.{Package}
use isoft_package_installer.Daemon.{
  deb2rpm, is_one, Signal, percent_changed, error, Thread, deb_running, rpm_started, Daemon,
  is_empty, Callback, progress, rpm_problem, converted, deb_problem, call_back, calls, run,
}
use isoft_package_installer.AppPkg.Write.{Build}
use isoft_package_installer.Rpm.{Rpm}
use isoft_package_installer.Debresolve.Info.{Dpkg}
use isoft_package_installer.Daemon.Steps.{step-calls}
use isoft_package_installer.DebHelper.WrittenPath.{IsAtPathIfDone, install_deb-IsAtPathIfDone}

-- The callbacks of `install_deb` only.
abbrev DebCallback : Callback → Type 0
DebCallback (converted p f) = Unit
DebCallback (deb_problem m) = Unit
DebCallback c = ⊥

-- The files that the callbacks hand over: those with the percentage 1 and a name.
unfoldable pub handed_over : List Callback → List Bytes
handed_over [] = []
handed_over (converted p f ∷ cs) =
    if not (is_one p) || is_empty f then handed_over cs else f ∷ handed_over cs
handed_over (c ∷ cs) = handed_over cs

-- The signals of the callbacks, for the name of the .deb file.
unfoldable pub signals_for : Option Bytes → List Callback → List Signal
signals_for deb [] = []
signals_for deb (converted p f ∷ cs) = percent_changed deb2rpm deb p ∷ signals_for deb cs
signals_for deb (deb_problem m ∷ cs) = error m ∷ signals_for deb cs
signals_for deb (c ∷ cs) = signals_for deb cs

abbrev pub starting : List Bytes → List Thread
starting [] = []
starting (f ∷ fs) = rpm_started ∷ starting fs

-- The daemon after such callbacks.
abbrev after : List Callback → Daemon → Daemon
after cs d = record d {
  rpm_list = d.rpm_list ++ handed_over cs;
  emitted = d.emitted ++ signals_for d.deb cs;
  threads = d.threads ++ starting (handed_over cs);
}

handed_over-append :
    (cs ds : List Callback) → handed_over (cs ++ ds) ≡ handed_over cs ++ handed_over ds
unfolding handed_over
handed_over-append [] ds = refl
handed_over-append (converted p f ∷ cs) ds = ground (arith, handed_over-append cs ds)
handed_over-append (c ∷ cs) ds = handed_over-append cs ds

signals_for-append :
    (deb : Option Bytes) (cs ds : List Callback)
    → signals_for deb (cs ++ ds) ≡ signals_for deb cs ++ signals_for deb ds
unfolding signals_for
signals_for-append deb [] ds = refl
signals_for-append deb (converted p f ∷ cs) ds = rw (signals_for-append deb cs ds)
signals_for-append deb (deb_problem m ∷ cs) ds = rw (signals_for-append deb cs ds)
signals_for-append deb (c ∷ cs) ds = signals_for-append deb cs ds

starting-append : (fs gs : List Bytes) → starting (fs ++ gs) ≡ starting fs ++ starting gs
starting-append [] gs = refl
starting-append (f ∷ fs) gs = ap (λ r. rpm_started ∷ r) (starting-append fs gs)

after-append : (cs ds : List Callback) (d : Daemon) → after ds (after cs d) ≡ after (cs ++ ds) d
after-append cs ds d = simp (handed_over-append, signals_for-append, starting-append, append_assoc)

after_one :
    (file : Option Bytes) (c : Callback) (d : Daemon)
    → DebCallback c
    → call_back (deb_running file) c d ≡ after (c ∷ []) d
unfolding call_back handed_over signals_for
after_one file (converted p f) d h = ground (arith, append-nil d.rpm_list, append-nil d.threads)
after_one file (deb_problem m) d h = ground (arith, append-nil d.rpm_list, append-nil d.threads)
after_one file (progress p f) d h = absurd h
after_one file (rpm_problem m) d h = absurd h

module _ (guess : Bytes → Bytes) where
  run-after :
      (cs : List Callback) (i : ℕ) (file : Option Bytes) (d : Daemon)
      → All DebCallback cs
      → get_elem? d.threads i ≡ some (deb_running file)
      → run guess (map (calls i) cs) d ≡ after cs d
  unfolding run handed_over signals_for
  run-after [] i file d h e = rw (append-nil d.rpm_list, append-nil d.emitted, append-nil d.threads)
  run-after (c ∷ cs) i file d h e =
      ap (run guess (map (calls i) cs))
        (step-calls guess i (deb_running file) c d e ∙ after_one file c d h.0)
      ∙ (run-after cs i file (after (c ∷ []) d) h.1
            (get_elem?-append d.threads (starting (handed_over (c ∷ []))) i (deb_running file) e)
          ∙ after-append (c ∷ []) cs d)

module _ (R : Rpm) (B : Build R) (k : Dpkg) (m : Machine) (deb : Bytes) where
  abbrev pub outcome_files : Stage (List (Package R × Bytes)) → List Bytes
  outcome_files (go w) = out_path R m deb ∷ []
  outcome_files s = []

  install_deb-DebCallback : All DebCallback (install_deb R B k m deb).0
  unfolding install_deb
  install_deb-DebCallback = ground arith

  out_path_named : (n : ℕ) (s : Bytes) → is_empty (take (suc n) (s ++ codes ".rpm")) ≡ false
  out_path_named n [] = refl
  out_path_named n (c ∷ s) = refl

  out_path-ne-nil : 2 < m.path_max → is_empty (out_path R m deb) ≡ false
  out_path-ne-nil h =
      let e : m.path_max - 2 ≡ suc (m.path_max - 3) = omega arith in
      rw e (out_path_named (m.path_max - 3) deb)

  handed_over-install_deb :
      2 < m.path_max
      → handed_over (install_deb R B k m deb).0 ≡ outcome_files (install_deb R B k m deb).1
  unfolding install_deb handed_over
  handed_over-install_deb h = ground (arith, out_path-ne-nil h)

  pub install_deb-state :
      (guess : Bytes → Bytes) (d : Daemon) (i : ℕ) (file : Option Bytes)
      → 2 < m.path_max
      → get_elem? d.threads i ≡ some (deb_running file)
      → let (cs, outcome) = install_deb R B k m deb in
        run guess (map (calls i) cs) d ≡ record d {
          rpm_list = d.rpm_list ++ outcome_files outcome;
          emitted = d.emitted ++ signals_for d.deb cs;
          threads = d.threads ++ starting (outcome_files outcome);
        }
  install_deb-state guess d i file h e =
      run-after guess (install_deb R B k m deb).0 i file d install_deb-DebCallback e
      ∙ ap
          (λ fs. record d {
            rpm_list = d.rpm_list ++ fs;
            emitted = d.emitted ++ signals_for d.deb (install_deb R B k m deb).0;
            threads = d.threads ++ starting fs;
          })
          (handed_over-install_deb h)

  -- The callbacks of one run of `install_deb`, made by a thread that is in it, where PATH_MAX is
  -- larger than 2: if the run comes to its end, the path of the .deb file with .rpm behind it, cut to
  -- PATH_MAX - 2 bytes, is added to `rpm_list` once, one installing routine is started, and what was
  -- written is one package at this path, or nothing; if it stops at an error or a fault, no file is added and no routine is started. The
  -- signals are those of the callbacks in order, under the name that `priv->deb` has, and the lock
  -- and `priv->deb` stay as they were.
  pub run-install_deb :
      (guess : Bytes → Bytes) (d : Daemon) (i : ℕ) (file : Option Bytes)
      → 2 < m.path_max
      → get_elem? d.threads i ≡ some (deb_running file)
      → let (cs, outcome) = install_deb R B k m deb in
        (run guess (map (calls i) cs) d ≡ record d {
          rpm_list = d.rpm_list ++ outcome_files outcome;
          emitted = d.emitted ++ signals_for d.deb cs;
          threads = d.threads ++ starting (outcome_files outcome);
        })
        × IsAtPathIfDone R B k m deb outcome
  run-install_deb guess d i file h e =
      (install_deb-state guess d i file h e, install_deb-IsAtPathIfDone R B k m deb)
