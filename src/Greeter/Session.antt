-- ===== src/Greeter/Session.antt =====
-- From the pages of greeter to the end of the installation in daemon/daemon.c and
-- daemon/rpm-helper.c.
use isoft_package_installer.Base.{
  if◌then◌else◌, Bytes, bytes_eq, All, ◌≡◌, refl, sym, ap, ◌∙◌, ◌≢◌, Bool, true, false, List, [],
  ◌∷◌, ◌++◌, map, append-nil, append_assoc, length, ◌-◌, Option, weights,
}
use isoft_package_installer.Daemon.{
  install_install, finished, rpm_gone, Daemon, rpm_type, add_install_as, Callback, Event,
  add_install, install, advance, calls, daemon_add_install, run, daemon_init, rpm_running, Signal,
}
use isoft_package_installer.Greeter.{Qt, next_enabled, Greeter, step_widget, press, is_single}
use isoft_package_installer.Daemon.Sessions.{install_session, session_start}
use isoft_package_installer.Daemon.Steps.{RpmCallback, signals_of, run-append}
use isoft_package_installer.Greeter.Choices.{chosen, IsDistinct, IsPlain, press-chosen}
use isoft_package_installer.RpmHelper.{Arguments, Rpmcli, ran, install_rpm}
use isoft_package_installer.Greeter.View.{install_widget, on_signals, on_signals-of_finished}
use isoft_package_installer.RpmHelper.Progress.{Statics}
use isoft_package_installer.RpmHelper.Installing.{install_rpm-RpmCallback}

-- The files whose boxes are checked.
abbrev pub checked_files : Qt → List (Bytes × Bool) → List Bytes
checked_files q [] = []
checked_files q ((file, is_checked) ∷ rows) =
    (if is_checked then q.absolute_path file ∷ [] else []) ++ checked_files q rows

-- The files that are to be installed: a single one by its own argument.
abbrev pub wanted_files : Qt → List (Bytes × Bool) → List Bytes
wanted_files q [] = []
wanted_files q (row ∷ []) = row.0 ∷ []
wanted_files q (row ∷ other ∷ rows) = checked_files q (row ∷ other ∷ rows)

chosen-checked_files :
    (q : Qt) (rows : List (Bytes × Bool)) → chosen q rows ≡ map add_install (checked_files q rows)
chosen-checked_files q [] = refl
chosen-checked_files q ((file, true) ∷ rows) =
    ap (λ l. add_install (q.absolute_path file) ∷ l) (chosen-checked_files q rows)
chosen-checked_files q ((file, false) ∷ rows) = chosen-checked_files q rows

checked_files-next_enabled :
    (q : Qt) (rows : List (Bytes × Bool)) → next_enabled rows ≡ true → checked_files q rows ≢ []
unfolding next_enabled
checked_files-next_enabled q [] h = cc
checked_files-next_enabled q ((file, true) ∷ rows) h = λ e. cc
checked_files-next_enabled q ((file, false) ∷ rows) h = checked_files-next_enabled q rows h

-- Where there are several files, the button of the package page is enabled.
abbrev pub IsReady : List (Bytes × Bool) → Type 0
IsReady [] = ⊥
IsReady (row ∷ []) = Unit
IsReady (row ∷ other ∷ rows) = next_enabled (row ∷ other ∷ rows) ≡ true

wanted_files-IsReady :
    (q : Qt) (rows : List (Bytes × Bool)) → IsReady rows → wanted_files q rows ≢ []
wanted_files-IsReady q [] h = absurd h
wanted_files-IsReady q (row ∷ []) h = λ e. cc
wanted_files-IsReady q (row ∷ other ∷ rows) h = checked_files-next_enabled q (row ∷ other ∷ rows) h

wanted_calls :
    (q : Qt) (first : Bytes × Bool) (rest : List (Bytes × Bool))
    → (if is_single (map (λ r. r.0) rest)
        then add_install (first.0) ∷ install ∷ []
        else chosen q (first ∷ rest) ++ (install ∷ []))
      ≡ map add_install (wanted_files q (first ∷ rest)) ++ (install ∷ [])
wanted_calls q first [] = refl
wanted_calls q first (other ∷ rest) =
    ap (λ l. l ++ (install ∷ [])) (chosen-checked_files q (first ∷ other ∷ rest))

on_signals-finished :
    (q : Qt) (l : List Signal)
    → (on_signals q (l ++ (finished install_install ∷ [])) install_widget).finish_visible ≡ true
on_signals-finished q l =
    on_signals-of_finished q (l ++ (finished install_install ∷ [])) install_widget ∙ (grind weights)

module _ (guess : Bytes → Bytes) where
  -- Calls of AddInstall for files of the type of .rpm files.
  run-add_install :
      (files : List Bytes) (d : Daemon)
      → All (λ f. guess f ≡ rpm_type) files
      → run guess (map add_install files) d ≡ record d { rpm_list = d.rpm_list ++ files }
  unfolding run daemon_add_install add_install_as bytes_eq
  run-add_install [] d h = ap (λ l. record d { rpm_list = l }) (sym (append-nil d.rpm_list))
  run-add_install (f ∷ files) d h =
      ap (λ t. run guess (map add_install files) (add_install_as t f d)) (h.0)
      ∙ (run-add_install files (record d { rpm_list = d.rpm_list ++ (f ∷ []) }) (h.1)
          ∙ ap (λ l. record d { rpm_list = l }) (append_assoc d.rpm_list (f ∷ []) files))

  -- What thread 0 does: its first step, its callbacks, and its last three steps.
  abbrev pub thread_events : List Callback → List Event
  thread_events cs = advance 0 ∷ (map (calls 0) cs ++ (advance 0 ∷ advance 0 ∷ advance 0 ∷ []))

  run-session :
      (files : List Bytes) (cs : List Callback)
      → files ≢ []
      → All (λ f. guess f ≡ rpm_type) files
      → All RpmCallback cs
      → run guess (map add_install files ++ (install ∷ thread_events cs)) daemon_init
        ≡ record daemon_init {
          emitted = signals_of cs ++ (finished install_install ∷ []);
          threads = rpm_gone ∷ [];
        }
  unfolding daemon_init
  run-session files cs some_file rpms h =
      run-append guess (map add_install files) (install ∷ thread_events cs) daemon_init
      ∙ (ap (run guess (install ∷ thread_events cs)) (run-add_install files daemon_init rpms)
          ∙ install_session guess (record daemon_init { rpm_list = files }) cs refl some_file h)

  run-list_read :
      (files : List Bytes)
      → files ≢ []
      → All (λ f. guess f ≡ rpm_type) files
      → (run guess (map add_install files ++ (install ∷ advance 0 ∷ [])) daemon_init).threads
        ≡ rpm_running files ∷ []
  unfolding daemon_init
  run-list_read files some_file rpms =
      ap (λ d. d.threads)
        (run-append guess (map add_install files) (install ∷ advance 0 ∷ []) daemon_init
          ∙ (ap (run guess (install ∷ advance 0 ∷ [])) (run-add_install files daemon_init rpms)
              ∙ session_start guess (record daemon_init { rpm_list = files }) refl some_file))

module _ (q : Qt) (shows_welcome : Bool) (first : Bytes × Bool) (rest : List (Bytes × Bool))
    (plain : IsPlain q (first ∷ rest)) (distinct : IsDistinct q (first ∷ rest)) where
  -- The front end once Next was pressed on each page but the last.
  abbrev pub at_last_page : Greeter
  at_last_page =
      let start = step_widget shows_welcome (first.0) (map (λ r. r.0) rest) in
      press q (length start.stack - 1) (first ∷ rest) start

  made-wanted_files :
      at_last_page.made ≡ map add_install (wanted_files q (first ∷ rest)) ++ (install ∷ [])
  made-wanted_files =
      (press-chosen q shows_welcome first rest plain distinct).1 ∙ wanted_calls q first rest

  run-made :
      (guess : Bytes → Bytes) (es : List Event)
      → run guess (at_last_page.made ++ es) daemon_init
        ≡ run guess (map add_install (wanted_files q (first ∷ rest)) ++ (install ∷ es)) daemon_init
  run-made guess es =
      let adds = map add_install (wanted_files q (first ∷ rest)) in
      ap (λ l. run guess (l ++ es) daemon_init) made-wanted_files
      ∙ ap (λ l. run guess l daemon_init) (append_assoc adds (install ∷ []) es)

  -- The files are arguments of the front end, none of the name of another and none with an
  -- ampersand in its name; it is pressed Next on each page but the last, with a checked box where
  -- there are several files; all wanted files are of the type of .rpm files, and the calls reach a
  -- daemon that has just started. Then its one thread gets exactly the wanted files, in their
  -- order. Once this thread has made the callbacks of `install_rpm` for these files, whatever
  -- librpm reports, and its own steps, the daemon is free again with an empty list, its signals are
  -- those of the callbacks and then Finished, and the page that has received them shows the button
  -- Finish.
  pub press-finished :
      (guess : Bytes → Bytes) (k : Rpmcli) (s s' : Statics) (cs : List Callback)
      (handed : Option (Arguments × List Bytes))
      → IsReady (first ∷ rest)
      → let files = wanted_files q (first ∷ rest) in
        All (λ f. guess f ≡ rpm_type) files
        → install_rpm k files s ≡ ran cs handed s'
        → let d = run guess (at_last_page.made ++ thread_events guess cs) daemon_init in
          ((run guess (at_last_page.made ++ (advance 0 ∷ [])) daemon_init).threads
            ≡ rpm_running files ∷ [])
          × (d ≡ record daemon_init {
            emitted = signals_of cs ++ (finished install_install ∷ []);
            threads = rpm_gone ∷ [];
          })
          × ((on_signals q d.emitted install_widget).finish_visible ≡ true)
  press-finished guess k s s' cs handed ready rpms e =
      let files = wanted_files q (first ∷ rest) in
      let some_file = wanted_files-IsReady q (first ∷ rest) ready in
      let whole =
        run-made guess (thread_events guess cs)
        ∙ run-session guess files cs some_file rpms
            (install_rpm-RpmCallback k files s s' cs handed e) in
      (
        ap (λ d. d.threads) (run-made guess (advance 0 ∷ []))
            ∙ run-list_read guess files some_file rpms,
        whole,
        ap (λ d. (on_signals q d.emitted install_widget).finish_visible) whole
            ∙ on_signals-finished q (signals_of cs),
      )
