-- ===== src/Greeter/View.antt =====
-- greeter/installwidget.cpp: what the last page shows of the daemon's signals.
use isoft_package_installer.Daemon.{
  Status, deb2rpm, install_install, Signal, percent_changed, error, finished, Percent, is_one,
  daemon_init, Event, run,
}
use isoft_package_installer.Daemon.Signals.{run-IsAnnounced}
use isoft_package_installer.Daemon.Weights.{of_finished, announced}
use isoft_package_installer.Greeter.{Qt}
use isoft_package_installer.Base.{
  ltb, if◌then◌else◌, Bytes, sum_by, ◌≡◌, sym, ap, ◌∙◌, Bool, true, false, ◌||◌, Option, none, some,
  List, [], ◌∷◌, ◌++◌, append-nil, append_assoc, refl, arith,
}

-- The texts of the title and of the lines below it.
pub data Line : Type 0 where
  details_line : Bytes → Line
  converting_line converted_line installing_line installed_line : Bytes → Line

-- The page: its title, the value of the progress bar once it is visible, before it is multiplied by
-- 100, its lines, and whether the button Finish is visible.
pub record InstallWidget : Type 0 where
  pub title : Option Line
  pub progress_value : Option Percent
  pub info : List Line
  pub finish_visible : Bool

-- The page before any signal.
abbrev pub install_widget : InstallWidget
install_widget = record { title = none; progress_value = none; info = []; finish_visible = false }

abbrev text_or_empty : Option Bytes → Bytes
text_or_empty none = []
text_or_empty (some s) = s

module _ (q : Qt) where
  -- The handler of PercentChanged.
  unfoldable pub on_percent : Status → Bytes → Percent → InstallWidget → InstallWidget
  on_percent deb2rpm file percent w =
      let name = q.file_name file in
      if is_one percent
      then record w {
        title = some (converted_line name);
        progress_value = some percent;
        info = w.info ++ (converted_line name ∷ []);
      }
      else record w { title = some (converting_line name); progress_value = some percent }
  on_percent install_install file percent w =
      let name = q.file_name file in
      if is_one percent
      then record w {
        title = some (installed_line name);
        progress_value = some percent;
        info = w.info ++ (installed_line name ∷ []);
      }
      else record w { title = some (installing_line name); progress_value = some percent }

  -- The three handlers. A NULL file is an empty text.
  unfoldable pub on_signal : Signal → InstallWidget → InstallWidget
  unfolding on_percent
  on_signal (error message) w = record w { info = w.info ++ (details_line message ∷ []) }
  on_signal (percent_changed status file percent) w =
      on_percent status (text_or_empty file) percent w
  on_signal (finished status) w = record w { finish_visible = true }

  unfoldable pub on_signals : List Signal → InstallWidget → InstallWidget
  unfolding on_signal
  on_signals [] w = w
  on_signals (s ∷ l) w = on_signals l (on_signal s w)

  -- The lines that one signal adds.
  abbrev pub lines_of : Signal → List Line
  lines_of (error message) = details_line message ∷ []
  lines_of (percent_changed deb2rpm file percent) =
      if is_one percent then converted_line (q.file_name (text_or_empty file)) ∷ [] else []
  lines_of (percent_changed install_install file percent) =
      if is_one percent then installed_line (q.file_name (text_or_empty file)) ∷ [] else []
  lines_of (finished status) = []

  abbrev pub all_lines : List Signal → List Line
  all_lines [] = []
  all_lines (s ∷ l) = lines_of s ++ all_lines l

  on_signal-lines_of :
      (s : Signal) (w : InstallWidget) → (on_signal s w).info ≡ w.info ++ lines_of s
  unfolding on_signal on_percent
  on_signal-lines_of (error message) w = refl
  on_signal-lines_of (percent_changed deb2rpm file percent) w = ground (arith, append-nil w.info)
  on_signal-lines_of (percent_changed install_install file percent) w =
      ground (arith, append-nil w.info)
  on_signal-lines_of (finished status) w = sym (append-nil w.info)

  on_signals-all_lines :
      (l : List Signal) (w : InstallWidget) → (on_signals l w).info ≡ w.info ++ all_lines l
  unfolding on_signals
  on_signals-all_lines [] w = sym (append-nil w.info)
  on_signals-all_lines (s ∷ l) w =
      on_signals-all_lines l (on_signal s w)
      ∙ (ap (λ x. x ++ all_lines l) (on_signal-lines_of s w)
          ∙ append_assoc w.info (lines_of s) (all_lines l))

  on_signal-of_finished :
      (s : Signal) (w : InstallWidget)
      → (on_signal s w).finish_visible ≡ (w.finish_visible || ltb 0 (of_finished s))
  unfolding on_signal on_percent
  on_signal-of_finished (error message) w = ground arith
  on_signal-of_finished (percent_changed deb2rpm file percent) w = ground arith
  on_signal-of_finished (percent_changed install_install file percent) w = ground arith
  on_signal-of_finished (finished status) w = ground arith

  pub on_signals-of_finished :
      (l : List Signal) (w : InstallWidget)
      → (on_signals l w).finish_visible ≡ (w.finish_visible || ltb 0 (sum_by of_finished l))
  unfolding on_signals sum_by
  on_signals-of_finished [] w = ground arith
  on_signals-of_finished (s ∷ l) w =
      on_signals-of_finished l (on_signal s w) ∙ (rw (on_signal-of_finished s w) (ground arith))

  -- The page that has received all signals of a daemon, from its start and after any events: its
  -- lines are the errors and the files that were converted or installed, in the order of the
  -- signals, and the button Finish is visible exactly if some installing routine has come past its
  -- last signal, whichever files that routine was about.
  pub on_signals-run :
      (guess : Bytes → Bytes) (es : List Event)
      → let d = run guess es daemon_init in
        let w = on_signals d.emitted install_widget in
        (w.info ≡ all_lines d.emitted) × (w.finish_visible ≡ ltb 0 (sum_by announced d.threads))
  on_signals-run guess es =
      let d = run guess es daemon_init in
      (
        on_signals-all_lines d.emitted install_widget,
        on_signals-of_finished d.emitted install_widget ∙ ap (ltb 0) (run-IsAnnounced guess es),
      )
