-- ===== src/Tests/GreeterRuns.antt =====
-- Runs of the front end in greeter.
use isoft_package_installer.Greeter.{
  Qt, step_widget, press, without_ampersands, next_enabled, Settings, is_show_me, Page, show_next,
  add_named, add_rows, package_next, press_next,
}
use isoft_package_installer.Greeter.View.{on_signals, install_widget, all_lines, on_signals-run}
use isoft_package_installer.Daemon.{
  Event, add_install, install, advance, rpm_type, daemon_init, run, install_install, finished,
  rpm_running, rpm_gone, deb_gone, deb_type,
}
use isoft_package_installer.Daemon.Weights.{announced}
use isoft_package_installer.Base.{
  ltb, Bytes, codes, bytes_eq, length, get_elem?, sum_by, ◌-◌, ◌≡◌, refl, Bool, true, false, some,
  List, [], ◌∷◌, ◌++◌, map, none, arith, ◌↔◌,
}
use isoft_package_installer.Tests.InstallRuns.{
  plain_arguments, small_rpmcli, half_then_whole, after_run,
}
use isoft_package_installer.RpmHelper.{
  print_format, fill, fill_all, set_arguments, transact, with_argv, install_rpm,
}
use isoft_package_installer.Daemon.Steps.{signals_of}
use isoft_package_installer.Greeter.Session.{thread_events, press-finished}
use isoft_package_installer.RpmHelper.Progress.{statics_init, ratio, rpm_show_progress, notified}
use isoft_package_installer.Greeter.Calls.{
  HasChosen, window_events-calls_at, IsChecked, calls_asked,
}
use isoft_package_installer.Greeter.Window.{
  WindowEvent, next_clicked, box_clicked, Window, new_boxes, open_window, toggle, click_box,
  on_window, window_events,
}
use isoft_package_installer.DebHelper.{install_deb}
use isoft_package_installer.Tests.SimpleRpm.{simple_rpm}
use isoft_package_installer.Tests.ConversionRuns.{tool_machine, plain_build, tool_dpkg}
use isoft_package_installer.Greeter.Stopped.{thread_of_deb, step_widget-quit}
use isoft_package_installer.DebHelper.Callbacks.{signals_for}
use isoft_package_installer.Debresolve.Info.{Dpkg, deb_info}

abbrev plain_qt : Qt
plain_qt = record { file_name = λ f. f; absolute_path = λ f. codes "/" ++ f }

abbrev one_session : List Event
one_session = add_install (codes "a.rpm") ∷ install ∷ advance 0 ∷ advance 0 ∷ advance 0 ∷ []

on_signals-run_example :
    let d = run (λ f. rpm_type) one_session daemon_init in
    let w = on_signals plain_qt d.emitted install_widget in
    (w.info ≡ all_lines plain_qt d.emitted)
    × (w.finish_visible ≡ ltb 0 (sum_by announced d.threads))
on_signals-run_example = on_signals-run plain_qt (λ f. rpm_type) one_session

abbrev same_qt : Qt
same_qt = record { file_name = λ f. f; absolute_path = λ f. f }

abbrev second_chosen : List (Bytes × Bool)
second_chosen = (codes "a.rpm", false) ∷ (codes "x.rpm", true) ∷ []

press-finished_example :
    let start = step_widget true (codes "a.rpm") (codes "x.rpm" ∷ []) in
    let g = press same_qt (length start.stack - 1) second_chosen start in
    let d =
      run (λ f. rpm_type) (g.made ++ thread_events (λ f. rpm_type) half_then_whole) daemon_init in
    ((run (λ f. rpm_type) (g.made ++ (advance 0 ∷ [])) daemon_init).threads
      ≡ rpm_running (codes "x.rpm" ∷ []) ∷ [])
    × (d ≡ record daemon_init {
      emitted = signals_of half_then_whole ++ (finished install_install ∷ []);
      threads = rpm_gone ∷ [];
    })
    × ((on_signals same_qt d.emitted install_widget).finish_visible ≡ true)
unfolding without_ampersands bytes_eq next_enabled install_rpm with_argv transact fill_all fill
    print_format ratio notified rpm_show_progress set_arguments
press-finished_example =
    press-finished same_qt true (codes "a.rpm", false) ((codes "x.rpm", true) ∷ [])
      (refl, (refl, tt)) (((refl, refl), tt), (tt, tt)) (λ f. rpm_type) small_rpmcli statics_init
      after_run half_then_whole (some (set_arguments true plain_arguments, codes "x.rpm" ∷ [])) refl
      (refl, tt) refl

abbrev shown_settings : Settings
shown_settings = record { has_directory = true; has_file = true; show_me = some true }

abbrev opened : Window
opened = record {
  greeter = step_widget true (codes "a.rpm") (codes "b.rpm" ∷ []);
  boxes = new_boxes (codes "a.rpm" ∷ codes "b.rpm" ∷ []);
  is_enabled = true;
  install_page_of = install_widget;
  settings = shown_settings;
  is_open = true;
}

-- Both boxes are unchecked, so that the second click on Next does nothing, and one is checked again.
abbrev some_clicks : List WindowEvent
some_clicks =
    next_clicked
    ∷ box_clicked 0
    ∷ box_clicked 1
    ∷ next_clicked
    ∷ box_clicked 1
    ∷ next_clicked
    ∷ next_clicked
    ∷ []

some_clicks_calls :
    (window_events plain_qt some_clicks opened).greeter.made
    ≡ add_install (codes "/b.rpm") ∷ install ∷ []
unfolding window_events on_window click_box toggle next_enabled new_boxes step_widget press_next
    package_next show_next add_rows add_named without_ampersands bytes_eq
some_clicks_calls = refl

window_events-calls_at_example :
    let v = window_events plain_qt some_clicks opened in
    (map (λ r. r.0) v.boxes ≡ codes "a.rpm" ∷ codes "b.rpm" ∷ [])
    × ((v.is_enabled ≡ true) ↔ IsChecked v.boxes)
    × ((p : Page) × (get_elem? v.greeter.stack v.greeter.shown ≡ some p)
        × (v.greeter.made ≡ calls_asked plain_qt (codes "a.rpm") (codes "b.rpm" ∷ []) p v.boxes)
        × HasChosen (codes "b.rpm" ∷ []) p v.boxes)
unfolding open_window is_show_me
window_events-calls_at_example =
    window_events-calls_at plain_qt (codes "a.rpm") shown_settings (codes "b.rpm" ∷ []) opened
      some_clicks refl

-- The control part has no field that can be read.
abbrev no_fields : Dpkg
no_fields = record tool_dpkg { open_control = λ dir. none }

step_widget-quit_example :
    let d =
      run
        (λ f. deb_type)
        ((step_widget true (codes "a.deb") []).made
          ++ thread_of_deb simple_rpm plain_build no_fields tool_machine (codes "a.deb"))
        daemon_init in
    (d ≡ record daemon_init {
      deb = some (codes "a.deb");
      emitted =
          signals_for
            (some (codes "a.deb"))
            (install_deb simple_rpm plain_build no_fields tool_machine (codes "a.deb")).0;
      threads = deb_gone ∷ [];
    })
    × ((on_signals plain_qt d.emitted install_widget).finish_visible ≡ false)
unfolding install_deb deb_info
step_widget-quit_example =
    step_widget-quit simple_rpm plain_build no_fields tool_machine (codes "a.deb") (λ f. deb_type)
      true plain_qt (ground arith) refl refl
