-- ===== src/Greeter/Window.antt =====
-- The window of greeter: main.cpp, the boxes of packagewidget.cpp, and the buttons of all pages.
use isoft_package_installer.Base.{
  if◌then◌else◌, Bytes, get_elem?, ℕ, zero, suc, Bool, true, false, not, Option, none, some, List,
  [], ◌∷◌,
}
use isoft_package_installer.Daemon.{Signal}
use isoft_package_installer.Greeter.{
  Qt, Settings, is_show_me, show_box_clicked, Page, welcome_page, package_page, install_page,
  Greeter, step_widget, press_next, next_enabled,
}
use isoft_package_installer.Greeter.View.{InstallWidget, install_widget, on_signal}

-- What reaches the window: a click on Next, on the box of a row, on the box of the welcome page with
-- its new state, on Cancel or on Finish, and a signal of the daemon.
pub data WindowEvent : Type 0 where
  next_clicked : WindowEvent
  box_clicked : ℕ → WindowEvent
  show_clicked : Bool → WindowEvent
  cancel_clicked finish_clicked : WindowEvent
  signalled : Signal → WindowEvent

-- The pages with the index of the one that is shown and the calls that were made; the boxes of the
-- package page, each with the file that it was made for; whether the button Next of that page is
-- enabled; the page of the installation; the settings; and whether the program runs.
pub record Window : Type 0 where
  pub greeter : Greeter
  pub boxes : List (Bytes × Bool)
  pub is_enabled : Bool
  pub install_page_of : InstallWidget
  pub settings : Settings
  pub is_open : Bool

-- The boxes of the package page, which are made checked.
unfoldable pub new_boxes : List Bytes → List (Bytes × Bool)
new_boxes [] = []
new_boxes (file ∷ files) = (file, true) ∷ new_boxes files

-- `main`, for the arguments behind the name of the program; `none` is the end without a window.
unfoldable pub open_window : Settings → List Bytes → Option Window
unfolding is_show_me step_widget new_boxes
open_window s [] = none
open_window s (file ∷ others) =
    let (shows_welcome, after) = is_show_me s in
    some (record {
      greeter = step_widget shows_welcome file others;
      boxes = new_boxes (file ∷ others);
      is_enabled = true;
      install_page_of = install_widget;
      settings = after;
      is_open = true;
    })

unfoldable pub toggle : ℕ → List (Bytes × Bool) → List (Bytes × Bool)
toggle i [] = []
toggle zero ((file, is_checked) ∷ boxes) = (file, not is_checked) ∷ boxes
toggle (suc i) (box ∷ boxes) = box ∷ toggle i boxes

-- A click on a box of the package page, and the handler of that click.
unfoldable pub click_box : ℕ → Window → Window
unfolding toggle next_enabled
click_box i w =
    let boxes = toggle i w.boxes in record w { boxes = boxes; is_enabled = next_enabled boxes }

-- `QCoreApplication::quit`
abbrev pub quit : Window → Window
quit w = record w { is_open = false }

module _ (q : Qt) where
  -- What an event does where this page is shown. A page has no other buttons and boxes than its own,
  -- and a button that is disabled or not visible cannot be clicked.
  unfoldable pub on_window : WindowEvent → Option Page → Window → Window
  unfolding click_box show_box_clicked press_next on_signal
  on_window next_clicked (some package_page) w =
      if w.is_enabled then record w { greeter = press_next q w.boxes w.greeter } else w
  on_window next_clicked p w = record w { greeter = press_next q w.boxes w.greeter }
  on_window (box_clicked i) (some package_page) w = click_box i w
  on_window (show_clicked checked) (some welcome_page) w = record w {
    settings = show_box_clicked checked w.settings;
  }
  on_window cancel_clicked (some welcome_page) w = quit w
  on_window cancel_clicked (some package_page) w = quit w
  on_window finish_clicked (some install_page) w =
      if w.install_page_of.finish_visible then quit w else w
  on_window (signalled s) p w = record w { install_page_of = on_signal q s w.install_page_of }
  on_window e p w = w

  unfoldable pub window_event : WindowEvent → Window → Window
  unfolding on_window
  window_event e w =
      if w.is_open then on_window e (get_elem? w.greeter.stack w.greeter.shown) w else w

  unfoldable pub window_events : List WindowEvent → Window → Window
  unfolding window_event
  window_events [] w = w
  window_events (e ∷ es) w = window_events es (window_event e w)
