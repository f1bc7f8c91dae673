-- ===== src/Greeter.antt =====
-- greeter: the front end, from the arguments to the calls of the daemon's methods.
pub mod Choices
pub mod View
pub mod Session
pub mod Window
pub mod Clicks
pub mod Calls
pub mod Stopped
use isoft_package_installer.Daemon.{Event, add_install, install}
use isoft_package_installer.Base.{
  ltb, ◌==◌, if◌then◌else◌, Bytes, bytes_eq, length, get_elem?, ℕ, zero, suc, ◌+◌, Bool, true,
  false, not, ◌||◌, Option, none, some, List, [], ◌∷◌, ◌++◌, map,
}

-- `QFileInfo::fileName` and `QFileInfo::absoluteFilePath`.
pub record Qt : Type 0 where
  pub file_name : Bytes → Bytes
  pub absolute_path : Bytes → Bytes

-- Of the settings: whether their directory and their file exist, and the stored
-- "greeter/showme". A value that is not there reads as false.
pub record Settings : Type 0 where
  pub has_directory : Bool
  pub has_file : Bool
  pub show_me : Option Bool

abbrev to_bool : Option Bool → Bool
to_bool none = false
to_bool (some b) = b

-- `WelcomeWidget::isShowMe`, where `mkdir` works: the answer and the settings.
unfoldable pub is_show_me : Settings → Bool × Settings
is_show_me s =
    if not s.has_directory
    then (true, record s { has_directory = true })
    else if not s.has_file
    then (true, s)
    else (to_bool s.show_me, s)

-- A click on the box of the welcome page, by its new state.
unfoldable pub show_box_clicked : Bool → Settings → Settings
show_box_clicked checked s = record s {
  has_directory = true;
  has_file = true;
  show_me = some (not checked);
}

pub data Page : Type 0 where
  welcome_page package_page install_page : Page

-- The pages of the stack, the index of the one that is shown, `m_currentIndex`, and the calls that
-- were made of the daemon, oldest first.
pub record Greeter : Type 0 where
  pub stack : List Page
  pub shown : ℕ
  pub current_index : ℕ
  pub made : List Event

-- `QStackedWidget::setCurrentIndex`, which does nothing for an index that has no page, and the
-- `m_currentIndex++` in its argument.
unfoldable pub show_next : Greeter → Greeter
show_next g = record g {
  shown = if ltb g.current_index (length g.stack) then g.current_index else g.shown;
  current_index = g.current_index + 1;
}

abbrev when : Bool → Page → List Page
when b p = if b then p ∷ [] else []

abbrev pub is_single : List Bytes → Bool
is_single [] = true
is_single (file ∷ files) = false

-- The constructor of `StepWidget`, for the first argument and those behind it. `main` has left
-- where there is none.
unfoldable pub step_widget : Bool → Bytes → List Bytes → Greeter
step_widget shows_welcome file others = record {
  stack =
      when shows_welcome welcome_page
      ++ (when (not (is_single others)) package_page ++ (install_page ∷ []));
  shown = 0;
  current_index = 1;
  made = if is_single others then add_install file ∷ install ∷ [] else [];
}

-- `replace ("&", "")`
unfoldable pub without_ampersands : Bytes → Bytes
without_ampersands [] = []
without_ampersands (c ∷ s) = let rest = without_ampersands s in if c == b'&' then rest else c ∷ rest

module _ (q : Qt) where
  -- The inner loop of the button of the package page: each file of the name that the box has.
  unfoldable pub add_named : Bytes → List Bytes → List Event
  unfolding without_ampersands
  add_named text [] = []
  add_named text (file ∷ files) =
      let rest = add_named text files in
      if bytes_eq (q.file_name file) (without_ampersands text)
      then add_install (q.absolute_path file) ∷ rest
      else rest

  -- The outer loop: a row is the file that its box was made for and whether the box is checked.
  unfoldable pub add_rows : List Bytes → List (Bytes × Bool) → List Event
  unfolding add_named
  add_rows files [] = []
  add_rows files ((file, is_checked) ∷ rows) =
      (if is_checked then add_named (q.file_name file) files else []) ++ add_rows files rows

  -- The button of the package page, with what `StepWidget` does on its signal.
  unfoldable pub package_next : List (Bytes × Bool) → Greeter → Greeter
  unfolding add_rows show_next
  package_next rows g =
      let shown_next : Greeter =
        show_next (record g { made = g.made ++ add_rows (map (λ r. r.0) rows) rows }) in
      record shown_next { made = shown_next.made ++ (install ∷ []) }

  -- The button Next of the page that is shown. The last page has none.
  unfoldable pub press_next : List (Bytes × Bool) → Greeter → Greeter
  unfolding package_next show_next
  press_next rows g = elim (get_elem? g.stack g.shown) [
    | none ↦ g
    | some welcome_page ↦ show_next g
    | some package_page ↦ package_next rows g
    | some install_page ↦ g
  ]

  unfoldable pub press : ℕ → List (Bytes × Bool) → Greeter → Greeter
  unfolding press_next
  press zero rows g = g
  press (suc n) rows g = press n rows (press_next rows g)

-- The handler of a click on a box of the package page: whether the button is enabled.
unfoldable pub next_enabled : List (Bytes × Bool) → Bool
next_enabled [] = false
next_enabled ((file, is_checked) ∷ rows) = is_checked || next_enabled rows
