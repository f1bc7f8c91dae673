-- ===== src/Greeter/Clicks.antt =====
-- What can come of the clicks on the window of greeter.
use isoft_package_installer.Base.{
  if◌then◌else◌, Bytes, get_elem?, ℕ, ◌+◌, ◌≡◌, Bool, true, false, some, List, [], ◌∷◌, ◌++◌, map,
  refl,
}
use isoft_package_installer.Daemon.{Event, add_install, install}
use isoft_package_installer.Greeter.{
  Qt, Settings, show_box_clicked, Page, welcome_page, package_page, install_page, add_rows,
  next_enabled, show_next, press_next, package_next,
}
use isoft_package_installer.Greeter.Window.{
  WindowEvent, next_clicked, box_clicked, show_clicked, cancel_clicked, finish_clicked, signalled,
  Window, toggle, click_box, on_window, quit,
}
use isoft_package_installer.Greeter.View.{InstallWidget, on_signal}

-- The window without its indices and buttons: the page that is shown, and apart from it the boxes,
-- the page of the installation, the settings and whether the program runs.
pub record Rest : Type 0 where
  pub boxes_now : List (Bytes × Bool)
  pub install_now : InstallWidget
  pub settings_now : Settings
  pub open_now : Bool

-- The pages of the window.
abbrev pub pages : Bool → List Bytes → List Page
pages true [] = welcome_page ∷ install_page ∷ []
pages false [] = install_page ∷ []
pages true (other ∷ others) = welcome_page ∷ package_page ∷ install_page ∷ []
pages false (other ∷ others) = package_page ∷ install_page ∷ []

abbrev pub index_of : Bool → List Bytes → Page → ℕ
index_of b others welcome_page = 0
index_of true others package_page = 1
index_of false others package_page = 0
index_of true [] install_page = 1
index_of false [] install_page = 0
index_of true (other ∷ others) install_page = 2
index_of false (other ∷ others) install_page = 1

-- The calls that were made once this page is shown.
abbrev pub calls_at : Qt → Bytes → List Bytes → Page → List (Bytes × Bool) → List Event
calls_at q file [] p boxes = add_install file ∷ install ∷ []
calls_at q file (other ∷ others) install_page boxes =
    add_rows q (map (λ r. r.0) boxes) boxes ++ (install ∷ [])
calls_at q file (other ∷ others) p boxes = []

abbrev pub window_at : Qt → Bool → Bytes → List Bytes → Page × Rest → Window
window_at q b file others (p, r) = record {
  greeter = record {
    stack = pages b others;
    shown = index_of b others p;
    current_index = index_of b others p + 1;
    made = calls_at q file others p r.boxes_now;
  };
  boxes = r.boxes_now;
  is_enabled = next_enabled r.boxes_now;
  install_page_of = r.install_now;
  settings = r.settings_now;
  is_open = r.open_now;
}

-- The page is one of the pages, and where there are several files the last is shown only with a
-- checked box.
abbrev pub IsPlaced : Bool → List Bytes → Page × Rest → Type 0
IsPlaced b others (welcome_page, r) = b ≡ true
IsPlaced b [] (package_page, r) = ⊥
IsPlaced b (other ∷ others) (package_page, r) = Unit
IsPlaced b [] (install_page, r) = Unit
IsPlaced b (other ∷ others) (install_page, r) = next_enabled r.boxes_now ≡ true

-- The same events on pages and boxes alone.
abbrev pub behind_welcome : List Bytes → Page
behind_welcome [] = install_page
behind_welcome (other ∷ others) = package_page

abbrev quit_rest : Rest → Rest
quit_rest r = record r { open_now = false }

module _ (q : Qt) (others : List Bytes) where
  abbrev pub rest_event : WindowEvent → Page × Rest → Page × Rest
  rest_event next_clicked (welcome_page, r) = (behind_welcome others, r)
  rest_event next_clicked (package_page, r) =
      (if next_enabled r.boxes_now then install_page else package_page, r)
  rest_event (box_clicked i) (package_page, r) =
      (package_page, record r { boxes_now = toggle i r.boxes_now })
  rest_event (show_clicked checked) (welcome_page, r) =
      (welcome_page, record r { settings_now = show_box_clicked checked r.settings_now })
  rest_event cancel_clicked (welcome_page, r) = (welcome_page, quit_rest r)
  rest_event cancel_clicked (package_page, r) = (package_page, quit_rest r)
  rest_event finish_clicked (install_page, r) =
      (install_page, if r.install_now.finish_visible then quit_rest r else r)
  rest_event (signalled s) (p, r) = (p, record r { install_now = on_signal q s r.install_now })
  rest_event e (p, r) = (p, r)

pub page-IsPlaced :
    (b : Bool) (others : List Bytes) (p : Page) (r : Rest)
    → IsPlaced b others (p, r)
    → get_elem? (pages b others) (index_of b others p) ≡ some p
page-IsPlaced true [] welcome_page r v = refl
page-IsPlaced true (other ∷ others) welcome_page r v = refl
page-IsPlaced false others welcome_page r v = cc
page-IsPlaced b [] package_page r v = absurd v
page-IsPlaced true (other ∷ others) package_page r v = refl
page-IsPlaced false (other ∷ others) package_page r v = refl
page-IsPlaced true [] install_page r v = refl
page-IsPlaced false [] install_page r v = refl
page-IsPlaced true (other ∷ others) install_page r v = refl
page-IsPlaced false (other ∷ others) install_page r v = refl

pub rest_event-IsPlaced :
    (q : Qt) (b : Bool) (others : List Bytes) (e : WindowEvent) (p : Page) (r : Rest)
    → IsPlaced b others (p, r)
    → IsPlaced b others (rest_event q others e (p, r))
rest_event-IsPlaced q b [] next_clicked welcome_page r v = tt
rest_event-IsPlaced q b (other ∷ others) next_clicked welcome_page r v = tt
rest_event-IsPlaced q b [] e package_page r v = absurd v
rest_event-IsPlaced q b (other ∷ others) next_clicked package_page r v =
    if_enabled (next_enabled r.boxes_now) refl
  where
    if_enabled :
        (x : Bool)
        → next_enabled r.boxes_now ≡ x
        → IsPlaced b (other ∷ others) (if x then install_page else package_page, r)
    if_enabled true h = h
    if_enabled false h = tt
rest_event-IsPlaced q b (other ∷ others) (box_clicked i) package_page r v = tt
rest_event-IsPlaced q b (other ∷ others) (show_clicked x) package_page r v = tt
rest_event-IsPlaced q b (other ∷ others) cancel_clicked package_page r v = tt
rest_event-IsPlaced q b (other ∷ others) finish_clicked package_page r v = tt
rest_event-IsPlaced q b (other ∷ others) (signalled s) package_page r v = tt
rest_event-IsPlaced q b others (box_clicked i) welcome_page r v = v
rest_event-IsPlaced q b others (show_clicked x) welcome_page r v = v
rest_event-IsPlaced q b others cancel_clicked welcome_page r v = v
rest_event-IsPlaced q b others finish_clicked welcome_page r v = v
rest_event-IsPlaced q b others (signalled s) welcome_page r v = v
rest_event-IsPlaced q b others next_clicked install_page r v = v
rest_event-IsPlaced q b others (box_clicked i) install_page r v = v
rest_event-IsPlaced q b others (show_clicked x) install_page r v = v
rest_event-IsPlaced q b others cancel_clicked install_page r v = v
rest_event-IsPlaced q b [] (signalled s) install_page r v = tt
rest_event-IsPlaced q b (other ∷ others) (signalled s) install_page r v = v
rest_event-IsPlaced q b [] finish_clicked install_page r v = tt
rest_event-IsPlaced q b (other ∷ others) finish_clicked install_page r v =
    kept r.install_now.finish_visible
  where
    kept :
        (x : Bool)
        → IsPlaced b (other ∷ others) (install_page, if x then record r { open_now = false } else r)
    kept true = v
    kept false = v

module _ (q : Qt) (file : Bytes) where
  -- A click on Next moves the window to the page behind.
  next-welcome_page :
      (b : Bool) (others : List Bytes) (r : Rest)
      → b ≡ true
      → on_window q next_clicked (some welcome_page) (window_at q b file others (welcome_page, r))
        ≡ window_at q b file others (behind_welcome others, r)
  unfolding on_window press_next show_next
  next-welcome_page true [] r v = refl
  next-welcome_page true (other ∷ others) r v = refl
  next-welcome_page false others r v = cc

  next-package_page :
      (b : Bool) (other : Bytes) (others : List Bytes) (r : Rest)
      → record (window_at q b file (other ∷ others) (package_page, r)) {
        greeter =
            press_next q r.boxes_now
              (window_at q b file (other ∷ others) (package_page, r)).greeter;
      }
        ≡ window_at q b file (other ∷ others) (install_page, r)
  unfolding press_next package_next show_next
  next-package_page true other others r = refl
  next-package_page false other others r = refl

  next-install_page :
      (b : Bool) (others : List Bytes) (r : Rest)
      → on_window q next_clicked (some install_page) (window_at q b file others (install_page, r))
        ≡ window_at q b file others (install_page, r)
  unfolding on_window press_next
  next-install_page true [] r = refl
  next-install_page true (other ∷ others) r = refl
  next-install_page false [] r = refl
  next-install_page false (other ∷ others) r = refl

  pub on_window-rest_event :
      (b : Bool) (others : List Bytes) (e : WindowEvent) (p : Page) (r : Rest)
      → IsPlaced b others (p, r)
      → on_window q e (some p) (window_at q b file others (p, r))
        ≡ window_at q b file others (rest_event q others e (p, r))
  unfolding on_window click_box
  on_window-rest_event b others next_clicked welcome_page r v = next-welcome_page b others r v
  on_window-rest_event b [] e package_page r v = absurd v
  on_window-rest_event b (other ∷ others) next_clicked package_page r v =
      if_enabled (next_enabled r.boxes_now)
    where
      from : Window
      from = window_at q b file (other ∷ others) (package_page, r)

      if_enabled :
          (x : Bool)
          → (if x then record from { greeter = press_next q r.boxes_now from.greeter } else from)
            ≡ window_at q b file (other ∷ others) (if x then install_page else package_page, r)
      if_enabled true = next-package_page b other others r
      if_enabled false = refl
  on_window-rest_event b others next_clicked install_page r v = next-install_page b others r
  on_window-rest_event b (other ∷ others) (box_clicked i) package_page r v = refl
  on_window-rest_event b others (show_clicked x) welcome_page r v = refl
  on_window-rest_event b others cancel_clicked welcome_page r v = refl
  on_window-rest_event b (other ∷ others) cancel_clicked package_page r v = refl
  on_window-rest_event b others finish_clicked install_page r v =
      if_visible r.install_now.finish_visible
    where
      if_visible :
          (x : Bool)
          → (if x
              then quit (window_at q b file others (install_page, r))
              else window_at q b file others (install_page, r))
            ≡ window_at q b file others
                (install_page, if x then record r { open_now = false } else r)
      if_visible true = refl
      if_visible false = refl
  on_window-rest_event b others (signalled s) p r v = refl
  on_window-rest_event b others _ p r v = refl
