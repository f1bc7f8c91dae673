-- ===== src/Greeter/Calls.antt =====
-- Which calls the window of greeter makes of the daemon.
use isoft_package_installer.Base.{
  if◌then◌else◌, Bytes, get_elem?, ℕ, zero, suc, ◌≡◌, refl, ap, ◌∙◌, Bool, true, false, some, List,
  [], ◌∷◌, map, sym, subst, ◌==◌, bytes_eq, ◌↔◌, ◌++◌, arith,
}
use isoft_package_installer.Greeter.{
  Qt, Settings, is_show_me, Page, welcome_page, package_page, install_page, next_enabled,
  step_widget, without_ampersands, add_named, add_rows,
}
use isoft_package_installer.Greeter.Window.{
  WindowEvent, box_clicked, finish_clicked, Window, new_boxes, open_window, toggle, on_window,
  window_event, window_events, next_clicked, show_clicked, cancel_clicked, signalled,
}
use isoft_package_installer.Greeter.Clicks.{
  Rest, calls_at, window_at, IsPlaced, rest_event, page-IsPlaced, rest_event-IsPlaced,
  on_window-rest_event,
}
use isoft_package_installer.Greeter.View.{install_widget}
use mathlib.Core.Option.{some-injective}
use isoft_package_installer.Daemon.{Event, add_install, install}

toggle-files :
    (i : ℕ) (boxes : List (Bytes × Bool)) → map (λ r. r.0) (toggle i boxes) ≡ map (λ r. r.0) boxes
unfolding toggle
toggle-files i [] = refl
toggle-files zero ((file, is_checked) ∷ boxes) = refl
toggle-files (suc i) (box ∷ boxes) = ap (λ l. box.0 ∷ l) (toggle-files i boxes)

new_boxes-files : (files : List Bytes) → map (λ r. r.0) (new_boxes files) ≡ files
unfolding new_boxes
new_boxes-files [] = refl
new_boxes-files (file ∷ files) = ap (λ l. file ∷ l) (new_boxes-files files)

-- The boxes keep their files.
rest_event-boxes :
    (q : Qt) (others : List Bytes) (e : WindowEvent) (p : Page) (r : Rest)
    → map (λ s. s.0) ((rest_event q others e (p, r)).1.boxes_now) ≡ map (λ s. s.0) r.boxes_now
rest_event-boxes q others (box_clicked i) package_page r = toggle-files i r.boxes_now
rest_event-boxes q others finish_clicked install_page r = if_visible r.install_now.finish_visible
  where
    if_visible :
        (x : Bool)
        → map (λ s. s.0) ((if x then record r { open_now = false } else r).boxes_now)
          ≡ map (λ s. s.0) r.boxes_now
    if_visible true = refl
    if_visible false = refl
rest_event-boxes q others next_clicked welcome_page r = refl
rest_event-boxes q others next_clicked package_page r = refl
rest_event-boxes q others next_clicked install_page r = refl
rest_event-boxes q others (box_clicked i) welcome_page r = refl
rest_event-boxes q others (box_clicked i) install_page r = refl
rest_event-boxes q others (show_clicked x) welcome_page r = refl
rest_event-boxes q others (show_clicked x) package_page r = refl
rest_event-boxes q others (show_clicked x) install_page r = refl
rest_event-boxes q others cancel_clicked welcome_page r = refl
rest_event-boxes q others cancel_clicked package_page r = refl
rest_event-boxes q others cancel_clicked install_page r = refl
rest_event-boxes q others finish_clicked welcome_page r = refl
rest_event-boxes q others finish_clicked package_page r = refl
rest_event-boxes q others (signalled s) p r = refl

-- Some box is checked.
abbrev pub IsChecked : List (Bytes × Bool) → Type 0
IsChecked boxes = (i : ℕ) × (file : Bytes) × (get_elem? boxes i ≡ some (file, true))

next_enabled-IsChecked :
    (boxes : List (Bytes × Bool)) → (next_enabled boxes ≡ true) ↔ IsChecked boxes
unfolding next_enabled
next_enabled-IsChecked [] = (λ h. cc, none_checked)
  where
    none_checked : IsChecked [] → false ≡ true
    none_checked (i, file, e) = cc
next_enabled-IsChecked ((file, true) ∷ boxes) = (λ h. (0, file, refl), λ h. refl)
next_enabled-IsChecked ((file, false) ∷ boxes) =
    let (there, back) = next_enabled-IsChecked boxes in (λ h. behind (there h), λ h. before back h)
  where
    behind : IsChecked boxes → IsChecked ((file, false) ∷ boxes)
    behind (i, f, e) = (suc i, f, e)

    before :
        (IsChecked boxes → next_enabled boxes ≡ true)
        → IsChecked ((file, false) ∷ boxes)
        → next_enabled boxes ≡ true
    before back (zero, f, e) = cc
    before back (suc i, f, e) = back (i, f, e)

-- The name without its ampersands.
abbrev pub plain_name : Bytes → Bytes
plain_name [] = []
plain_name (c ∷ s) = (if c == b'&' then [] else c ∷ []) ++ plain_name s

-- For a name: AddInstall of each file that has it.
abbrev pub asked_for : Qt → Bytes → List (Bytes × Bool) → List Event
asked_for q name [] = []
asked_for q name ((file, is_checked) ∷ boxes) =
    (if bytes_eq (q.file_name file) name then add_install (q.absolute_path file) ∷ [] else [])
    ++ asked_for q name boxes

-- For the checked boxes in their order: what is asked for by the plain name of the box's file.
abbrev pub asked : Qt → List (Bytes × Bool) → List (Bytes × Bool) → List Event
asked q all [] = []
asked q all ((file, true) ∷ boxes) =
    asked_for q (plain_name (q.file_name file)) all ++ asked q all boxes
asked q all ((file, false) ∷ boxes) = asked q all boxes

without_ampersands-plain_name : (s : Bytes) → without_ampersands s ≡ plain_name s
unfolding without_ampersands
without_ampersands-plain_name [] = refl
without_ampersands-plain_name (c ∷ s) = ground (arith, without_ampersands-plain_name s)

module _ (q : Qt) where
  add_named-asked_for :
      (text : Bytes) (boxes : List (Bytes × Bool))
      → add_named q text (map (λ r. r.0) boxes) ≡ asked_for q (plain_name text) boxes
  unfolding add_named
  add_named-asked_for text [] = refl
  add_named-asked_for text ((file, is_checked) ∷ boxes) =
      ground (arith, without_ampersands-plain_name text, add_named-asked_for text boxes)

  add_rows-asked :
      (all boxes : List (Bytes × Bool)) → add_rows q (map (λ r. r.0) all) boxes ≡ asked q all boxes
  unfolding add_rows
  add_rows-asked all [] = refl
  add_rows-asked all ((file, true) ∷ boxes) =
      rw (add_named-asked_for (q.file_name file) all) (rw (add_rows-asked all boxes) refl)
  add_rows-asked all ((file, false) ∷ boxes) = add_rows-asked all boxes

  -- The calls that are asked for once this page is shown.
  abbrev pub calls_asked : Bytes → List Bytes → Page → List (Bytes × Bool) → List Event
  calls_asked file [] p boxes = add_install file ∷ install ∷ []
  calls_asked file (other ∷ others) install_page boxes = asked q boxes boxes ++ (install ∷ [])
  calls_asked file (other ∷ others) p boxes = []

  calls_at-calls_asked :
      (file : Bytes) (others : List Bytes) (p : Page) (boxes : List (Bytes × Bool))
      → calls_at q file others p boxes ≡ calls_asked file others p boxes
  calls_at-calls_asked file [] p boxes = refl
  calls_at-calls_asked file (other ∷ others) install_page boxes =
      ap (λ l. l ++ (install ∷ [])) (add_rows-asked boxes boxes)
  calls_at-calls_asked file (other ∷ others) welcome_page boxes = refl
  calls_at-calls_asked file (other ∷ others) package_page boxes = refl

-- Where there are several files, the last page is shown only with a checked box.
abbrev pub HasChosen : List Bytes → Page → List (Bytes × Bool) → Type 0
HasChosen (other ∷ others) install_page boxes = IsChecked boxes
HasChosen others p boxes = Unit

IsPlaced-HasChosen :
    (b : Bool) (others : List Bytes) (p : Page) (r : Rest)
    → IsPlaced b others (p, r)
    → HasChosen others p r.boxes_now
IsPlaced-HasChosen b [] p r v = tt
IsPlaced-HasChosen b (other ∷ others) welcome_page r v = tt
IsPlaced-HasChosen b (other ∷ others) package_page r v = tt
IsPlaced-HasChosen b (other ∷ others) install_page r v = (next_enabled-IsChecked r.boxes_now).0 v

module _ (q : Qt) (file : Bytes) where
  -- What a window has come to: a page with its boxes, in place.
  abbrev Reaches : Bool → List Bytes → List (Bytes × Bool) → Window → Type 0
  Reaches b others boxes w =
      (x : Page × Rest) × (w ≡ window_at q b file others x)
      × IsPlaced b others x
      × (map (λ r. r.0) (x.1.boxes_now) ≡ map (λ r. r.0) boxes)

  window_event-Reaches :
      (b : Bool) (others : List Bytes) (e : WindowEvent) (p : Page) (r : Rest)
      → IsPlaced b others (p, r)
      → Reaches b others r.boxes_now (window_event q e (window_at q b file others (p, r)))
  unfolding window_event
  window_event-Reaches b others e p r v = if_open r.open_now
    where
      from : Window
      from = window_at q b file others (p, r)

      moved : Window
      moved = on_window q e (get_elem? from.greeter.stack from.greeter.shown) from

      if_open : (x : Bool) → Reaches b others r.boxes_now (if x then moved else from)
      if_open true = (
        rest_event q others e (p, r),
        ap (λ o. on_window q e o from) (page-IsPlaced b others p r v)
            ∙ on_window-rest_event q file b others e p r v,
        rest_event-IsPlaced q b others e p r v,
        rest_event-boxes q others e p r,
      )
      if_open false = ((p, r), refl, v, refl)

  window_events-Reaches :
      (b : Bool) (others : List Bytes) (es : List WindowEvent) (p : Page) (r : Rest)
      → IsPlaced b others (p, r)
      → Reaches b others r.boxes_now (window_events q es (window_at q b file others (p, r)))
  unfolding window_events
  window_events-Reaches b others [] p r v = ((p, r), refl, v, refl)
  window_events-Reaches b others (e ∷ es) p r v =
      let ((p1, r1), there, placed, same) = window_event-Reaches b others e p r v in
      let (x, reached, kept, alike) = window_events-Reaches b others es p1 r1 placed in
      (x, ap (window_events q es) there ∙ reached, kept, alike ∙ same)

  abbrev starting : List Bytes → Settings → Rest
  starting others s = record {
    boxes_now = new_boxes (file ∷ others);
    install_now = install_widget;
    settings_now = s;
    open_now = true;
  }

  started :
      (b : Bool) (others : List Bytes) (s : Settings)
      → Reaches b others (new_boxes (file ∷ others)) (record {
        greeter = step_widget b file others;
        boxes = new_boxes (file ∷ others);
        is_enabled = true;
        install_page_of = install_widget;
        settings = s;
        is_open = true;
      })
  unfolding step_widget next_enabled new_boxes
  started true [] s = ((welcome_page, starting [] s), refl, refl, refl)
  started true (other ∷ others) s = ((welcome_page, starting (other ∷ others) s), refl, refl, refl)
  started false [] s = ((install_page, starting [] s), refl, tt, refl)
  started false (other ∷ others) s = ((package_page, starting (other ∷ others) s), refl, tt, refl)

  -- The window at its start.
  open_window-window_at :
      (s : Settings) (others : List Bytes) (w : Window)
      → open_window s (file ∷ others) ≡ some w
      → Reaches (is_show_me s).0 others (new_boxes (file ∷ others)) w
  unfolding open_window
  open_window-window_at s others w e =
      let (shows_welcome, after) = is_show_me s in
      let (x, same, placed, boxes) = started shows_welcome others after in
      (x, sym (some-injective _ w e) ∙ same, placed, boxes)

  -- The window of greeter, opened with at least one file, after any clicks and signals. The boxes
  -- are those of the files, and the button of the package page is enabled exactly if one of them is
  -- checked. For a single file the calls were made at the start: AddInstall of its argument and
  -- Install. For several files no call was made before the last page is shown; once it is, the
  -- calls are, for each checked box in order, AddInstall of each file whose name is that of the box
  -- without ampersands, and then one of Install, and a box is checked. No call was made besides.
  pub window_events-calls_at :
      (s : Settings) (others : List Bytes) (w : Window) (es : List WindowEvent)
      → open_window s (file ∷ others) ≡ some w
      → let v = window_events q es w in
        (map (λ r. r.0) v.boxes ≡ file ∷ others)
        × ((v.is_enabled ≡ true) ↔ IsChecked v.boxes)
        × ((p : Page) × (get_elem? v.greeter.stack v.greeter.shown ≡ some p)
            × (v.greeter.made ≡ calls_asked q file others p v.boxes)
            × HasChosen others p v.boxes)
  window_events-calls_at s others w es e =
      let b = (is_show_me s).0 in
      let ((p, r), start, placed, boxes) = open_window-window_at s others w e in
      let ((p1, r1), there, kept, alike) = window_events-Reaches b others es p r placed in
      let reached = ap (window_events q es) start ∙ there in
      (
        ap (λ v. map (λ x. x.0) v.boxes) reached
            ∙ (alike ∙ (boxes ∙ new_boxes-files (file ∷ others))),
        subst (λ v. (v.is_enabled ≡ true) ↔ IsChecked v.boxes) (sym reached)
            (next_enabled-IsChecked r1.boxes_now),
        (
          p1,
          ap (λ v. get_elem? v.greeter.stack v.greeter.shown) reached
              ∙ page-IsPlaced b others p1 r1 kept,
          ap (λ v. v.greeter.made) reached
              ∙ (calls_at-calls_asked q file others p1 r1.boxes_now
                  ∙ sym (ap (λ v. calls_asked q file others p1 v.boxes) reached)),
          subst (HasChosen others p1) (sym (ap (λ v. v.boxes) reached))
              (IsPlaced-HasChosen b others p1 r1 kept),
        ),
      )
