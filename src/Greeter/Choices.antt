-- ===== src/Greeter/Choices.antt =====
-- From the first page to the last: what the daemon is told to install.
use isoft_package_installer.Greeter.{
  Qt, install_page, show_next, is_single, step_widget, without_ampersands, add_named, add_rows,
  package_next, press_next, press,
}
use isoft_package_installer.Daemon.{Event, add_install, install}
use isoft_package_installer.Base.{
  if◌then◌else◌, Bytes, bytes_eq, All, ◌≡◌, refl, Bool, false, List, [], ◌∷◌, ◌++◌, map,
  bytes_eq_refl, length, get_elem?, ◌-◌, ap, true, some,
}

module _ (q : Qt) where
  abbrev name_of : Bytes × Bool → Bytes
  name_of r = q.file_name (r.0)

  -- No two files have the same name, in whatever directories they are.
  abbrev pub IsDistinct : List (Bytes × Bool) → Type 0
  IsDistinct [] = Unit
  IsDistinct (r ∷ rows) =
      All
        (λ s.
          (bytes_eq (name_of s) (name_of r) ≡ false) × (bytes_eq (name_of r) (name_of s) ≡ false))
        rows
      × IsDistinct rows

  abbrev pub IsPlain : List (Bytes × Bool) → Type 0
  IsPlain = All (λ r. without_ampersands (name_of r) ≡ name_of r)

  -- The calls for the files whose boxes are checked, in their order.
  abbrev pub chosen : List (Bytes × Bool) → List Event
  chosen [] = []
  chosen ((file, is_checked) ∷ rows) =
      (if is_checked then add_install (q.absolute_path file) ∷ [] else []) ++ chosen rows

  add_named-none :
      (r : Bytes × Bool) (rows : List (Bytes × Bool))
      → without_ampersands (name_of r) ≡ name_of r
      → All
          (λ s.
            (bytes_eq (name_of s) (name_of r) ≡ false) × (bytes_eq (name_of r) (name_of s) ≡ false))
          rows
      → add_named q (name_of r) (map (λ s. s.0) rows) ≡ []
  unfolding add_named
  add_named-none r [] p h = refl
  add_named-none r (s ∷ rows) p h = rw p (rw (h.0.0) (add_named-none r rows p (h.1)))

  -- A file of another name adds nothing to the rows.
  add_rows-skip :
      (r : Bytes × Bool) (files : List Bytes) (rows : List (Bytes × Bool))
      → IsPlain rows
      → All
          (λ s.
            (bytes_eq (name_of s) (name_of r) ≡ false) × (bytes_eq (name_of r) (name_of s) ≡ false))
          rows
      → add_rows q (r.0 ∷ files) rows ≡ add_rows q files rows
  unfolding add_rows add_named
  add_rows-skip r files [] p h = refl
  add_rows-skip r files ((file, is_checked) ∷ rows) p h =
      rw (p.0) (rw (h.0.1) (rw (add_rows-skip r files rows (p.1) (h.1)) refl))

  add_rows-chosen :
      (rows : List (Bytes × Bool))
      → IsPlain rows
      → IsDistinct rows
      → add_rows q (map (λ r. r.0) rows) rows ≡ chosen rows
  unfolding add_rows add_named
  add_rows-chosen [] p h = refl
  add_rows-chosen ((file, is_checked) ∷ rows) p h =
      rw (add_rows-skip (file, is_checked) (map (λ r. r.0) rows) rows (p.1) (h.0)) (
        rw (add_rows-chosen rows (p.1) (h.1)) (
          rw (p.0) (
            rw (bytes_eq_refl (q.file_name file))
              (rw (add_named-none (file, is_checked) rows (p.0) (h.0)) refl))))

  -- With the files as arguments, and a box for each: pressing Next on each page but the last shows
  -- the page of the installation, whether the welcome page is shown first or not. By then the daemon
  -- was told to install exactly the files whose boxes are checked, in their order, and then Install
  -- was called once, where there are several files, none of the name of another and none with an
  -- ampersand in its name; a single file was added by its own argument before.
  pub press-chosen :
      (shows_welcome : Bool) (first : Bytes × Bool) (rest : List (Bytes × Bool))
      → IsPlain (first ∷ rest)
      → IsDistinct (first ∷ rest)
      → let start = step_widget shows_welcome (first.0) (map (λ r. r.0) rest) in
        let g = press q (length start.stack - 1) (first ∷ rest) start in
        (get_elem? g.stack g.shown ≡ some install_page)
        × (g.made ≡ (
            if is_single (map (λ r. r.0) rest)
            then add_install (first.0) ∷ install ∷ []
            else chosen (first ∷ rest) ++ (install ∷ [])))
  unfolding step_widget press press_next package_next show_next
  press-chosen true first [] p h = (refl, refl)
  press-chosen false first [] p h = (refl, refl)
  press-chosen true first (r ∷ rest) p h =
      (refl, ap (λ l. l ++ (install ∷ [])) (add_rows-chosen (first ∷ r ∷ rest) p h))
  press-chosen false first (r ∷ rest) p h =
      (refl, ap (λ l. l ++ (install ∷ [])) (add_rows-chosen (first ∷ r ∷ rest) p h))
