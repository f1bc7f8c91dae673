-- ===== src/Utils/Removal.antt =====
-- When `utils_remove_dir` removes a directory.
use isoft_package_installer.Utils.Directories.{
  Content, removable, fixed_file, folder, locked_folder, Listing, nothing, named, is_hidden,
  Removal, removed, exited, Sweep, swept, stopped, keep, after_entry, after_loop, remove_content,
  sweep,
}
use isoft_package_installer.Base.{Bytes, ◌≡◌, refl, ◌∙◌, Bool, true, false, not, ◌&&◌, arith, ap}

-- It and everything below can be removed and no name begins with a dot.
mutual
  pub is_clear_content : Content → Bool
  is_clear_content removable = true
  is_clear_content fixed_file = false
  is_clear_content locked_folder = false
  is_clear_content (folder b l) = b && is_clear l

  pub is_clear : Listing → Bool
  is_clear nothing = true
  is_clear (named file c l) = not (is_hidden file) && (is_clear_content c && is_clear l)

abbrev pub is_removed : Removal → Bool
is_removed removed = true
is_removed (exited c) = false

abbrev is_bare : Sweep → Bool
is_bare (swept nothing) = true
is_bare (swept (named file c l)) = false
is_bare (stopped l) = false

after_loop-is_bare : (b : Bool) (s : Sweep) → is_removed (after_loop b s) ≡ (b && is_bare s)
unfolding after_loop
after_loop-is_bare true (swept nothing) = refl
after_loop-is_bare false (swept nothing) = refl
after_loop-is_bare true (swept (named file c l)) = refl
after_loop-is_bare false (swept (named file c l)) = refl
after_loop-is_bare true (stopped l) = refl
after_loop-is_bare false (stopped l) = refl

keep-is_bare : (file : Bytes) (c : Content) (s : Sweep) → is_bare (keep file c s) ≡ false
unfolding keep
keep-is_bare file c (swept l) = refl
keep-is_bare file c (stopped l) = refl

after_entry-is_bare :
    (file : Bytes) (l : Listing) (r : Removal) (s : Sweep)
    → is_bare (after_entry file l r s) ≡ (is_removed r && is_bare s)
unfolding after_entry
after_entry-is_bare file l removed s = refl
after_entry-is_bare file l (exited c) s = refl

mutual
  unfolding sweep is_clear

  remove_content-is_clear : (c : Content) → is_removed (remove_content c) ≡ is_clear_content c
  remove_content-is_clear removable = refl
  remove_content-is_clear fixed_file = refl
  remove_content-is_clear locked_folder = refl
  remove_content-is_clear (folder b l) =
      after_loop-is_bare b (sweep l) ∙ ap (λ x. b && x) (sweep-is_clear l)

  sweep-is_clear : (l : Listing) → is_bare (sweep l) ≡ is_clear l
  sweep-is_clear nothing = refl
  sweep-is_clear (named file c l) = ground (
    arith,
    keep-is_bare file c (sweep l),
    after_entry-is_bare file l (remove_content c) (sweep l),
    remove_content-is_clear c,
    sweep-is_clear l,
  )

abbrev pub is_folder : Content → Bool
is_folder (folder b l) = true
is_folder c = false
