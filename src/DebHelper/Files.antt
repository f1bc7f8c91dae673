-- ===== src/DebHelper/Files.antt =====
-- The files that `traverse_directory` lists.
use isoft_package_installer.Base.{
  Bytes, length, ◌≡◌, sym, ap, ◌∙◌, some, List, [], ◌∷◌, ◌++◌, append-nil, append_assoc, take,
  length-append, drop-append_length, ◌-◌, refl, arith, ltb, All, All-append, sizes, true,
}
use isoft_package_installer.AppPkg.Additions.{app_pkg_add_filelist}
use isoft_package_installer.Rpm.{Rpm}
use isoft_package_installer.DebHelper.Tree.{
  Node, directory, closed, regular, other, Entries, end, entry, join, visit, traverse_directory,
  Substring, IsAscii, IsSubstring,
}
use isoft_package_installer.AppPkg.{AppPkg}

-- The paths of the regular files below a directory, in the order of the walk, for a path of the
-- directory itself below the root.
unfoldable mutual
  pub files_at : Bytes → Node → List Bytes
  files_at path (directory es) = files_below path es
  files_at path closed = []
  files_at path regular = path ∷ []
  files_at path other = []

  pub files_below : Bytes → Entries → List Bytes
  files_below path end = []
  files_below path (entry file n es) = files_at (join path file) n ++ files_below path es

take_all : (s : Bytes) → take (length s) s ≡ s
take_all [] = refl
take_all (c ∷ s) = ap (λ r. c ∷ r) (take_all s)

All-split : (xs ys : List Bytes) → All IsAscii (xs ++ ys) → All IsAscii xs × All IsAscii ys
All-split [] ys h = (tt, h)
All-split (x ∷ xs) ys h = let (a, b) = All-split xs ys h.1 in ((h.0, a), b)

module _ (R : Rpm) where
  -- The package with a list of files, empty or not.
  abbrev pub listing : AppPkg R → List Bytes → AppPkg R
  listing a l = record { pkg = record (a.pkg) { file_list = some l } }

  substring-join :
      (sub : Substring) (root rel : Bytes)
      → IsSubstring sub
      → IsAscii root
      → IsAscii rel
      → sub (root ++ rel) (length root) (length (root ++ rel)) ≡ rel
  substring-join sub root rel G a b =
      G (root ++ rel) (length root) (length (root ++ rel))
        (All-append (λ c. ltb c 128 ≡ true) root rel a b) (grind sizes) (omega arith)
      ∙ rw (drop-append_length root rel) (
          let e : length (root ++ rel) - length root ≡ length rel =
            omega (arith, length-append root rel) in
          rw e (take_all rel))

  module _ (sub : Substring) (root : Bytes) (a : AppPkg R) (G : IsSubstring sub)
      (ascii : IsAscii root) where
    mutual
      unfolding visit files_at app_pkg_add_filelist

      visit_lem :
          (n : Node) (rel : Bytes) (l : List Bytes)
          → All IsAscii (files_at rel n)
          → visit R sub root (root ++ rel) n (listing a l) ≡ listing a (l ++ files_at rel n)
      visit_lem (directory es) rel l h = traverse_directory_lem es rel l h
      visit_lem closed rel l h = rw append-nil
      visit_lem regular rel l h = rw (substring-join sub root rel G ascii h.0)
      visit_lem other rel l h = rw append-nil

      traverse_directory_lem :
          (es : Entries) (rel : Bytes) (l : List Bytes)
          → All IsAscii (files_below rel es)
          → traverse_directory R sub root (root ++ rel) es (listing a l)
            ≡ listing a (l ++ files_below rel es)
      traverse_directory_lem end rel l h = rw append-nil
      traverse_directory_lem (entry file n es) rel l h =
          let (here, later) = All-split (files_at (join rel file) n) (files_below rel es) h in
          ap
            (λ p.
              traverse_directory R sub root (root ++ rel) es (visit R sub root p n (listing a l)))
            (append_assoc root rel (b'/' ∷ file))
          ∙ (ap (traverse_directory R sub root (root ++ rel) es)
                (visit_lem n (join rel file) l here)
              ∙ (traverse_directory_lem es rel (l ++ files_at (join rel file) n) later
                  ∙ ap (listing a) (append_assoc l _ _)))

    -- Where the build root and the paths of the regular files below it are ASCII, the walk from it
    -- adds to the package the path, below the root, of each regular
    -- file in the tree, in the order of the walk, and changes nothing else. Directories that cannot
    -- be opened and entries that are neither file nor directory add nothing.
    pub traverse_directory-files_below :
        (es : Entries) (l : List Bytes)
        → All IsAscii (files_below [] es)
        → traverse_directory R sub root root es (listing a l) ≡ listing a (l ++ files_below [] es)
    traverse_directory-files_below es l h =
        ap (λ p. traverse_directory R sub root p es (listing a l)) (sym (append-nil root))
        ∙ traverse_directory_lem es [] l h
