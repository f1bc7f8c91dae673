-- ===== src/Deb2rpm/Converting.antt =====
-- The command of tools/deb2rpm.c against `install_deb` of daemon/deb-helper.c.
use isoft_package_installer.DebHelper.{
  Stage, go, quit, crash, ◌>>=◌, Machine, read_identity, describe, pack, start_package, out_path,
  install_deb, directory_name, at_tenths, no_directory_message, no_memory_message,
}
use isoft_package_installer.Deb2rpm.{
  convert, write_rpm, set_arch, Exit, at_exit, deb2rpm, undefined, exits_with,
}
use isoft_package_installer.AppPkg.Write.{Build, returned, crashed, app_pkg_write}
use isoft_package_installer.Base.{
  Bytes, ◌≡◌, refl, ap, List, [], ◌∷◌, if◌then◌else◌, ◌∙◌, Bool, true, false, not, Option, none,
  some, ◌++◌,
}
use isoft_package_installer.Rpm.{Rpm}
use isoft_package_installer.Debresolve.Info.{Dpkg}
use isoft_package_installer.Deb2rpm.Walk.{add_files-traverse_directory}
use isoft_package_installer.AppPkg.{AppPkg}
use isoft_package_installer.DebHelper.Tree.{dirtyfiles, unlink_all}
use isoft_package_installer.Package.{Package}
use isoft_package_installer.Daemon.{Callback, deb_problem}

bind_assoc {ℓ κ μ} :
    {A : Type ℓ} {B : Type κ} {C : Type μ} (x : Stage A) (f : A → Stage B) (g : B → Stage C)
    → ((x >>= f) >>= g) ≡ (x >>= (λ a. f a >>= g))
bind_assoc (go a) f g = refl
bind_assoc quit f g = refl
bind_assoc crash f g = refl

module _ (R : Rpm) (B : Build R) where
  write_rpm-pack :
      (m : Machine) (root deb : Bytes) (a : AppPkg R)
      → write_rpm R B m root deb a ≡ pack R B m root deb a
  unfolding write_rpm pack
  write_rpm-pack m root deb a =
      ap
        (λ p. elim (app_pkg_write R B p root (out_path R m deb)) [
          | crashed ↦ crash
          | returned rc b written ↦ go written
        ])
        (add_files-traverse_directory R m.g_utf8_substring root root
          (unlink_all dirtyfiles (m.unpacked root)) a)

  convert-pack :
      (k : Dpkg) (m : Machine) (root deb : Bytes)
      → convert R B k m root deb
        ≡ (read_identity m.g_utf8_substring k root >>= describe R k root) >>= pack R B m root deb
  unfolding convert read_identity describe start_package set_arch
  convert-pack k m root deb = simp (bind_assoc, write_rpm-pack)

  -- What the command makes of a run of `install_deb`: it has no callbacks, and returns 0 with what
  -- was written, or with nothing where the run stopped.
  abbrev pub without_callbacks : List Callback × Stage (List (Package R × Bytes)) → Exit R
  without_callbacks (cs, go written) = exits_with 0 written
  without_callbacks (cs, quit) = exits_with 0 []
  without_callbacks (cs, crash) = undefined

  -- What `install_deb` makes of a description, after its first callbacks.
  abbrev of_description :
      Machine → Bytes → Bytes → Stage (AppPkg R) → List Callback × Stage (List (Package R × Bytes))
  of_description m root deb described =
      let early = at_tenths 2 [] ∷ at_tenths 4 [] ∷ [] in
      elim described [
        | quit ↦ (early, quit)
        | crash ↦ (early, crash)
        | go a ↦
            let later = early ++ (at_tenths 6 [] ∷ []) in
            elim (pack R B m root deb a) [
              | quit ↦ (later, quit)
              | crash ↦ (later, crash)
              | go written ↦ (
                later ++ (at_tenths 8 (out_path R m deb) ∷ at_tenths 10 (out_path R m deb) ∷ []),
                go written,
              )
            ]
      ]

  without_callbacks-of_description :
      (m : Machine) (root deb : Bytes) (described : Stage (AppPkg R))
      → at_exit R (described >>= pack R B m root deb)
        ≡ without_callbacks (of_description m root deb described)
  without_callbacks-of_description m root deb quit = refl
  without_callbacks-of_description m root deb crash = refl
  without_callbacks-of_description m root deb (go a) = of_packed (pack R B m root deb a)
    where
      of_packed :
          (packed : Stage (List (Package R × Bytes)))
          → at_exit R packed
            ≡ without_callbacks (
                let later = at_tenths 2 [] ∷ at_tenths 4 [] ∷ at_tenths 6 [] ∷ [] in
                elim packed [
                  | quit ↦ (later, quit)
                  | crash ↦ (later, crash)
                  | go written ↦ (
                    later
                        ++ (at_tenths 8 (out_path R m deb) ∷ at_tenths 10 (out_path R m deb) ∷ []),
                    go written,
                  )
                ])
      of_packed quit = refl
      of_packed crash = refl
      of_packed (go written) = refl

  -- The command, run with a file and any further arguments, converts that file as the daemon does:
  -- it writes the same package to the same path, or none in the same cases, or is undefined in the
  -- same cases. It returns 0 on every path that ends, also where the conversion has stopped.
  pub deb2rpm-install_deb :
      (k : Dpkg) (m : Machine) (command deb : Bytes) (others : List Bytes)
      → deb2rpm R B k m (command ∷ deb ∷ others) ≡ without_callbacks (install_deb R B k m deb)
  unfolding deb2rpm install_deb
  deb2rpm-install_deb k m command deb others = by_directory (directory_name m)
    where
      described : Bytes → Stage (AppPkg R)
      described root = read_identity m.g_utf8_substring k root >>= describe R k root

      by_malloc :
          (b : Bool) (root : Bytes)
          → (if not b then at_exit R quit else at_exit R (convert R B k m root deb))
            ≡ without_callbacks (
                if not b
                then (at_tenths 2 [] ∷ at_tenths 4 [] ∷ deb_problem no_memory_message ∷ [], quit)
                else of_description m root deb (described root))
      by_malloc false root = refl
      by_malloc true root =
          ap (λ s. at_exit R s) (convert-pack k m root deb)
          ∙ without_callbacks-of_description m root deb (described root)

      by_directory :
          (d : Option Bytes)
          → elim d as (λ x. Exit R) [
            | none ↦ at_exit R quit
            | some root ↦
                if not m.malloc_works then at_exit R quit else at_exit R (convert R B k m root deb)
          ]
            ≡ without_callbacks (elim d [
              | none ↦ (deb_problem no_directory_message ∷ [], quit)
              | some root ↦
                  if not m.malloc_works
                  then (at_tenths 2 [] ∷ at_tenths 4 [] ∷ deb_problem no_memory_message ∷ [], quit)
                  else of_description m root deb (described root)
            ])
      by_directory none = refl
      by_directory (some root) = by_malloc m.malloc_works root
