-- ===== src/DebHelper/WrittenPath.antt =====
-- Where `install_deb` of daemon/deb-helper.c writes its package.
use isoft_package_installer.AppPkg.Write.{Build, crashed, returned, app_pkg_write, Write}
use isoft_package_installer.Base.{
  Bytes, ◌≡◌, if◌then◌else◌, codes, take, ◌-◌, ◌⊎◌, Bool, true, false, not, Option, none, some,
  List, [], ◌∷◌, ◌++◌,
}
use isoft_package_installer.DebHelper.{
  Stage, go, quit, crash, ◌>>=◌, Machine, directory_name, read_identity, describe, out_path, pack,
  at_tenths, no_directory_message, no_memory_message, install_deb,
}
use isoft_package_installer.Package.{Package}
use isoft_package_installer.Daemon.{Callback, deb_problem}
use isoft_package_installer.AppPkg.Written.{IsOnce, app_pkg_write-IsOnce}
use isoft_package_installer.Rpm.{Rpm}
use isoft_package_installer.DebHelper.Tree.{traverse_directory, dirtyfiles, unlink_all}
use isoft_package_installer.Debresolve.Info.{Dpkg}
use isoft_package_installer.AppPkg.{AppPkg}

module _ (R : Rpm) (B : Build R) (k : Dpkg) (m : Machine) (deb : Bytes) where
  -- What was written is one package at the path, or nothing.
  abbrev pub IsAtPath : List (Package R × Bytes) → Type 0
  IsAtPath w =
      (w ≡ []) ⊎ ((p : Package R) × (w ≡ (p, take (m.path_max - 2) (deb ++ codes ".rpm")) ∷ []))

  abbrev pub IsAtPathIfDone : Stage (List (Package R × Bytes)) → Type 0
  IsAtPathIfDone (go w) = IsAtPath w
  IsAtPathIfDone s = Unit

  pack-IsAtPathIfDone : (root : Bytes) (a : AppPkg R) → IsAtPathIfDone (pack R B m root deb a)
  unfolding pack
  pack-IsAtPathIfDone root a =
      let files = unlink_all dirtyfiles (m.unpacked root) in
      let filled = traverse_directory R m.g_utf8_substring root root files a in
      by_write (app_pkg_write R B filled root (out_path R m deb))
        (app_pkg_write-IsOnce R B filled root (out_path R m deb))
    where
      by_write :
          (w : Write R)
          → IsOnce R B (take (m.path_max - 2) (deb ++ codes ".rpm")) w
          → IsAtPathIfDone (elim w [ crashed ↦ crash | returned rc b w ↦ go w ])
      by_write crashed h = tt
      by_write (returned rc b w) h = h

  abbrev early : List Callback
  early = at_tenths 2 [] ∷ at_tenths 4 [] ∷ []

  -- What `install_deb` makes of what was packed, and of a description.
  abbrev of_packed :
      Stage (List (Package R × Bytes)) → List Callback × Stage (List (Package R × Bytes))
  of_packed packed =
      let described = early ++ (at_tenths 6 [] ∷ []) in
      elim packed [
        | quit ↦ (described, quit)
        | crash ↦ (described, crash)
        | go w ↦ (
          described ++ (at_tenths 8 (out_path R m deb) ∷ at_tenths 10 (out_path R m deb) ∷ []),
          go w,
        )
      ]

  abbrev of_described : Bytes → Stage (AppPkg R) → List Callback × Stage (List (Package R × Bytes))
  of_described root described = elim described [
    | quit ↦ (early, quit)
    | crash ↦ (early, crash)
    | go a ↦ of_packed (pack R B m root deb a)
  ]

  pub install_deb-IsAtPathIfDone : IsAtPathIfDone (install_deb R B k m deb).1
  unfolding install_deb
  install_deb-IsAtPathIfDone = by_directory (directory_name m)
    where
      by_packed :
          (s : Stage (List (Package R × Bytes))) → IsAtPathIfDone s → IsAtPathIfDone (of_packed s).1
      by_packed quit h = tt
      by_packed crash h = tt
      by_packed (go w) h = h

      by_described : (root : Bytes) (s : Stage (AppPkg R)) → IsAtPathIfDone (of_described root s).1
      by_described root quit = tt
      by_described root crash = tt
      by_described root (go a) = by_packed (pack R B m root deb a) (pack-IsAtPathIfDone root a)

      by_malloc :
          (root : Bytes) (b : Bool)
          → IsAtPathIfDone
              (if not b
                then (early ++ (deb_problem no_memory_message ∷ []), quit)
                else of_described root
                    (read_identity m.g_utf8_substring k root >>= describe R k root)).1
      by_malloc root false = tt
      by_malloc root true =
          by_described root (read_identity m.g_utf8_substring k root >>= describe R k root)

      by_directory :
          (d : Option Bytes)
          → IsAtPathIfDone
              (elim d as (λ x. List Callback × Stage (List (Package R × Bytes))) [
                | none ↦ (deb_problem no_directory_message ∷ [], quit)
                | some root ↦
                    if not m.malloc_works
                    then (early ++ (deb_problem no_memory_message ∷ []), quit)
                    else of_described root
                        (read_identity m.g_utf8_substring k root >>= describe R k root)
              ]).1
      by_directory none = tt
      by_directory (some root) = by_malloc root m.malloc_works
