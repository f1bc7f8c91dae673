-- ===== src/Deb2rpm.antt =====
-- tools/deb2rpm.c: the command that converts a .deb file without the daemon.
pub mod Walk
pub mod Converting
use isoft_package_installer.DebHelper.{◌>>=◌}
use isoft_package_installer.AppPkg.{
  AppPkg, app_pkg_new, app_pkg_set_name, app_pkg_set_version, app_pkg_set_release, app_pkg_set_arch,
  app_pkg_set_url, app_pkg_set_group, app_pkg_set_summary, app_pkg_set_packager,
  app_pkg_set_description,
}
use isoft_package_installer.AppPkg.Write.{Build, crashed, returned, app_pkg_write}
use isoft_package_installer.Deb2rpm.Walk.{add_files, tool_dirtyfiles}
use isoft_package_installer.DebHelper.{
  Stage, crash, Machine, directory_name, required_info, optional_info, value_of, cut_line, is_amd64,
  quit, go,
}
use isoft_package_installer.Base.{
  if◌then◌else◌, Bytes, codes, take, ℕ, ◌-◌, not, none, some, List, [], ◌∷◌, ◌++◌,
}
use isoft_package_installer.Package.{Package}
use isoft_package_installer.Rpm.{Rpm}
use isoft_package_installer.DebHelper.Tree.{unlink_all}
use isoft_package_installer.Debresolve.Info.{Dpkg}

-- The code that `main` returns and the packages that were written, or undefined behaviour.
module _ (R : Rpm) where
  pub data Exit : Type 0 where
    exits_with : ℕ → List (Package R × Bytes) → Exit
    undefined : Exit

  -- `memset`, `snprintf` and `unlink` for each name, the walk, and `app_pkg_write`.
  unfoldable pub write_rpm :
      Build R → Machine → Bytes → Bytes → AppPkg R → Stage (List (Package R × Bytes))
  unfolding unlink_all add_files
  write_rpm B m m_buildroot deb m_apkg =
      let remaining = unlink_all tool_dirtyfiles (m.unpacked m_buildroot) in
      let filled = add_files R m.g_utf8_substring m_buildroot m_buildroot remaining m_apkg in
      let out = take (m.path_max - 2) (deb ++ codes ".rpm") in
      elim (app_pkg_write R B filled m_buildroot out) [
        | crashed ↦ crash
        | returned rc b written ↦ go written
      ]

  unfoldable pub set_arch : AppPkg R → Bytes → Bytes → AppPkg R
  set_arch m_apkg v3 arch =
      if is_amd64 v3
      then app_pkg_set_arch R m_apkg (codes "x86_64")
      else app_pkg_set_arch R m_apkg arch

  -- From the first `deb_info` to the label `exit`.
  unfoldable pub convert :
      Build R → Dpkg → Machine → Bytes → Bytes → Stage (List (Package R × Bytes))
  unfolding required_info optional_info value_of cut_line set_arch write_rpm
  convert B k m meta deb = do
    v1 ← required_info k meta (codes "Package")
    deb_package ← value_of m.g_utf8_substring 9 v1
    v2 ← required_info k meta (codes "Version")
    version ← value_of m.g_utf8_substring 9 v2
    v3 ← required_info k meta (codes "Architecture")
    arch ← value_of m.g_utf8_substring 14 v3
    identified ← go (
        set_arch
          (app_pkg_set_release R
            (app_pkg_set_version R (app_pkg_set_name R (app_pkg_new R) deb_package) version)
            (codes "1"))
          v3 arch)
    homepage ← optional_info k meta (codes "Homepage") v1
    section ← optional_info k meta (codes "Section") homepage
    text ← optional_info k meta (codes "Description") section
    lines ← cut_line text
    write_rpm B m meta deb (
        app_pkg_set_packager R
          (app_pkg_set_description R
            (app_pkg_set_summary R
              (app_pkg_set_group R (app_pkg_set_url R identified homepage) section) lines.0)
            lines.1)
          (codes "isoft-packager"))

  -- The label `exit`: the command returns 0 from everywhere.
  abbrev pub at_exit : Stage (List (Package R × Bytes)) → Exit
  at_exit (go written) = exits_with 0 written
  at_exit quit = exits_with 0 []
  at_exit crash = undefined

  -- `main`, but for what it prints.
  unfoldable pub deb2rpm : Build R → Dpkg → Machine → List Bytes → Exit
  unfolding directory_name convert
  deb2rpm B k m [] = at_exit quit
  deb2rpm B k m (command ∷ []) = at_exit quit
  deb2rpm B k m (command ∷ deb ∷ others) = elim (directory_name m) [
    | none ↦ at_exit quit
    | some root ↦ if not m.malloc_works then at_exit quit else at_exit (convert B k m root deb)
  ]
