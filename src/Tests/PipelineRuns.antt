-- ===== src/Tests/PipelineRuns.antt =====
-- A .deb file on its whole way, over the small dpkg and librpm of the other runs.
use isoft_package_installer.Tests.ConversionRuns.{tool_dpkg, tool_machine, plain_build}
use isoft_package_installer.Tests.InstallRuns.{small_rpmcli, plain_arguments, after_run}
use isoft_package_installer.RpmHelper.{
  install_rpm, with_argv, transact, fill_all, fill, print_format, set_arguments,
}
use isoft_package_installer.RpmHelper.Progress.{statics_init, ratio, notified, rpm_show_progress}
use isoft_package_installer.Daemon.{rpm_problem}
use isoft_package_installer.DebHelper.Pipeline.{
  conversion, installation, installing_daemon, run-conversion,
}
use isoft_package_installer.Daemon.{
  deb_type, deb_gone, rpm_gone, finished, install_install, Callback, progress,
}
use isoft_package_installer.Daemon.Steps.{signals_of}
use isoft_package_installer.DebHelper.{go, Machine, Identity, read_identity, describe, install_deb}
use isoft_package_installer.Tests.SimpleRpm.{simple_rpm}
use isoft_package_installer.Base.{
  if◌then◌else◌, Bytes, codes, bytes_eq, ◌≡◌, refl, true, Option, none, some, List, [], ◌∷◌, map,
  arith, decimal, starts_with, ◌++◌,
}
use isoft_package_installer.Daemon.{run, daemon_init}
use isoft_package_installer.AppPkg.Write.{app_pkg_write}
use isoft_package_installer.DebHelper.Callbacks.{signals_for}
use isoft_package_installer.Debresolve.Info.{deb_info}
use isoft_package_installer.AppPkg.{AppPkg, app_pkg_new, app_pkg_set_name, app_pkg_set_arch}
use isoft_package_installer.Package.{Package}
use isoft_package_installer.DebHelper.WrittenPath.{IsAtPath}

abbrev tool_callbacks : List Callback
tool_callbacks =
    progress (record { num = 1; den = 2 }) (some (codes "a.deb.rpm"))
    ∷ progress (record { num = 2; den = 2 }) (some (codes "a.deb.rpm"))
    ∷ rpm_problem (codes "conflict")
    ∷ []

abbrev tool_written : List (Package simple_rpm × Bytes)
tool_written = elim (install_deb simple_rpm plain_build tool_dpkg tool_machine (codes "a.deb")).1 [
  | go w ↦ w
  | _ ↦ []
]

run-conversion_example :
    IsAtPath simple_rpm plain_build tool_dpkg tool_machine (codes "a.deb") tool_written
    × (run
          (λ f. deb_type)
          (conversion simple_rpm plain_build tool_dpkg tool_machine (codes "a.deb"))
          daemon_init
        ≡ installing_daemon simple_rpm plain_build tool_dpkg tool_machine (codes "a.deb"))
    × (run
          (λ f. deb_type)
          (conversion simple_rpm plain_build tool_dpkg tool_machine (codes "a.deb")
            ++ installation simple_rpm plain_build tool_dpkg tool_machine
                (codes "a.deb")
                tool_callbacks)
          daemon_init
        ≡ record daemon_init {
          deb = some (codes "a.deb");
          emitted =
              (signals_for
                  (some (codes "a.deb"))
                  (install_deb simple_rpm plain_build tool_dpkg tool_machine (codes "a.deb")).0
                ++ signals_of tool_callbacks)
              ++ (finished install_install ∷ []);
          threads = deb_gone ∷ rpm_gone ∷ [];
        })
unfolding install_deb daemon_init install_rpm with_argv transact fill_all fill print_format ratio
    notified rpm_show_progress set_arguments deb_info bytes_eq app_pkg_write
    isoft_package_installer.AppPkg.Additions.app_pkg_add_filelist
    isoft_package_installer.AppPkg.app_pkg_set_packager
    isoft_package_installer.AppPkg.app_pkg_set_description
    isoft_package_installer.AppPkg.app_pkg_set_summary
    isoft_package_installer.AppPkg.app_pkg_set_group isoft_package_installer.AppPkg.app_pkg_set_url
    isoft_package_installer.DebHelper.is_amd64 isoft_package_installer.Base.strstr app_pkg_set_arch
    isoft_package_installer.AppPkg.app_pkg_set_release
    isoft_package_installer.AppPkg.app_pkg_set_version app_pkg_set_name decimal
    isoft_package_installer.Base.decimal_int
run-conversion_example =
    run-conversion simple_rpm plain_build tool_dpkg tool_machine (codes "a.deb") (λ f. deb_type)
      small_rpmcli tool_written tool_callbacks statics_init after_run
      (some (set_arguments true plain_arguments, codes "a.deb.rpm" ∷ [])) (ground arith) refl refl
      refl
