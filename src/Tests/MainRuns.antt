-- ===== src/Tests/MainRuns.antt =====
-- Runs of daemon/main.c and of the object on the bus.
use isoft_package_installer.Deb2rpm.{deb2rpm}
use isoft_package_installer.Main.{Options, Environment, bus_acquired, name_lost, quit_signal, main}
use isoft_package_installer.Main.Exits.{main-expected_code, code_of}
use isoft_package_installer.Daemon.Lifecycle.{Bus}
use isoft_package_installer.Base.{codes, ◌≡◌, inl, true, false, some, [], ◌∷◌, none}
use isoft_package_installer.DebHelper.{install_deb}
use isoft_package_installer.Tests.SimpleRpm.{simple_rpm}
use isoft_package_installer.Deb2rpm.Converting.{deb2rpm-install_deb, without_callbacks}
use isoft_package_installer.Tests.ConversionRuns.{tool_dpkg, tool_machine, plain_build}
use isoft_package_installer.Utils.LogWriter.{logger_init}
use isoft_package_installer.Main.Heard.{AllHeard, actions_of, main-AllHeard}

abbrev with_options : Options
with_options = record { show_version = false; replace = true; debug = false }

abbrev started : Environment
started = record {
  sets_environment = true;
  parsed = inl with_options;
  has_messages_debug = false;
  entering = codes "start";
  leaving = codes "end";
}

abbrev closed_bus : Bus
closed_bus = record { connects = true; exports = false; failure = some (codes "denied") }

main-expected_code_example :
    code_of (main started (bus_acquired closed_bus ∷ quit_signal ∷ [])) ≡ some 0
main-expected_code_example = main-expected_code started (bus_acquired closed_bus ∷ quit_signal ∷ [])

-- With --debug the loss of the name is written to the log.
abbrev debugged : Environment
debugged = record started { parsed = inl (record with_options { debug = true }) }

main-AllHeard_example :
    AllHeard (actions_of (main debugged (name_lost ∷ []))) (logger_init (λ path. none))
main-AllHeard_example = main-AllHeard debugged (name_lost ∷ []) (λ path. none)

deb2rpm-install_deb_example :
    deb2rpm simple_rpm plain_build tool_dpkg tool_machine
      (codes "deb2rpm" ∷ codes "a.deb" ∷ codes "b.deb" ∷ [])
    ≡ without_callbacks simple_rpm plain_build
        (install_deb simple_rpm plain_build tool_dpkg tool_machine (codes "a.deb"))
deb2rpm-install_deb_example =
    deb2rpm-install_deb simple_rpm plain_build tool_dpkg tool_machine (codes "deb2rpm")
      (codes "a.deb") (codes "b.deb" ∷ [])
