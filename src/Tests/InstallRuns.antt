-- ===== src/Tests/InstallRuns.antt =====
-- An installation of one file over a librpm that reports half of it and then the whole.
use isoft_package_installer.Base.{
  Bytes, codes, ◌≡◌, refl, true, false, none, some, List, [], ◌∷◌, arith,
}
use isoft_package_installer.RpmHelper.{Arguments, Rpmcli, set_arguments, ran, install_rpm}
use isoft_package_installer.Daemon.{Callback, progress, rpm_problem}
use isoft_package_installer.RpmHelper.Installing.{install_rpm-progress_of}
use isoft_package_installer.RpmHelper.Progress.{
  inst_open_file, inst_progress, trans_start, Notice, Statics, statics_init, ratio,
  rpm_show_progress, notified,
}

abbrev tail_of : List Bytes → List Bytes
tail_of [] = []
tail_of (x ∷ xs) = xs

abbrev pub plain_arguments : Arguments
plain_arguments = record {
  incldocs = false;
  no_deps = false;
  prefix = none;
  relocations = none;
  flag_nodocs = false;
  flag_nodeps = false;
  flag_percent = false;
}

abbrev half_and_whole : List Bytes → List Notice
half_and_whole [] = []
half_and_whole (f ∷ fs) =
    record { what = trans_start; amount = 0; total = 1; key = none }
    ∷ record { what = inst_open_file; amount = 0; total = 0; key = some f }
    ∷ record { what = inst_progress; amount = 1; total = 2; key = some f }
    ∷ record { what = inst_progress; amount = 2; total = 2; key = some f }
    ∷ []

abbrev pub small_rpmcli : Rpmcli
small_rpmcli = record {
  path_max = 4096;
  argv_allocated = true;
  get_args = tail_of;
  options = λ argv. plain_arguments;
  ts_created = true;
  memory_allocated = true;
  excludedocs = true;
  fopen = λ f. true;
  notices = λ ia args. half_and_whole args;
  problem = λ ia args. codes "conflict";
}

abbrev pub half_then_whole : List Callback
half_then_whole =
    progress (record { num = 1; den = 2 }) (some (codes "x.rpm"))
    ∷ progress (record { num = 2; den = 2 }) (some (codes "x.rpm"))
    ∷ rpm_problem (codes "conflict")
    ∷ []

abbrev pub after_run : Statics
after_run = record {
  progress_state = some trans_start;
  packages_total = 1;
  hashes_current = 0;
  progress_current = 0;
  progress_total = 1;
  fd_is_open = true;
}

install_rpm-progress_of_example :
    install_rpm small_rpmcli (codes "x.rpm" ∷ []) statics_init
    ≡ ran half_then_whole (some (set_arguments true plain_arguments, codes "x.rpm" ∷ [])) after_run
unfolding ratio notified rpm_show_progress set_arguments
install_rpm-progress_of_example =
    install_rpm-progress_of small_rpmcli (codes "x.rpm") [] statics_init
      (
        (
          (
            refl,
            (refl, (refl, (refl, (refl, (refl, (refl, (refl, (refl, (refl, (refl, tt)))))))))),
          ),
          ground arith,
        ),
        (((refl, (refl, (refl, (refl, (refl, tt))))), ground arith), tt),
      )
      refl refl refl refl
