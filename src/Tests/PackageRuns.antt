-- ===== src/Tests/PackageRuns.antt =====
-- Packages over the simple librpm.
use isoft_package_installer.Tests.SimpleRpm.{simple_rpm, simple_rpm-IsLawful}
use isoft_package_installer.Base.{
  ◌==◌, codes, starts_with, ℕ, ◌≡◌, refl, true, false, ◌&&◌, ◌||◌, none, some, [], ◌∷◌,
}
use isoft_package_installer.Package.{Package, new_package, package_dependencies, add_req_prov}
use isoft_package_installer.Rpm.{Tag, number, Dependency}
use isoft_package_installer.Package.Dependencies.{holds, IsTable, add_req_prov-holds}
use isoft_package_installer.AppPkg.{AppPkg, app_pkg_new}
use isoft_package_installer.Package.Release.{Owner, app_pkg_free}
use isoft_package_installer.Package.Leaks.{times, times-app_pkg_free}

abbrev empty_package : AppPkg simple_rpm
empty_package = app_pkg_new simple_rpm

abbrev needs_libc : Dependency
needs_libc = record {
  name = codes "libc";
  evr = codes "2";
  sense = record { equal = true; less = false; rpmlib = false };
}

abbrev fresh : Package simple_rpm
fresh = new_package simple_rpm none

add_req_prov-holds_example :
    let after = (add_req_prov simple_rpm fresh Tag.requirename needs_libc).0.dependencies in
    IsTable simple_rpm after
    × ((t : ℕ) (y : Dependency)
        → holds simple_rpm after t y ≡ (
            holds simple_rpm fresh.dependencies t y
            || ((number Tag.requirename == t)
                && simple_rpm.ds_holds (number Tag.requirename, needs_libc ∷ []) y)))
unfolding new_package package_dependencies starts_with
add_req_prov-holds_example =
    add_req_prov-holds simple_rpm simple_rpm-IsLawful fresh Tag.requirename needs_libc tt (λ e. cc)
      refl

abbrev owner : Owner
owner = record {
  package_at = 1;
  pool = some 2;
  package_header = some 3;
  own_ds = none;
  dependency_sets = some 4 ∷ none ∷ [];
  cpio_list = none;
  dpaths = some 5;
  icon = record { source_at = 6; full_source = some 7 } ∷ [];
  pre_in_file = some 8;
  post_in_file = none;
  pre_un_file = none;
  post_un_file = none;
  pre_trans_file = some 9;
  post_trans_file = none;
  verify_file = none;
  trigger_files =
      record { trigger_at = 10; file_name = none; script = some 11; prog = some 12 } ∷ [];
  file_trigger_files = [];
  trans_file_trigger_files = [];
  file_file = none;
  own_file_list = some 13;
  remove_postfixes = none;
  policy_list = none;
}

times-app_pkg_free_example : times 9 (app_pkg_free 20 (some owner)) ≡ 0
times-app_pkg_free_example = times-app_pkg_free 9 20 owner
