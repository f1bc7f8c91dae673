-- ===== src/Tests/ConversionRuns.antt =====
-- Conversions of a .deb file over a small dpkg and the simple librpm.
use isoft_package_installer.DebHelper.{go, Machine, Identity, read_identity, describe, install_deb}
use isoft_package_installer.Tests.SimpleRpm.{simple_rpm, simple_rpm-IsLawful}
use isoft_package_installer.Base.{
  if◌then◌else◌, Bytes, codes, bytes_eq, ◌≡◌, refl, true, Option, none, some, List, [], ◌∷◌, map,
  arith, decimal, starts_with, take, drop, ◌-◌,
}
use isoft_package_installer.Daemon.{deb_running, Daemon, calls, run, daemon_init}
use isoft_package_installer.AppPkg.Written.{app_pkg_write_lem}
use isoft_package_installer.AppPkg.Write.{Build, returned, rc_ok, prepare, app_pkg_write}
use isoft_package_installer.Rpm.{Tag}
use isoft_package_installer.DebHelper.Callbacks.{
  signals_for, starting, outcome_files, run-install_deb,
}
use isoft_package_installer.DebHelper.Tree.{
  directory, closed, regular, Entries, end, entry, traverse_directory, Substring,
}
use isoft_package_installer.DebHelper.Description.{
  read_identity-printed, string_of, converted_strings, describe-strings,
}
use isoft_package_installer.DebHelper.Files.{listing, traverse_directory-files_below, files_below}
use isoft_package_installer.Debresolve.Info.{Dpkg, deb_info}
use isoft_package_installer.AppPkg.{AppPkg, app_pkg_new, app_pkg_set_name, app_pkg_set_arch}
use isoft_package_installer.Package.{Package}
use isoft_package_installer.DebHelper.WrittenPath.{IsAtPathIfDone}

-- A control directory with one printed text per field.
abbrev field_of : List (Bytes × Bytes) → Bytes → Option Bytes
field_of [] name = none
field_of ((n, t) ∷ l) name = if bytes_eq n name then some t else field_of l name

abbrev text_or_empty : Option Bytes → Bytes
text_or_empty none = []
text_or_empty (some t) = t

abbrev tool_fields : List (Bytes × Bytes)
tool_fields =
    (codes "Package", codes "Package: tool\n")
    ∷ (codes "Version", codes "Version: 1.2\n")
    ∷ (codes "Architecture", codes "Architecture: amd64\n")
    ∷ (codes "Homepage", codes "Homepage: h\n")
    ∷ (codes "Section", codes "Section: utils\n")
    ∷ (codes "Description", codes "Description: a\n b\n")
    ∷ []

abbrev pub tool_dpkg : Dpkg
tool_dpkg = record {
  Control = List (Bytes × Bytes);
  open_control = λ dir. some tool_fields;
  is_known_field = λ name. true;
  print_field = λ c name. text_or_empty (field_of c name);
  print_arbitrary_field = λ c name. none;
}

abbrev root : Bytes
root = codes "/tmp/f"

abbrev tool_files : Entries
tool_files =
    entry (codes "usr")
      (directory (entry (codes "bin") (directory (entry (codes "tool") regular end)) end))
      (entry (codes "etc") closed end)

-- It agrees with GLib's on ASCII.
abbrev pub plain_substring : Substring
plain_substring s from to = take (to - from) (drop from s)

abbrev pub tool_machine : Machine
tool_machine = record {
  tmpnam_first = some root;
  tmpnam_second = some root;
  malloc_works = true;
  unpacked = λ dir. tool_files;
  path_max = 4096;
  g_utf8_substring = plain_substring;
}

abbrev pub plain_build : Build simple_rpm
plain_build = record {
  with_isa = λ n. n;
  process_package_files = λ dir p. some p;
  generate_depends = λ dir p. some p;
  rpm_version = codes "4.12";
  build_host = codes "host";
  build_time = 7;
}

abbrev tool_identity : Identity
tool_identity = record {
  deb_package = codes "tool";
  version = codes "1.2";
  arch = codes "amd64";
  v1 = codes "Package: tool\n";
  v3 = codes "Architecture: amd64\n";
}

read_identity-printed_example : read_identity plain_substring tool_dpkg root ≡ go tool_identity
unfolding bytes_eq deb_info
read_identity-printed_example =
    read_identity-printed tool_dpkg root plain_substring (codes "tool") (codes "1.2")
      (codes "amd64") (λ s from to a b c. refl) (ground arith) (ground arith) (ground arith) refl
      refl refl (ground arith) (ground arith) (ground arith)

describe-strings_example :
    (a : AppPkg simple_rpm) × (describe simple_rpm tool_dpkg root tool_identity ≡ go a)
    × ((u : Tag)
        → simple_rpm.header_get_string a.pkg.header u
          ≡ string_of
              (converted_strings tool_identity
                (codes "Homepage: h\n")
                (codes "Section: utils\n")
                (codes "Description: a")
                (codes " b\n"))
              u)
unfolding bytes_eq deb_info
describe-strings_example =
    describe-strings simple_rpm simple_rpm-IsLawful tool_dpkg root tool_identity
      (codes "Homepage: h\n") (codes "Section: utils\n") (codes "Description: a") (codes " b\n")
      refl refl refl (ground arith) (ground arith) (ground arith)
      ((
        refl,
        (
          refl,
          (
            refl,
            (
              refl,
              (refl, (refl, (refl, (refl, (refl, (refl, (refl, (refl, (refl, (refl, tt)))))))))),
            ),
          ),
        ),
      ))

traverse_directory-files_below_example :
    traverse_directory simple_rpm plain_substring root root tool_files
      (listing simple_rpm (app_pkg_new simple_rpm) [])
    ≡ listing simple_rpm (app_pkg_new simple_rpm) (files_below [] tool_files)
unfolding files_below
traverse_directory-files_below_example =
    traverse_directory-files_below simple_rpm plain_substring root (app_pkg_new simple_rpm)
      (λ s from to a b c. refl) (ground arith) tool_files [] (ground arith)

abbrev converting : Daemon
converting = record daemon_init {
  deb = some (codes "a.deb");
  threads = deb_running (some (codes "a.deb")) ∷ [];
}

run-install_deb_example :
    let (cs, outcome) = install_deb simple_rpm plain_build tool_dpkg tool_machine (codes "a.deb") in
    (run (λ f. f) (map (calls 0) cs) converting ≡ record converting {
      rpm_list =
          outcome_files simple_rpm plain_build tool_dpkg tool_machine (codes "a.deb") outcome;
      emitted = signals_for (some (codes "a.deb")) cs;
      threads =
          deb_running (some (codes "a.deb"))
          ∷ starting
              (outcome_files simple_rpm plain_build tool_dpkg tool_machine (codes "a.deb") outcome);
    })
    × IsAtPathIfDone simple_rpm plain_build tool_dpkg tool_machine (codes "a.deb") outcome
unfolding install_deb daemon_init signals_for
run-install_deb_example =
    run-install_deb simple_rpm plain_build tool_dpkg tool_machine (codes "a.deb") (λ f. f)
      converting 0 (some (codes "a.deb")) (ground arith) refl

abbrev named_package : AppPkg simple_rpm
named_package =
    app_pkg_set_arch simple_rpm
      (app_pkg_set_name simple_rpm (app_pkg_new simple_rpm) (codes "tool")) (codes "noarch")

abbrev prepared : Package simple_rpm
prepared = elim (prepare simple_rpm plain_build named_package.pkg) [
  | none ↦ named_package.pkg
  | some p ↦ p
]

app_pkg_write_lem_example :
    (done : Package simple_rpm) × (app_pkg_write simple_rpm plain_build named_package root
        (codes "/tmp/a.rpm")
      ≡ returned rc_ok (record { pkg = done }) ((done, codes "/tmp/a.rpm") ∷ []))
    × (simple_rpm.header_get_string done.header Tag.os ≡ some (codes "linux"))
    × (simple_rpm.header_get_string done.header Tag.rpmversion ≡ some (codes "4.12"))
    × (simple_rpm.header_get_string done.header Tag.buildhost ≡ some (codes "host"))
    × (simple_rpm.header_get_string done.header Tag.cookie ≡ some (codes "host 7"))
    × (done.dependencies ≡ prepared.dependencies)
unfolding prepare app_pkg_set_arch app_pkg_set_name decimal bytes_eq starts_with app_pkg_new
app_pkg_write_lem_example =
    app_pkg_write_lem simple_rpm plain_build simple_rpm-IsLawful named_package root
      (codes "/tmp/a.rpm") prepared prepared prepared refl refl refl (ground arith) (ground arith)
      refl refl refl refl
