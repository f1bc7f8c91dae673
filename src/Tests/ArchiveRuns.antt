-- ===== src/Tests/ArchiveRuns.antt =====
-- A small .deb file over a libdpkg that reads a header with the name first and the size at its end.
use isoft_package_installer.Debresolve.Subproc.{
  no_child, minus_one, number_of, died, exited_with, interruptions,
}
use isoft_package_installer.Debresolve.Shell.{
  in_child, in_parent, becomes, goes_on, movecontrolfiles, move_command,
  control_directory-movecontrolfiles,
}
use isoft_package_installer.Base.{
  ◌==◌, if◌then◌else◌, Bytes, codes, bytes_eq, c_string, length, ℕ, zero, suc, ◌-◌, ◌≡◌, refl,
  false, none, some, [], ◌∷◌, ◌++◌, arith, true, starts_with, Option,
}
use isoft_package_installer.Debresolve.Members.{
  gzip, Libdpkg, version_of, read_version, members, nothing_seen, Member,
}
use isoft_package_installer.Debresolve.Reading.{line, up_to_newline, read_line, read_line-fills}
use isoft_package_installer.Debresolve.Extract.{
  Files, extracted, deb_extract, deb_control, strip_zeros, control_directory, is_magic,
}
use isoft_package_installer.Debresolve.Unpacking.{magic_line, deb_extract-deb_control, from_pipe}
use isoft_package_installer.Debresolve.Archive.{Item, encode}
use isoft_package_installer.Debresolve.Contents.{IsDeb, items}
use isoft_package_installer.Debresolve.Subproc.{number_of, died, interruptions}
use isoft_package_installer.Debresolve.OldFormat.{
  OldArchive, write_old, IsOld, deb_control-deb_extract_old,
}
use isoft_package_installer.Debresolve.Fuel.{members-fuel}
use isoft_package_installer.Debresolve.OldVersions.{IsOldDirectory}

-- A header of 60 bytes: the name up to a blank, blanks, and the size in its last byte.
abbrev blanks : ℕ → Bytes
blanks zero = []
blanks (suc n) = b' ' ∷ blanks n

abbrev up_to_blank : Bytes → Bytes
up_to_blank [] = []
up_to_blank (c ∷ s) = let rest = up_to_blank s in if c == b' ' then [] else c ∷ rest

abbrev last_byte : Bytes → ℕ
last_byte [] = 0
last_byte (c ∷ []) = c
last_byte (c ∷ d ∷ s) = last_byte (d ∷ s)

abbrev header_of : Bytes → ℕ → Bytes
header_of n size = n ++ (blanks (59 - length n) ++ (size ∷ []))

abbrev small_libdpkg : Libdpkg
small_libdpkg = record {
  ar_magic = magic_line;
  member_name = up_to_blank;
  member_is_illegal = λ h. false;
  member_size = last_byte;
  version_parse = λ s. some (2, 0);
  find_by_extension = λ s. gzip;
}

abbrev binary_item : Item
binary_item = record { header = header_of (codes "debian-binary") 4; body = codes "2.0\n" }

abbrev extra_item : Item
extra_item = record { header = header_of (codes "_extra") 2; body = codes "ab" }

abbrev control_item : Item
control_item = record { header = header_of (codes "control.tar.gz") 3; body = codes "ctl\n" }

abbrev data_item : Item
data_item = record { header = header_of (codes "data.tar.gz") 4; body = codes "data" }

small_archive-IsDeb :
    IsDeb small_libdpkg (2, 0) binary_item control_item data_item (extra_item ∷ []) []
unfolding bytes_eq read_version version_of up_to_newline c_string
small_archive-IsDeb = record {
  first_written = (refl, refl, refl);
  control_written = (refl, refl, refl);
  payload_written = (refl, refl, refl);
  first_name = refl;
  first_version = refl;
  xs_skipped = (((refl, refl, refl), refl), tt);
  ys_skipped = tt;
  control_extension = codes ".gz";
  control_name = refl;
  control_allowed = refl;
  data_extension = codes ".gz";
  data_name = refl;
  data_known = refl;
}

abbrev small_bytes : Bytes
small_bytes =
    magic_line
    ++ encode (items small_libdpkg (2, 0) binary_item control_item data_item (extra_item ∷ []) [])
        []

abbrev small_files : Files
small_files = record { open_file = λ path. some small_bytes; scan_length = λ s. none }

deb_extract-deb_control_example :
    (deb_extract small_files small_libdpkg (codes "a.deb") (codes "/r")
      ≡ extracted (record {
        piped = codes "data";
        compressor = gzip;
        tar_argv = some (codes "tar" ∷ codes "-xv" ∷ codes "-p" ∷ from_pipe);
        tar_directory = codes "/r";
        moved_up = none;
      }))
    × (deb_control small_files small_libdpkg (codes "a.deb") (codes "/r")
        ≡ extracted (record {
          piped = codes "ctl";
          compressor = gzip;
          tar_argv = some (codes "tar" ∷ codes "-x" ∷ codes "-m" ∷ from_pipe);
          tar_directory = codes "/r";
          moved_up = none;
        }))
deb_extract-deb_control_example =
    deb_extract-deb_control small_libdpkg (2, 0) binary_item control_item data_item
      (extra_item ∷ []) [] small_files (codes "a.deb") (codes "/r") [] small_archive-IsDeb refl refl

-- An archive of the old format, of the version whose control files stand in .DEBIAN.
abbrev old_libdpkg : Libdpkg
old_libdpkg = record small_libdpkg { version_parse = λ s. some (0, 931000) }

abbrev old_archive : OldArchive
old_archive = record {
  version_line = codes "0.931000";
  length_line = codes "3";
  control = codes "ctl";
  payload = codes "data";
}

abbrev old_files : Files
old_files = record { open_file = λ path. some (write_old old_archive); scan_length = λ s. some 3 }

old_archive-IsOld : IsOld old_files old_libdpkg (0, 931000) old_archive
unfolding up_to_newline c_string starts_with is_magic
old_archive-IsOld = record {
  version_long = ground arith;
  version_fits = ground arith;
  version_clear = refl;
  version_text = refl;
  version_begins = refl;
  version_read = refl;
  version_other = refl;
  length_long = ground arith;
  length_fits = ground arith;
  length_clear = refl;
  length_text = refl;
  length_read = refl;
}

deb_control-deb_extract_old_example :
    (deb_control old_files old_libdpkg (codes "a.deb") (codes "/r")
      ≡ extracted (record {
        piped = codes "ctl";
        compressor = gzip;
        tar_argv = some (codes "tar" ∷ codes "-x" ∷ codes "-m" ∷ from_pipe);
        tar_directory = codes "/r";
        moved_up = some (codes ".DEBIAN");
      }))
    × (deb_extract old_files old_libdpkg (codes "a.deb") (codes "/r")
        ≡ extracted (record {
          piped = codes "data";
          compressor = gzip;
          tar_argv = some (codes "tar" ∷ codes "-xv" ∷ codes "-p" ∷ from_pipe);
          tar_directory = codes "/r";
          moved_up = none;
        }))
    × IsOldDirectory (0, 931000) (some (codes ".DEBIAN"))
unfolding control_directory strip_zeros
deb_control-deb_extract_old_example =
    deb_control-deb_extract_old old_files old_libdpkg (0, 931000) old_archive old_archive-IsOld
      (codes "/r") (codes "a.deb") (ground arith) refl

members-fuel_example :
    (r : Option Member) × (members small_libdpkg true 500 nothing_seen small_bytes ≡ some r)
    × (members small_libdpkg true (suc (length small_bytes)) nothing_seen small_bytes ≡ some r)
unfolding encode
members-fuel_example = members-fuel small_libdpkg true 500 nothing_seen small_bytes (ground arith)

-- A first line of ten bytes without a newline, for a buffer of four bytes.
read_line-fills_example :
    read_line 2 4 (codes "abcdefghij") ≡ line (codes "abcd") 4 (codes "efghij")
unfolding up_to_newline
read_line-fills_example =
    read_line-fills 2 4 (codes "abcdefghij") (ground arith) (ground arith) (ground arith) refl

control_directory-movecontrolfiles_example :
    (movecontrolfiles (codes "sh") true in_child [] (codes ".DEBIAN")
      ≡ becomes (codes "sh" ∷ codes "sh" ∷ codes "-c" ∷ move_command (codes ".DEBIAN") ∷ []))
    × (movecontrolfiles
          (codes "sh")
          false
          (in_parent 7)
          (interruptions 2 (died 7 (exited_with 0) ∷ []))
          (codes ".DEBIAN")
        ≡ goes_on (number_of 0))
    × (movecontrolfiles
          (codes "sh")
          false
          in_child
          (interruptions 2 (no_child ∷ []))
          (codes ".DEBIAN")
        ≡ goes_on minus_one)
unfolding control_directory strip_zeros
control_directory-movecontrolfiles_example =
    control_directory-movecontrolfiles (codes "sh") true (0, 931000) (codes ".DEBIAN") false 7 2
      (exited_with 0) [] refl
