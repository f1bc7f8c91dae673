-- ===== src/Debresolve/Extract.antt =====
-- `extracthalf` of daemon/debresolve.c, with `deb_extract`, `deb_control` and `do_contents`. The
-- processes that it starts are described, not run: their results are not looked at.
use isoft_package_installer.Base.{
  ◌==◌, if◌then◌else◌, Bytes, codes, take, ℕ, zero, suc, ◌/◌, ◌%◌, Bool, not, ◌&&◌, ◌||◌, Option,
  none, some, List, [], ◌∷◌, ◌++◌, ltb, bytes_eq, starts_with, c_string, length, drop, ◌+◌, ◌-◌,
  true, false,
}
use isoft_package_installer.Debresolve.Members.{
  Compressor, Member, gzip, Libdpkg, members, nothing_seen,
}
use isoft_package_installer.Debresolve.Reading.{no_line, line, up_to_newline, read_line, Line}

-- Of the machine: the bytes of a file that can be opened, and what
-- `sscanf (..., "%jd%c%d", ...) == 2 && nlc == '\n'` reads of a line. Numbers below 0 are left out.
pub record Files : Type 0 where
  pub open_file : Bytes → Option Bytes
  pub scan_length : Bytes → Option ℕ

-- `enum dpkg_tar_options`, by its flags.
pub record TarOptions : Type 0 where
  pub tar_list : Bool
  pub tar_extract : Bool
  pub tar_perms : Bool
  pub tar_nomtime : Bool

-- The processes: the bytes that are piped to the decompressor, the arguments of tar where tar is
-- asked for, the directory it works in, and the directory whose files are moved up at the end.
pub record Extraction : Type 0 where
  pub piped : Bytes
  pub compressor : Compressor
  pub tar_argv : Option (List Bytes)
  pub tar_directory : Bytes
  pub moved_up : Option Bytes

-- The code returns -1, is undefined, comes to a length below 0 (and hands it to libdpkg or fails to
-- skip the control part before), or returns 0 behind these processes.
pub data Outcome : Type 0 where
  failed : Outcome
  undefined : Outcome
  negative_length : Outcome
  extracted : Extraction → Outcome
  -- The loop over the members had too little fuel, which does not come about.
  out_of_fuel : Outcome

-- `none` is the call of `internerr` where neither action is asked for.
unfoldable pub tar_action : TarOptions → Option Bytes
tar_action o =
    if o.tar_list && o.tar_extract
    then some (codes "-xv")
    else if o.tar_extract
    then some (codes "-x")
    else if o.tar_list
    then some (codes "-tv")
    else none

abbrev added : Bool → Bytes → List Bytes
added b x = if b then x ∷ [] else []

unfoldable pub tar_arguments : TarOptions → Option (List Bytes)
unfolding tar_action
tar_arguments o = elim (tar_action o) [
  | none ↦ none
  | some action ↦ some (
      codes "tar"
      ∷ action
      ∷ (added o.tar_perms (codes "-p")
          ++ (added o.tar_nomtime (codes "-m")
              ++ (codes "-f" ∷ codes "-" ∷ codes "--warning=no-timestamp" ∷ []))))
]

-- `while (minor && minor % 10 == 0) minor /= 10;`, at most as many rounds as the number is large.
unfoldable pub strip_zeros : ℕ → ℕ → ℕ
strip_zeros zero minor = minor
strip_zeros (suc f) minor =
    let shorter = strip_zeros f (minor / 10) in
    if not (minor == 0) && (minor % 10 == 0) then shorter else minor

-- `OLDOLDDEBDIR` and `OLDDEBDIR`
unfoldable pub control_directory : Bool → ℕ × ℕ → Option Bytes
unfolding strip_zeros
control_directory wants_admin (major, minor) =
    let m = strip_zeros minor minor in
    if not ((major == 0) && wants_admin)
    then none
    else if m == 931
    then some (codes ".DEBIAN")
    else if (m == 932) || (m == 933)
    then some (codes "DEBIAN")
    else none

-- From the first `pipe` to the end. The bytes behind the end of the file are not there to pipe.
unfoldable pub process : Bool → TarOptions → Bytes → Member → Outcome
unfolding tar_arguments control_directory
process wants_admin o dir m = extracted (record {
  piped = take m.memberlen m.content;
  compressor = m.decompressor;
  tar_argv = tar_arguments o;
  tar_directory = dir;
  moved_up = control_directory wants_admin m.deb_version;
})

unfoldable pub process_found : Bool → TarOptions → Bytes → Option (Option Member) → Outcome
unfolding process
process_found wants_admin o dir none = out_of_fuel
process_found wants_admin o dir (some none) = failed
process_found wants_admin o dir (some (some m)) = process wants_admin o dir m

-- The branch for an archive of version 2, behind the magic line.
unfoldable pub extract_members : Libdpkg → Bool → TarOptions → Bytes → Bytes → Outcome
unfolding members process_found
extract_members k wants_admin o dir left =
    process_found wants_admin o dir (members k wants_admin (suc (length left)) nothing_seen left)

-- The lengths of the branch for the old format: that of the file, of the control part, of the two
-- lines that were read. The control part is skipped where the rest is wanted.
unfoldable pub extract_parts : Bool → TarOptions → Bytes → ℕ × ℕ → ℕ → ℕ → ℕ → Bytes → Outcome
unfolding process
extract_parts wants_admin o dir v size ctrllennum lines left =
    let control : Member = record {
      memberlen = ctrllennum;
      decompressor = gzip;
      deb_version = v;
      content = left;
    } in
    let rest : Member = record {
      memberlen = size - ctrllennum - lines;
      decompressor = gzip;
      deb_version = v;
      content = drop ctrllennum left;
    } in
    if wants_admin
    then process wants_admin o dir control
    else if ltb size (ctrllennum + lines)
    then negative_length
    else process wants_admin o dir rest

-- The branch for the old format, behind the line with the version. The buffer of the second line
-- has 40 bytes too.
unfoldable pub extract_old :
    Files → Libdpkg → Bool → TarOptions → Bytes → ℕ → Bytes → Bytes → Outcome
unfolding up_to_newline read_line extract_parts
extract_old w k wants_admin o dir size versionbuf left = elim (up_to_newline versionbuf) [
  | none ↦ failed
  | some t ↦ elim (k.version_parse versionbuf) [
    | none ↦ failed
    | some v ↦ elim (read_line 1 40 left) [
      | no_line ↦ undefined
      | line text place after ↦
          if not (ltb place 40) then undefined else elim (w.scan_length (c_string text)) [
            | none ↦ failed
            | some n ↦
                extract_parts wants_admin o dir v size n
                  (length (c_string text) + length versionbuf) after
          ]
    ]
  ]
]

-- `strcmp (versionbuf, DPKG_AR_MAGIC) == 0`
unfoldable pub is_magic : Libdpkg → Bytes → Bool
unfolding bytes_eq
is_magic k versionbuf = bytes_eq versionbuf k.ar_magic

-- Behind the first `read_line`, for a file of this size. `versionbuf` has 40 bytes, and `read_line`
-- is told so.
unfoldable pub at_version : Files → Libdpkg → Bool → TarOptions → Bytes → ℕ → Line → Outcome
unfolding extract_members extract_old is_magic
at_version w k wants_admin o dir size no_line = undefined
at_version w k wants_admin o dir size (line text place left) =
    let versionbuf = c_string text in
    if not (ltb place 40)
    then undefined
    else if is_magic k versionbuf
    then extract_members k wants_admin o dir left
    else if starts_with (codes "0.93") versionbuf
    then extract_old w k wants_admin o dir size versionbuf left
    else failed

unfoldable pub extracthalf : Files → Libdpkg → Bytes → Bytes → TarOptions → Bool → Outcome
unfolding read_line at_version
extracthalf w k debar dir o wants_admin = elim (w.open_file debar) [
  | none ↦ failed
  | some bytes ↦
      at_version w k wants_admin o dir (length bytes) (read_line (length k.ar_magic) 40 bytes)
]

abbrev pub extract_options : TarOptions
extract_options = record {
  tar_list = true;
  tar_extract = true;
  tar_perms = true;
  tar_nomtime = false;
}

abbrev pub control_options : TarOptions
control_options = record {
  tar_list = false;
  tar_extract = true;
  tar_perms = false;
  tar_nomtime = true;
}

unfoldable pub deb_extract : Files → Libdpkg → Bytes → Bytes → Outcome
unfolding extracthalf
deb_extract w k debpath dir = extracthalf w k debpath dir extract_options false

unfoldable pub deb_control : Files → Libdpkg → Bytes → Bytes → Outcome
unfolding extracthalf
deb_control w k debpath dir = extracthalf w k debpath dir control_options true

unfoldable pub do_contents : Files → Libdpkg → Bytes → Outcome
unfolding deb_extract
do_contents w k filename = deb_extract w k filename (codes "debian")
