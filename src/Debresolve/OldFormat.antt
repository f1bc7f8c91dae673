-- ===== src/Debresolve/OldFormat.antt =====
-- Archives of the old format, of daemon/debresolve.c: two lines of text, the control part and the
-- rest.
use isoft_package_installer.Base.{
  ltb, Bytes, codes, starts_with, c_string, length, ℕ, ◌+◌, ◌≤◌, ◌<◌, ◌≡◌, refl, Bool, true, false,
  none, some, [], ◌∷◌, ◌++◌, arith, take-append_length, drop-append_length, ◌-◌, ap, ◌∙◌, ◌==◌,
  if◌then◌else◌, take, length-append, not, ◌&&◌, Option,
}
use isoft_package_installer.Debresolve.Members.{Libdpkg, gzip}
use isoft_package_installer.Debresolve.Reading.{up_to_newline, line, read_line}
use isoft_package_installer.Debresolve.Extract.{
  Files, TarOptions, extract_parts, extract_old, is_magic, at_version, extracthalf, Outcome,
  extracted, tar_arguments, control_directory, process, extract_options, control_options,
  deb_extract, deb_control,
}
use isoft_package_installer.Debresolve.Lines.{read_line-ends, up_to_newline-ends}
use isoft_package_installer.Debresolve.Unpacking.{from_pipe}
use isoft_package_installer.Debresolve.OldVersions.{
  IsOldDirectory, control_directory-IsOldDirectory,
}

-- The archive: a line with the version, a line with the length of the control part, that part and
-- the rest. Each line is given without its newline.
pub record OldArchive : Type 0 where
  pub version_line : Bytes
  pub length_line : Bytes
  pub control : Bytes
  pub payload : Bytes

abbrev pub with_newline : Bytes → Bytes
with_newline p = p ++ (b'\n' ∷ [])

unfoldable pub write_old : OldArchive → Bytes
write_old a = a.version_line ++ (b'\n' ∷ (a.length_line ++ (b'\n' ∷ (a.control ++ a.payload))))

-- The lines fit the buffers, which have 40 bytes, and hold no newline and no NUL. The first begins
-- with 0.93, is no shorter than the magic line, and is read as this version. The second is read as
-- the length of the control part.
pub record IsOld (w : Files) (k : Libdpkg) (v : ℕ × ℕ) (a : OldArchive) : Type 0 where
  pub version_long : length k.ar_magic ≤ length a.version_line
  pub version_fits : length a.version_line + 1 < 40
  pub version_clear : up_to_newline a.version_line ≡ none
  pub version_text : c_string (with_newline a.version_line) ≡ with_newline a.version_line
  pub version_begins : starts_with (codes "0.93") (with_newline a.version_line) ≡ true
  pub version_read : k.version_parse (with_newline a.version_line) ≡ some v
  pub version_other : is_magic k (with_newline a.version_line) ≡ false
  pub length_long : 0 < length a.length_line
  pub length_fits : length a.length_line + 1 < 40
  pub length_clear : up_to_newline a.length_line ≡ none
  pub length_text : c_string (with_newline a.length_line) ≡ with_newline a.length_line
  pub length_read : w.scan_length (with_newline a.length_line) ≡ some (length a.control)

module _ (w : Files) (k : Libdpkg) (v : ℕ × ℕ) (wants_admin : Bool) (o : TarOptions)
    (dir : Bytes) where
  extract_old-parts :
      (size place n : ℕ) (versionbuf left t text after : Bytes)
      → up_to_newline versionbuf ≡ some t
      → k.version_parse versionbuf ≡ some v
      → read_line 1 40 left ≡ line text place after
      → ltb place 40 ≡ true
      → c_string text ≡ text
      → w.scan_length text ≡ some n
      → extract_old w k wants_admin o dir size versionbuf left
        ≡ extract_parts wants_admin o dir v size n (length text + length versionbuf) after
  unfolding extract_old
  extract_old-parts size place n versionbuf left t text after e1 e2 e3 e4 e5 e6 =
      rw (e1, extract_old)
        (rw e2 (
          rw e3 (
            rw e4 (
              rw e5 (
                rw e6 (
                  ap
                    (λ x.
                      extract_parts wants_admin o dir v size n (length x + length versionbuf) after)
                    e5))))))

  at_version-old :
      (size place : ℕ) (text left : Bytes)
      → ltb place 40 ≡ true
      → c_string text ≡ text
      → is_magic k text ≡ false
      → starts_with (codes "0.93") text ≡ true
      → at_version w k wants_admin o dir size (line text place left)
        ≡ extract_old w k wants_admin o dir size text left
  unfolding at_version
  at_version-old size place text left e1 e2 e3 e4 = rw (e1, e2, e3, e4) refl

-- The processes for one of the two parts, of an archive of this version.
abbrev piping : ℕ × ℕ → Bool → TarOptions → Bytes → Bytes → Outcome
piping v wants_admin o dir part = extracted (record {
  piped = part;
  compressor = gzip;
  tar_argv = tar_arguments o;
  tar_directory = dir;
  moved_up = control_directory wants_admin v;
})

take-all : (s : Bytes) → take (length s) s ≡ s
take-all [] = refl
take-all (c ∷ s) = ap (λ r. c ∷ r) (take-all s)

control_directory-payload : (v : ℕ × ℕ) → control_directory false v ≡ none
unfolding control_directory
control_directory-payload v = unwanted (v.0 == 0) _
  where
    unwanted : (b : Bool) (o : Option Bytes) → (if not (b && false) then none else o) ≡ none
    unwanted true o = refl
    unwanted false o = refl

module _ (w : Files) (k : Libdpkg) (v : ℕ × ℕ) (a : OldArchive) (h : IsOld w k v a) where
  length-write_old :
      length (write_old a)
      ≡ length (with_newline a.version_line)
        + (length (with_newline a.length_line) + (length a.control + length a.payload))
  unfolding write_old
  length-write_old = omega (
    arith,
    length-append a.version_line (b'\n' ∷ (a.length_line ++ (b'\n' ∷ (a.control ++ a.payload)))),
    length-append a.length_line (b'\n' ∷ (a.control ++ a.payload)),
    length-append a.control a.payload,
    length-append a.version_line (b'\n' ∷ []),
    length-append a.length_line (b'\n' ∷ []),
  )

  extracthalf-parts :
      (wants_admin : Bool) (o : TarOptions) (dir debpath : Bytes)
      → 0 < length k.ar_magic
      → w.open_file debpath ≡ some (write_old a)
      → extracthalf w k debpath dir o wants_admin
        ≡ extract_parts wants_admin o dir v
            (length (write_old a))
            (length a.control)
            (length (with_newline a.length_line) + length (with_newline a.version_line))
            (a.control ++ a.payload)
  unfolding extracthalf write_old
  extracthalf-parts wants_admin o dir debpath long e =
      let behind = a.control ++ a.payload in
      let left = a.length_line ++ (b'\n' ∷ behind) in
      let size = length (write_old a) in
      let first_line =
        read_line-ends (length k.ar_magic) 40 a.version_line left long h.version_long
          (omega (arith, h.version_fits)) h.version_clear in
      let second_line =
        read_line-ends 1 40 a.length_line behind (ground arith) (omega (arith, h.length_long))
          (omega (arith, h.length_fits)) h.length_clear in
      rw (e, extracthalf)
        (ap (at_version w k wants_admin o dir size) first_line
          ∙ (at_version-old w k v wants_admin o dir size (length a.version_line + 1)
                (with_newline a.version_line) left (ground (arith, h.version_fits)) h.version_text
                h.version_other h.version_begins
              ∙ extract_old-parts w k v wants_admin o dir size (length a.length_line + 1)
                  (length a.control) (with_newline a.version_line) left
                  (with_newline a.version_line) (with_newline a.length_line) behind
                  (up_to_newline-ends a.version_line [] h.version_clear) h.version_read second_line
                  (ground (arith, h.length_fits)) h.length_text h.length_read))

  control_piped :
      (o : TarOptions) (dir : Bytes) (size lines : ℕ)
      → extract_parts true o dir v size (length a.control) lines (a.control ++ a.payload)
        ≡ piping v true o dir a.control
  unfolding extract_parts process
  control_piped o dir size lines = rw (take-append_length a.control a.payload) refl

  payload_piped :
      (o : TarOptions) (dir : Bytes) (size lines : ℕ)
      → size ≡ lines + (length a.control + length a.payload)
      → extract_parts false o dir v size (length a.control) lines (a.control ++ a.payload)
        ≡ piping v false o dir a.payload
  unfolding extract_parts process
  payload_piped o dir size lines e =
      let enough : ltb size (length a.control + lines) ≡ false = ground arith in
      let rest : size - length a.control - lines ≡ length a.payload = omega arith in
      rw enough (
        rw rest (
          rw (drop-append_length a.control a.payload)
            (ap (piping v false o dir) (take-all a.payload))))

  -- An archive of the old format that can be opened, where libdpkg has a magic line: two lines of
  -- fewer than 40 bytes without a NUL, of which the first is no shorter than the magic line, begins
  -- with 0.93 and is read as a version, and the second is read as the length of the control part;
  -- then that part and the rest. `deb_control` pipes the control part, and no other bytes, to gzip
  -- and to tar with `-x -m` in the directory, and then moves the files up from `.DEBIAN` exactly if
  -- the version is 0.931, and from `DEBIAN` exactly if it is 0.932 or 0.933, each with any zeros
  -- behind; `deb_extract` pipes the rest of the file with `-xv -p` and moves nothing. Both return 0.
  pub deb_control-deb_extract_old :
      (dir debpath : Bytes)
      → 0 < length k.ar_magic
      → w.open_file debpath ≡ some (write_old a)
      → (deb_control w k debpath dir
          ≡ extracted (record {
            piped = a.control;
            compressor = gzip;
            tar_argv = some (codes "tar" ∷ codes "-x" ∷ codes "-m" ∷ from_pipe);
            tar_directory = dir;
            moved_up = control_directory true v;
          }))
        × (deb_extract w k debpath dir
            ≡ extracted (record {
              piped = a.payload;
              compressor = gzip;
              tar_argv = some (codes "tar" ∷ codes "-xv" ∷ codes "-p" ∷ from_pipe);
              tar_directory = dir;
              moved_up = none;
            }))
        × IsOldDirectory v (control_directory true v)
  unfolding deb_control deb_extract tar_arguments
  deb_control-deb_extract_old dir debpath long e = (
    extracthalf-parts true control_options dir debpath long e
        ∙ control_piped control_options dir (length (write_old a))
            (length (with_newline a.length_line) + length (with_newline a.version_line)),
    extracthalf-parts false extract_options dir debpath long e
        ∙ (payload_piped extract_options dir _ _ (omega (arith, length-write_old))
            ∙ ap
                (λ m. extracted (record {
                  piped = a.payload;
                  compressor = gzip;
                  tar_argv = tar_arguments extract_options;
                  tar_directory = dir;
                  moved_up = m;
                }))
                (control_directory-payload v)),
    control_directory-IsOldDirectory v.0 v.1,
  )
