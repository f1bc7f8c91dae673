-- ===== src/Debresolve/Unpacking.antt =====
-- What `deb_extract` and `deb_control` do with a .deb file.
use isoft_package_installer.Base.{
  Bytes, codes, c_string, length, take, ℕ, ◌≡◌, refl, Bool, none, some, List, ◌++◌, bytes_eq, suc,
  ◌≤◌, ◌∙◌, true, false, arith, ltb, if◌then◌else◌, ◌+◌, ap, subst, [], ◌∷◌, bytes_eq_refl,
}
use isoft_package_installer.Debresolve.Members.{
  Libdpkg, version_of, Member, members, nothing_seen, padded, read_version,
}
use isoft_package_installer.Debresolve.Reading.{line, up_to_newline, read_rounds, read_line}
use isoft_package_installer.Debresolve.Extract.{
  Files, TarOptions, extracted, tar_arguments, control_directory, extract_members, extracthalf,
  extract_options, control_options, deb_extract, deb_control, process, process_found, is_magic,
  at_version,
}
use isoft_package_installer.Debresolve.Archive.{Item, encode, IsWritten}
use isoft_package_installer.Debresolve.Contents.{
  IsDeb, items, take-append-le, payload_member, fuel_enough, control_member, members-control,
  members-payload,
}

-- The last arguments of tar, which read the archive from its standard input.
abbrev pub from_pipe : List Bytes
from_pipe = codes "-f" ∷ codes "-" ∷ codes "--warning=no-timestamp" ∷ []

abbrev pub magic_line : Bytes
magic_line = codes "!<arch>\n"

read_line-magic :
    (left : Bytes) → read_line (length magic_line) 40 (magic_line ++ left) ≡ line magic_line 8 left
unfolding read_line read_rounds up_to_newline
read_line-magic left = refl

control_directory-none :
    (wants_admin : Bool) (v : ℕ × ℕ) → v.0 ≡ 2 → control_directory wants_admin v ≡ none
unfolding control_directory
control_directory-none wants_admin v e = rw e refl

version_of-two : (k : Libdpkg) (s : Bytes) (v : ℕ × ℕ) → version_of k s ≡ some v → v.0 ≡ 2
unfolding version_of
version_of-two k s v e = ground arith

module _ (k : Libdpkg) (v : ℕ × ℕ) (first control payload : Item) (xs ys : List Item) where
  is_magic-ar_magic : k.ar_magic ≡ magic_line → is_magic k magic_line ≡ true
  unfolding is_magic
  is_magic-ar_magic e = ap (bytes_eq magic_line) e ∙ bytes_eq_refl magic_line

  at_version-magic :
      (w : Files) (dir left : Bytes) (o : TarOptions) (wants_admin : Bool) (size : ℕ)
      → k.ar_magic ≡ magic_line
      → at_version w k wants_admin o dir size (line magic_line 8 left)
        ≡ extract_members k wants_admin o dir left
  unfolding at_version c_string
  at_version-magic w dir left o wants_admin size e = rw (is_magic-ar_magic e) refl

  extracthalf-at_version :
      (w : Files) (debpath dir : Bytes) (o : TarOptions) (wants_admin : Bool) {bytes : Bytes}
      → w.open_file debpath ≡ some bytes
      → extracthalf w k debpath dir o wants_admin
        ≡ at_version w k wants_admin o dir (length bytes) (read_line (length k.ar_magic) 40 bytes)
  unfolding extracthalf
  extracthalf-at_version w debpath dir o wants_admin h = rw (h, extracthalf) refl

  extracthalf-magic :
      (w : Files) (debpath dir left : Bytes) (o : TarOptions) (wants_admin : Bool)
      → k.ar_magic ≡ magic_line
      → w.open_file debpath ≡ some (k.ar_magic ++ left)
      → extracthalf w k debpath dir o wants_admin ≡ extract_members k wants_admin o dir left
  extracthalf-magic w debpath dir left o wants_admin e g =
      extracthalf-at_version w debpath dir o wants_admin g
      ∙ (ap
            (λ b.
              at_version w k wants_admin o dir (length (b ++ left))
                (read_line (length b) 40 (b ++ left)))
            e
          ∙ (ap (at_version w k wants_admin o dir (length (magic_line ++ left)))
                (read_line-magic left)
              ∙ at_version-magic w dir left o wants_admin (length (magic_line ++ left)) e))

  -- From the member that is found to the processes.
  unpack :
      (wants_admin : Bool) (o : TarOptions) (dir left : Bytes) (m : Member) (x : Item)
      (behind : Bytes)
      → members k wants_admin (suc (length left)) nothing_seen left ≡ some (some m)
      → m.content ≡ x.body ++ behind
      → m.memberlen ≤ length x.body
      → m.deb_version.0 ≡ 2
      → extract_members k wants_admin o dir left
        ≡ extracted (record {
          piped = take m.memberlen x.body;
          compressor = m.decompressor;
          tar_argv = tar_arguments o;
          tar_directory = dir;
          moved_up = none;
        })
  unfolding extract_members process_found process
  unpack wants_admin o dir left m x behind e f g h = rw e (
      rw f (
        rw (take-append-le m.memberlen x.body behind g)
          (rw (control_directory-none wants_admin m.deb_version h) refl)))

  abbrev archive : Bytes → Bytes
  archive rest = encode (items k v first control payload xs ys) rest

  fits : (m : Item) → IsWritten k m → k.member_size m.header ≤ length m.body
  fits m w = omega (arith, w.2)

  version_read :
      (d : IsDeb k v first control payload xs ys)
      → version_of k (take (k.member_size first.header) first.body) ≡ some v
  unfolding read_version
  version_read d =
      let enough : ltb (length first.body) (padded (k.member_size first.header)) ≡ false =
        ground (arith, d.first_written.2) in
      subst
        (λ b.
          (if b then none else version_of k (take (k.member_size first.header) first.body))
          ≡ some v)
        enough d.first_version

  members-payload_all :
      (rest : Bytes) (d : IsDeb k v first control payload xs ys)
      → members k false (suc (length (archive rest))) nothing_seen (archive rest)
        ≡ some (some (payload_member k v first control payload xs ys rest d))
  members-payload_all rest d =
      let (f, h) = fuel_enough k v first control payload xs ys rest d in
      ap (λ n. members k false (suc n) nothing_seen (archive rest)) h
      ∙ members-payload k v first control payload xs ys f rest d

  members-control_all :
      (rest : Bytes) (d : IsDeb k v first control payload xs ys)
      → members k true (suc (length (archive rest))) nothing_seen (archive rest)
        ≡ some (some (control_member k v first control payload xs ys rest d))
  members-control_all rest d =
      let (f, h) = fuel_enough k v first control payload xs ys rest d in
      ap (λ n. members k true (suc n) nothing_seen (archive rest)) h
      ∙ members-control k v first control payload xs ys (length ys + suc f) rest d

  -- A .deb file of version 2 that can be opened: the magic line, the member `debian-binary` with
  -- the version, then a control and a data member whose compressors are supported, with members
  -- between them that begin with an underscore, and any bytes behind them. `deb_extract` pipes the
  -- content of the data member, and no other bytes, to its compressor and to tar with `-xv -p` in
  -- the directory; `deb_control` does so with the control member and `-x -m`. Both return 0.
  pub deb_extract-deb_control :
      (w : Files) (debpath dir rest : Bytes) (d : IsDeb k v first control payload xs ys)
      → k.ar_magic ≡ codes "!<arch>\n"
      → w.open_file debpath
        ≡ some (k.ar_magic ++ encode (items k v first control payload xs ys) rest)
      → (deb_extract w k debpath dir
          ≡ extracted (record {
            piped = take (k.member_size payload.header) payload.body;
            compressor = k.find_by_extension d.data_extension;
            tar_argv = some (codes "tar" ∷ codes "-xv" ∷ codes "-p" ∷ from_pipe);
            tar_directory = dir;
            moved_up = none;
          }))
        × (deb_control w k debpath dir
            ≡ extracted (record {
              piped = take (k.member_size control.header) control.body;
              compressor = k.find_by_extension d.control_extension;
              tar_argv = some (codes "tar" ∷ codes "-x" ∷ codes "-m" ∷ from_pipe);
              tar_directory = dir;
              moved_up = none;
            }))
  unfolding deb_extract deb_control tar_arguments
  deb_extract-deb_control w debpath dir rest d e g =
      let left = archive rest in
      let two =
        version_of-two k (take (k.member_size first.header) first.body) v (version_read d) in
      let found_control = control_member k v first control payload xs ys rest d in
      let found_payload = payload_member k v first control payload xs ys rest d in
      (
        extracthalf-magic w debpath dir left extract_options false e g
            ∙ unpack false extract_options dir left found_payload payload rest
                (members-payload_all rest d) refl (fits payload d.payload_written) two,
        extracthalf-magic w debpath dir left control_options true e g
            ∙ unpack true control_options dir left found_control control
                (encode (ys ++ (payload ∷ [])) rest) (members-control_all rest d) refl
                (fits control d.control_written) two,
      )
