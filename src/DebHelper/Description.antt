-- ===== src/DebHelper/Description.antt =====
-- What the converted package says of itself, from the printed fields of the control file.
use isoft_package_installer.DebHelper.{
  go, required_info, optional_info, value_of, cut_line, Identity, read_identity, describe,
  start_package, is_amd64,
}
use isoft_package_installer.Base.{
  ◌==◌, if◌then◌else◌, Bytes, codes, length, All, ℕ, ◌<◌, ◌≡◌, refl, ◌∙◌, false, Option, none, some,
  List, [], ◌∷◌, ◌++◌, arith, ltb, take, drop-append_length, take-append_eq, ◌-◌, ap, true, sizes,
  strstr, All-append,
}
use isoft_package_installer.Rpm.{Tag, same_tag, Rpm, IsLawful}
use isoft_package_installer.Debresolve.Info.{Dpkg, deb_info}
use isoft_package_installer.AppPkg.{
  AppPkg, app_pkg_new, app_pkg_set_name, app_pkg_set_version, app_pkg_set_release, app_pkg_set_arch,
  app_pkg_set_url, app_pkg_set_group, app_pkg_set_summary, app_pkg_set_packager,
  app_pkg_set_description,
}
use isoft_package_installer.DebHelper.Tree.{Substring, IsAscii, IsSubstring}

-- The field as dpkg prints it: its name, a colon, a blank, the value and a newline.
abbrev pub printed : Bytes → Bytes → Bytes
printed name v = name ++ (codes ": " ++ (v ++ (b'\n' ∷ [])))

value_of-append :
    (sub : Substring) (n : ℕ) (h v : Bytes)
    → IsSubstring sub
    → IsAscii h
    → IsAscii v
    → n ≡ length h
    → value_of sub n (h ++ (v ++ (b'\n' ∷ []))) ≡ go v
unfolding value_of
value_of-append sub n h v G a b e = rw e (
    let fits : ltb (length h) (length (h ++ (v ++ (b'\n' ∷ [])))) ≡ true = grind sizes in
    rw fits (
      ap go (
        G (h ++ (v ++ (b'\n' ∷ []))) (length h) (length (h ++ (v ++ (b'\n' ∷ []))) - 1)
          (All-append (λ c. ltb c 128 ≡ true) h (v ++ (b'\n' ∷ [])) a
            (All-append (λ c. ltb c 128 ≡ true) v (b'\n' ∷ []) b (refl, tt)))
          (grind sizes) (grind sizes)
        ∙ ap (take (length (h ++ (v ++ (b'\n' ∷ []))) - 1 - length h))
            (drop-append_length h (v ++ (b'\n' ∷ [])))
        ∙ take-append_eq (length (h ++ (v ++ (b'\n' ∷ []))) - 1 - length h) v (b'\n' ∷ [])
            (grind sizes))))

module _ (k : Dpkg) (meta : Bytes) where
  required_info-printed :
      (name t : Bytes)
      → deb_info k meta name ≡ some t
      → length t < 256
      → required_info k meta name ≡ go t
  unfolding required_info
  required_info-printed name t e h = rw (e, required_info) (ground arith)

  optional_info-printed :
      (name old t : Bytes)
      → deb_info k meta name ≡ some t
      → length t < 256
      → optional_info k meta name old ≡ go t
  unfolding optional_info
  optional_info-printed name old t e h = rw (e, optional_info) (ground arith)

  -- From the three required fields, printed in less than 256 bytes each and with values in ASCII,
  -- the code reads back the values that were printed.
  pub read_identity-printed :
      (sub : Substring) (p v a : Bytes)
      → IsSubstring sub
      → IsAscii p
      → IsAscii v
      → IsAscii a
      → deb_info k meta (codes "Package") ≡ some (printed (codes "Package") p)
      → deb_info k meta (codes "Version") ≡ some (printed (codes "Version") v)
      → deb_info k meta (codes "Architecture") ≡ some (printed (codes "Architecture") a)
      → length (printed (codes "Package") p) < 256
      → length (printed (codes "Version") v) < 256
      → length (printed (codes "Architecture") a) < 256
      → read_identity sub k meta
        ≡ go (record {
          deb_package = p;
          version = v;
          arch = a;
          v1 = printed (codes "Package") p;
          v3 = printed (codes "Architecture") a;
        })
  unfolding read_identity
  read_identity-printed sub p v a G hp hv ha e f g he hf hg =
      rw (required_info-printed (codes "Package") (printed (codes "Package") p) e he) (
        rw (value_of-append sub 9 (codes "Package: ") p G (ground arith) hp refl) (
          rw (required_info-printed (codes "Version") (printed (codes "Version") v) f hf) (
            rw (value_of-append sub 9 (codes "Version: ") v G (ground arith) hv refl) (
              rw
                (required_info-printed (codes "Architecture") (printed (codes "Architecture") a) g
                  hg)
                (rw
                  (value_of-append sub 14 (codes "Architecture: ") a G (ground arith) ha refl))))))

-- The string under a tag in such a list.
abbrev pub string_of : List (Tag × Bytes) → Tag → Option Bytes
string_of [] u = none
string_of ((t, v) ∷ l) u = if same_tag t u then some v else string_of l u

abbrev Distinct : List (Tag × Bytes) → Type 0
Distinct [] = Unit
Distinct ((t, v) ∷ l) = (string_of l t ≡ none) × Distinct l

-- The architecture of the RPM.
abbrev pub rpm_arch : Identity → Bytes
rpm_arch i = elim (strstr (codes "amd64") i.v3) [ none ↦ i.arch | some place ↦ codes "x86_64" ]

-- The strings of a converted package, the last put first.
abbrev pub converted_strings : Identity → Bytes → Bytes → Bytes → Bytes → List (Tag × Bytes)
converted_strings i homepage section line rest =
    (Tag.packager, codes "isoft-packager")
    ∷ (Tag.description, rest)
    ∷ (Tag.summary, line)
    ∷ (Tag.group, section)
    ∷ (Tag.url, homepage)
    ∷ (Tag.arch, rpm_arch i)
    ∷ (Tag.release, codes "1")
    ∷ (Tag.version, i.version)
    ∷ (Tag.name, i.deb_package)
    ∷ []

module _ (R : Rpm) (L : IsLawful R) where
  open R use {header_new, header_put_string, header_get_string}

  -- The header that has these strings, the last put first.
  puts : List (Tag × Bytes) → R.Header
  puts [] = header_new
  puts ((t, v) ∷ l) = header_put_string (puts l) t v

  get-puts :
      (l : List (Tag × Bytes)) (u : Tag) → Distinct l → header_get_string (puts l) u ≡ string_of l u
  unfolding puts
  get-puts [] u d = L.get-new u
  get-puts ((t, v) ∷ l) u d =
      L.get-put (puts l) t u v (get-puts l t d.1 ∙ d.0) ∙ rw (get-puts l u d.1)

  cut_line-append :
      (s t : Bytes) → All (λ c. (c == b'\n') ≡ false) s → cut_line (s ++ (b'\n' ∷ t)) ≡ go (s, t)
  unfolding cut_line
  cut_line-append [] t h = refl
  cut_line-append (c ∷ s) t h = rw (h.0) (rw (cut_line-append s t h.1))

  start_package-puts :
      (i : Identity)
      → (start_package R i).pkg.header
        ≡ puts (
            (Tag.arch, rpm_arch i)
            ∷ (Tag.release, codes "1")
            ∷ (Tag.version, i.version)
            ∷ (Tag.name, i.deb_package)
            ∷ [])
  unfolding start_package puts app_pkg_set_arch app_pkg_set_release app_pkg_set_version
      app_pkg_set_name app_pkg_new is_amd64
  start_package-puts i = ground arith

  -- With the three optional fields printed in less than 256 bytes each, the code makes a package
  -- whose header has exactly these strings: the name, the version, the release 1, x86_64 for a
  -- printed architecture that contains amd64 and the value itself for another, as URL and group the
  -- whole printed fields, names and newlines included, as summary the first line of the printed
  -- description and as description the text behind that line, and the packager.
  pub describe-strings :
      (k : Dpkg) (meta : Bytes) (i : Identity) (homepage section line rest : Bytes)
      → deb_info k meta (codes "Homepage") ≡ some homepage
      → deb_info k meta (codes "Section") ≡ some section
      → deb_info k meta (codes "Description") ≡ some (line ++ (b'\n' ∷ rest))
      → length homepage < 256
      → length section < 256
      → length (line ++ (b'\n' ∷ rest)) < 256
      → All (λ c. (c == b'\n') ≡ false) line
      → (a : AppPkg R) × (describe R k meta i ≡ go a)
        × ((u : Tag)
            → header_get_string a.pkg.header u
              ≡ string_of (converted_strings i homepage section line rest) u)
  unfolding describe puts app_pkg_set_url app_pkg_set_group app_pkg_set_summary
      app_pkg_set_description app_pkg_set_packager
  describe-strings k meta i homepage section line rest e f g he hf hg no_newline = (
    app_pkg_set_packager R
        (app_pkg_set_description R
          (app_pkg_set_summary R
            (app_pkg_set_group R (app_pkg_set_url R (start_package R i) homepage) section) line)
          rest)
        (codes "isoft-packager"),
    rw (optional_info-printed k meta (codes "Homepage") i.v1 homepage e he) (
        rw (optional_info-printed k meta (codes "Section") homepage section f hf) (
          rw
            (optional_info-printed k meta (codes "Description") section (line ++ (b'\n' ∷ rest)) g
              hg)
            (rw (cut_line-append line rest no_newline)))),
    λ u. rw (start_package-puts i) (
        get-puts (converted_strings i homepage section line rest) u
          (refl, (refl, (refl, (refl, (refl, (refl, (refl, (refl, (refl, tt)))))))))),
  )
