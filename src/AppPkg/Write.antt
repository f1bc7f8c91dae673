-- ===== src/AppPkg/Write.antt =====
-- `app_pkg_write` of daemon/app-pkg.c. The file walk, the dependency generator and the writer of
-- the package file are parameters, and so are the host, the clock and what `rpmExpand` gives.
use isoft_package_installer.Base.{
  ltb, if◌then◌else◌, Bytes, codes, length, take, ℕ, Option, none, some, List, [], ◌∷◌, ◌++◌, ℤ,
  pos, negsuc, decimal_int, ◌-◌, ◌%◌,
}
use isoft_package_installer.Package.{Package, add_package_provides}
use isoft_package_installer.Rpm.{Tag, Rpm}
use isoft_package_installer.AppPkg.{AppPkg}

-- `(int)` of the 32 bits that `(int32_t) time (NULL)` leaves of the time.
abbrev pub to_int32 : ℕ → ℤ
to_int32 n =
    let bits = n % 4294967296 in
    if ltb bits 2147483648 then pos bits else negsuc (4294967295 - bits)

pub data Rc : Type 0 where
  rc_ok rc_fail : Rc

module _ (R : Rpm) where
  -- `processPackageFiles` and `rpmfcGenerateDepends` change the package or fail. `build_host` and
  -- `build_time` are what the functions of these names keep after their first call.
  pub record Build : Type 0 where
    pub with_isa : Bytes → Bytes
    pub process_package_files : Bytes → Package R → Option (Package R)
    pub generate_depends : Bytes → Package R → Option (Package R)
    pub rpm_version : Bytes
    pub build_host : Bytes
    pub build_time : ℕ

  -- A run that writes past the end of `cookie` or reads through NULL, or the returned code with
  -- the package and the calls of `writeRPM`, the package and the path of each.
  pub data Write : Type 0 where
    crashed : Write
    returned : Rc → AppPkg R → List (Package R × Bytes) → Write

module _ (R : Rpm) (B : Build R) where
  open R use {header_put_string, header_put_uint32, header_nvr, ds_this, header_get_string}
  open B use {
    with_isa, process_package_files, generate_depends, rpm_version, build_host, build_time,
  }

  abbrev pub on_header : (R.Header → R.Header) → Package R → Package R
  on_header f p = record p { header = f p.header }

  -- `sprintf (cookie, "%s %d", ...)`
  abbrev pub cookie : Bytes
  cookie = build_host ++ (b' ' ∷ decimal_int (to_int32 build_time))

  -- `snprintf (srpm, sizeof (srpm), "%s.src.rpm", nvr)`
  abbrev source_rpm : R.Header → Bytes
  source_rpm h = take 255 (header_nvr h ++ codes ".src.rpm")

  -- What is put into the header behind the two passes over the files.
  unfoldable pub stamp : R.Header → R.Header
  stamp h =
      header_put_string
        (header_put_uint32
          (header_put_string
            (header_put_string (header_put_string h Tag.os (codes "linux")) Tag.rpmversion
              rpm_version)
            Tag.buildhost build_host)
          Tag.buildtime (build_time % 4294967296))
        Tag.cookie cookie

  -- The steps up to `processPackageFiles`.
  unfoldable pub prepare : Package R → Option (Package R)
  unfolding add_package_provides
  prepare p = elim (add_package_provides R with_isa p) [
    | none ↦ none
    | some q ↦ some (record q {
      ds = some (ds_this q.header);
      header = header_put_string q.header Tag.sourcerpm (source_rpm q.header);
    })
  ]

  -- A pass that fails leaves a package that is not written: the one before the pass stands for it.
  -- The code that `writeRPM` returns is dropped.
  unfoldable pub app_pkg_write : AppPkg R → Bytes → Bytes → Write R
  unfolding prepare
  app_pkg_write a root path = elim (prepare a.pkg) [
    | none ↦ crashed
    | some p ↦ elim (process_package_files root p) [
      | none ↦ returned rc_fail (record { pkg = p }) []
      | some q ↦ elim (generate_depends root q) [
        | none ↦ returned rc_fail (record { pkg = q }) []
        | some r ↦
            if ltb (length cookie) 256
            then returned rc_ok (record { pkg = on_header stamp r })
                ((on_header stamp r, path) ∷ [])
            else crashed
      ]
    ]
  ]
