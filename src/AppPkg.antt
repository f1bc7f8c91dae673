-- ===== src/AppPkg.antt =====
-- daemon/app-pkg.c: the calls that describe a package, and the one that writes it.
pub mod Additions
pub mod Write
pub mod Written
use isoft_package_installer.Base.{
  if◌then◌else◌, Bytes, ℕ, Bool, true, false, Option, none, some, [],
}
use isoft_package_installer.Package.{Package, new_package}
use isoft_package_installer.Rpm.{Tag, Rpm}

-- `struct _AppPkg`
module _ (R : Rpm) where
  pub record AppPkg : Type 0 where
    pub pkg : Package R

module _ (R : Rpm) where
  open R use {header_put_string, header_put_uint32, header_add_i18n_string}

  -- `headerPutString (pkg->header, tag, v)`
  abbrev put : Tag → Bytes → AppPkg R → AppPkg R
  put t v a = record { pkg = record (a.pkg) { header = header_put_string a.pkg.header t v } }

  -- `headerAddI18NString (pkg->header, tag, v, lang)`
  abbrev add_lang : Tag → Bytes → Bytes → AppPkg R → AppPkg R
  add_lang t lang v a = record {
    pkg = record (a.pkg) { header = header_add_i18n_string a.pkg.header t v lang };
  }

  abbrev put_uint32 : Tag → ℕ → AppPkg R → AppPkg R
  put_uint32 t v a = record { pkg = record (a.pkg) { header = header_put_uint32 a.pkg.header t v } }

  -- `app_pkg_new`
  unfoldable pub app_pkg_new : AppPkg R
  unfolding new_package
  app_pkg_new = record { pkg = record (new_package R none) { file_list = some [] } }

  abbrev named : Bytes → AppPkg R → AppPkg R
  named n a = record { pkg = record (a.pkg) { name = some n } }

  abbrev is_none : Option Bytes → Bool
  is_none none = true
  is_none (some n) = false

  -- The name's id is set only where there is none; the four tags are put in any case.
  unfoldable pub app_pkg_set_nvra : AppPkg R → Bytes → Bytes → Bytes → Bytes → AppPkg R
  app_pkg_set_nvra a n v r x = put Tag.arch x (
      put Tag.release r
        (put Tag.version v (put Tag.name n (if is_none a.pkg.name then named n a else a))))

  unfoldable pub app_pkg_set_name : AppPkg R → Bytes → AppPkg R
  app_pkg_set_name a v = put Tag.name v (named v a)

  unfoldable pub app_pkg_set_version : AppPkg R → Bytes → AppPkg R
  app_pkg_set_version a v = put Tag.version v a

  unfoldable pub app_pkg_set_release : AppPkg R → Bytes → AppPkg R
  app_pkg_set_release a v = put Tag.release v a

  unfoldable pub app_pkg_set_arch : AppPkg R → Bytes → AppPkg R
  app_pkg_set_arch a v = put Tag.arch v a

  unfoldable pub app_pkg_set_url : AppPkg R → Bytes → AppPkg R
  app_pkg_set_url a v = put Tag.url v a

  unfoldable pub app_pkg_set_disttag : AppPkg R → Bytes → AppPkg R
  app_pkg_set_disttag a v = put Tag.disttag v a

  unfoldable pub app_pkg_set_bugurl : AppPkg R → Bytes → AppPkg R
  app_pkg_set_bugurl a v = put Tag.bugurl v a

  unfoldable pub app_pkg_set_vcs : AppPkg R → Bytes → AppPkg R
  app_pkg_set_vcs a v = put Tag.vcs v a

  unfoldable pub app_pkg_set_disturl : AppPkg R → Bytes → AppPkg R
  app_pkg_set_disturl a v = put Tag.disturl v a

  unfoldable pub app_pkg_set_platform : AppPkg R → Bytes → AppPkg R
  app_pkg_set_platform a v = put Tag.platform v a

  unfoldable pub app_pkg_set_optflags : AppPkg R → Bytes → AppPkg R
  app_pkg_set_optflags a v = put Tag.optflags v a

  unfoldable pub app_pkg_set_group : AppPkg R → Bytes → AppPkg R
  app_pkg_set_group a v = put Tag.group v a

  unfoldable pub app_pkg_set_summary : AppPkg R → Bytes → AppPkg R
  app_pkg_set_summary a v = put Tag.summary v a

  unfoldable pub app_pkg_set_distribution : AppPkg R → Bytes → AppPkg R
  app_pkg_set_distribution a v = put Tag.distribution v a

  unfoldable pub app_pkg_set_vendor : AppPkg R → Bytes → AppPkg R
  app_pkg_set_vendor a v = put Tag.vendor v a

  unfoldable pub app_pkg_set_license : AppPkg R → Bytes → AppPkg R
  app_pkg_set_license a v = put Tag.license v a

  unfoldable pub app_pkg_set_packager : AppPkg R → Bytes → AppPkg R
  app_pkg_set_packager a v = put Tag.packager v a

  unfoldable pub app_pkg_set_description : AppPkg R → Bytes → AppPkg R
  app_pkg_set_description a v = put Tag.description v a
