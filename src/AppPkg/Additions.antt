-- ===== src/AppPkg/Additions.antt =====
-- The calls of daemon/app-pkg.c that add to a package: texts in a language, scripts, the change
-- log, files and dependencies.
use isoft_package_installer.Base.{Bytes, codes, ℕ, none, some, List, [], ◌∷◌, ◌++◌}
use isoft_package_installer.Package.{add_req_prov}
use isoft_package_installer.Rpm.{Tag, Sense, Rpm}
use isoft_package_installer.AppPkg.{AppPkg, put, add_lang, put_uint32}

abbrev pub shell : Bytes
shell = codes "/bin/sh"

module _ (R : Rpm) where
  unfoldable pub app_pkg_add_lang_group : AppPkg R → Bytes → Bytes → AppPkg R
  app_pkg_add_lang_group a lang v = add_lang R Tag.group lang v a

  unfoldable pub app_pkg_add_lang_summary : AppPkg R → Bytes → Bytes → AppPkg R
  app_pkg_add_lang_summary a lang v = add_lang R Tag.summary lang v a

  unfoldable pub app_pkg_add_lang_distribution : AppPkg R → Bytes → Bytes → AppPkg R
  app_pkg_add_lang_distribution a lang v = add_lang R Tag.distribution lang v a

  unfoldable pub app_pkg_add_lang_vendor : AppPkg R → Bytes → Bytes → AppPkg R
  app_pkg_add_lang_vendor a lang v = add_lang R Tag.vendor lang v a

  unfoldable pub app_pkg_add_lang_license : AppPkg R → Bytes → Bytes → AppPkg R
  app_pkg_add_lang_license a lang v = add_lang R Tag.license lang v a

  unfoldable pub app_pkg_add_lang_packager : AppPkg R → Bytes → Bytes → AppPkg R
  app_pkg_add_lang_packager a lang v = add_lang R Tag.packager lang v a

  unfoldable pub app_pkg_add_lang_description : AppPkg R → Bytes → Bytes → AppPkg R
  app_pkg_add_lang_description a lang v = add_lang R Tag.description lang v a

  -- `argvAdd`
  unfoldable pub app_pkg_add_filelist : AppPkg R → Bytes → AppPkg R
  app_pkg_add_filelist a f =
      let files : List Bytes = elim a.pkg.file_list [ none ↦ [] | some l ↦ l ] in
      record { pkg = record (a.pkg) { file_list = some (files ++ (f ∷ [])) } }

  unfoldable pub app_pkg_add_changelog : AppPkg R → ℕ → Bytes → Bytes → AppPkg R
  app_pkg_add_changelog a time who text =
      put R Tag.changelogtext text
        (put R Tag.changelogname who (put_uint32 R Tag.changelogtime time a))

  unfoldable pub app_pkg_set_pre_scripts : AppPkg R → Bytes → AppPkg R
  app_pkg_set_pre_scripts a scripts = put R Tag.prein scripts (put R Tag.preinprog shell a)

  unfoldable pub app_pkg_set_post_scripts : AppPkg R → Bytes → AppPkg R
  app_pkg_set_post_scripts a scripts = put R Tag.postin scripts (put R Tag.postinprog shell a)

  unfoldable pub app_pkg_set_preun_scripts : AppPkg R → Bytes → AppPkg R
  app_pkg_set_preun_scripts a scripts = put R Tag.preun scripts (put R Tag.preunprog shell a)

  unfoldable pub app_pkg_set_postun_scripts : AppPkg R → Bytes → AppPkg R
  app_pkg_set_postun_scripts a scripts = put R Tag.postun scripts (put R Tag.postunprog shell a)

  unfoldable pub app_pkg_set_pretrans_scripts : AppPkg R → Bytes → AppPkg R
  app_pkg_set_pretrans_scripts a scripts =
      put R Tag.pretrans scripts (put R Tag.pretransprog shell a)

  unfoldable pub app_pkg_set_posttrans_scripts : AppPkg R → Bytes → AppPkg R
  app_pkg_set_posttrans_scripts a scripts =
      put R Tag.posttrans scripts (put R Tag.posttransprog shell a)

  unfoldable pub app_pkg_add_require : AppPkg R → Bytes → Sense → Bytes → AppPkg R
  unfolding add_req_prov
  app_pkg_add_require a n flags v = record {
    pkg = (add_req_prov R a.pkg Tag.requirename (record { name = n; evr = v; sense = flags })).0;
  }

  unfoldable pub app_pkg_add_provide : AppPkg R → Bytes → Sense → Bytes → AppPkg R
  unfolding add_req_prov
  app_pkg_add_provide a n flags v = record {
    pkg = (add_req_prov R a.pkg Tag.providename (record { name = n; evr = v; sense = flags })).0;
  }
