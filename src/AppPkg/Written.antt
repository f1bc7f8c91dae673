-- ===== src/AppPkg/Written.antt =====
-- What `app_pkg_write` of daemon/app-pkg.c writes.
use isoft_package_installer.Base.{
  Bytes, ◌≡◌, ltb, if◌then◌else◌, decimal, codes, length, decimal_int, ◌%◌, ◌<◌, refl, sym, ap, ◌∙◌,
  subst, ◌⊎◌, inl, inr, Bool, true, false, Option, none, some, [], ◌∷◌, ◌++◌, arith,
}
use isoft_package_installer.Package.{Package}
use isoft_package_installer.AppPkg.Write.{
  rc_ok, rc_fail, Build, Write, crashed, on_header, cookie, stamp, prepare, app_pkg_write, returned,
}
use isoft_package_installer.Rpm.{Tag, same_tag, Rpm, IsLawful}
use isoft_package_installer.AppPkg.{AppPkg}

module _ (R : Rpm) (B : Build R) where
  open R use {header_put_string, header_put_uint32, header_get_string}
  open B use {process_package_files, generate_depends, rpm_version, build_host, build_time}

  -- Nothing is written, or one package to this path.
  abbrev pub IsOnce : Bytes → Write R → Type 0
  IsOnce path crashed = Unit
  IsOnce path (returned rc b w) = (w ≡ []) ⊎ ((p : Package R) × (w ≡ (p, path) ∷ []))

  pub app_pkg_write-IsOnce :
      (a : AppPkg R) (root path : Bytes) → IsOnce path (app_pkg_write R B a root path)
  unfolding app_pkg_write
  app_pkg_write-IsOnce a root path = by_prepared (prepare R B a.pkg)
    where
      by_length :
          (r : Package R) (fits : Bool)
          → IsOnce path (
              if fits
              then returned rc_ok
                  (record { pkg = on_header R B (stamp R B) r })
                  ((on_header R B (stamp R B) r, path) ∷ [])
              else crashed)
      by_length r true = inr (on_header R B (stamp R B) r, refl)
      by_length r false = tt

      by_depends :
          (q : Package R) (o : Option (Package R))
          → IsOnce path (elim o [
            | none ↦ returned rc_fail (record { pkg = q }) []
            | some r ↦
                if ltb (length (cookie R B)) 256
                then returned rc_ok
                    (record { pkg = on_header R B (stamp R B) r })
                    ((on_header R B (stamp R B) r, path) ∷ [])
                else crashed
          ])
      by_depends q none = inl refl
      by_depends q (some r) = by_length r (ltb (length (cookie R B)) 256)

      by_files :
          (p : Package R) (o : Option (Package R))
          → IsOnce path (elim o [
            | none ↦ returned rc_fail (record { pkg = p }) []
            | some q ↦ elim (generate_depends root q) [
              | none ↦ returned rc_fail (record { pkg = q }) []
              | some r ↦
                  if ltb (length (cookie R B)) 256
                  then returned rc_ok
                      (record { pkg = on_header R B (stamp R B) r })
                      ((on_header R B (stamp R B) r, path) ∷ [])
                  else crashed
            ]
          ])
      by_files p none = inl refl
      by_files p (some q) = by_depends q (generate_depends root q)

      by_prepared :
          (o : Option (Package R))
          → IsOnce path (elim o [
            | none ↦ crashed
            | some p ↦ elim (process_package_files root p) [
              | none ↦ returned rc_fail (record { pkg = p }) []
              | some q ↦ elim (generate_depends root q) [
                | none ↦ returned rc_fail (record { pkg = q }) []
                | some r ↦
                    if ltb (length (cookie R B)) 256
                    then returned rc_ok
                        (record { pkg = on_header R B (stamp R B) r })
                        ((on_header R B (stamp R B) r, path) ∷ [])
                    else crashed
              ]
            ]
          ])
      by_prepared none = tt
      by_prepared (some p) = by_files p (process_package_files root p)

  -- What the stamped header has under a tag, which is not the one of the build time.
  get-stamp :
      (L : IsLawful R) (h : R.Header) (u : Tag)
      → header_get_string h Tag.os ≡ none
      → header_get_string h Tag.rpmversion ≡ none
      → header_get_string h Tag.buildhost ≡ none
      → header_get_string h Tag.cookie ≡ none
      → same_tag Tag.buildtime u ≡ false
      → header_get_string (stamp R B h) u ≡ (
          if same_tag Tag.cookie u
          then some (cookie R B)
          else if same_tag Tag.buildhost u
          then some build_host
          else if same_tag Tag.rpmversion u
          then some rpm_version
          else if same_tag Tag.os u
          then some (codes "linux")
          else header_get_string h u)
  unfolding stamp
  get-stamp L h u no_os no_version no_host no_cookie other =
      L.get-put h4 Tag.cookie u (cookie R B) (
        L.get-put_uint32 h3 Tag.buildtime Tag.cookie (build_time % 4294967296) refl
        ∙ (g3 Tag.cookie ∙ no_cookie))
      ∙ rw (L.get-put_uint32 h3 Tag.buildtime u (build_time % 4294967296) other ∙ g3 u)
    where
      h1 : R.Header
      h1 = header_put_string h Tag.os (codes "linux")

      h2 : R.Header
      h2 = header_put_string h1 Tag.rpmversion rpm_version

      h3 : R.Header
      h3 = header_put_string h2 Tag.buildhost build_host

      h4 : R.Header
      h4 = header_put_uint32 h3 Tag.buildtime (build_time % 4294967296)

      g1 :
          (t : Tag)
          → header_get_string h1 t
            ≡ (if same_tag Tag.os t then some (codes "linux") else header_get_string h t)
      g1 t = L.get-put h Tag.os t (codes "linux") no_os

      g2 :
          (t : Tag)
          → header_get_string h2 t ≡ (
              if same_tag Tag.rpmversion t
              then some rpm_version
              else if same_tag Tag.os t
              then some (codes "linux")
              else header_get_string h t)
      g2 t = L.get-put h1 Tag.rpmversion t rpm_version (g1 Tag.rpmversion ∙ no_version) ∙ rw (g1 t)

      g3 :
          (t : Tag)
          → header_get_string h3 t ≡ (
              if same_tag Tag.buildhost t
              then some build_host
              else if same_tag Tag.rpmversion t
              then some rpm_version
              else if same_tag Tag.os t
              then some (codes "linux")
              else header_get_string h t)
      g3 t = L.get-put h2 Tag.buildhost t build_host (g2 Tag.buildhost ∙ no_host) ∙ rw (g2 t)

  cookie-early : build_time < 2147483648 → cookie R B ≡ build_host ++ (b' ' ∷ decimal build_time)
  unfolding decimal_int
  cookie-early h =
      let small : build_time % 4294967296 ≡ build_time = omega arith in
      let positive : ltb build_time 2147483648 ≡ true = ground arith in rw small (rw positive refl)

  -- A package to which its own provides can be added, which `prepare` does, whose files and
  -- dependencies are found and whose header then has none of the tags of the build, at a time before
  -- 2^31: with a host name and time that fit the cookie, the code is RPMRC_OK and the package is
  -- written once, to the given path, and its header has the system linux, the versions, the host, and
  -- as cookie the host, a blank and the time in decimal.
  pub app_pkg_write_lem :
      (L : IsLawful R) (a : AppPkg R) (root path : Bytes) (p q r : Package R)
      → prepare R B a.pkg ≡ some p
      → process_package_files root p ≡ some q
      → generate_depends root q ≡ some r
      → build_time < 2147483648
      → length (build_host ++ (b' ' ∷ decimal build_time)) < 256
      → header_get_string r.header Tag.os ≡ none
      → header_get_string r.header Tag.rpmversion ≡ none
      → header_get_string r.header Tag.buildhost ≡ none
      → header_get_string r.header Tag.cookie ≡ none
      → (done : Package R) × (app_pkg_write R B a root path
          ≡ returned rc_ok (record { pkg = done }) ((done, path) ∷ []))
        × (header_get_string done.header Tag.os ≡ some (codes "linux"))
        × (header_get_string done.header Tag.rpmversion ≡ some rpm_version)
        × (header_get_string done.header Tag.buildhost ≡ some build_host)
        × (header_get_string done.header Tag.cookie
            ≡ some (build_host ++ (b' ' ∷ decimal build_time)))
        × (done.dependencies ≡ r.dependencies)
  unfolding app_pkg_write stamp
  app_pkg_write_lem L a root path p q r e f g early short h0 h1 h2 h3 =
      let at = λ (u : Tag) (other : same_tag Tag.buildtime u ≡ false).
        get-stamp L r.header u h0 h1 h2 h3 other in
      let fits : length (cookie R B) < 256 =
        subst (λ s. length s < 256) (sym (cookie-early early)) short in
      (
        on_header R B (stamp R B) r,
        rw (e, app_pkg_write) (rw (f, app_pkg_write) (rw (g, app_pkg_write) (ground arith))),
        at Tag.os refl,
        at Tag.rpmversion refl,
        at Tag.buildhost refl,
        at Tag.cookie refl ∙ ap some (cookie-early early),
        refl,
      )
