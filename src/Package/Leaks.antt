-- ===== src/Package/Leaks.antt =====
-- What the release of a package leaves behind.
use isoft_package_installer.Package.Release.{
  free_sources, free_trigger_files, free_dependencies, free_scripts, free_lists, free_package,
  app_pkg_free,
}
use isoft_package_installer.Package.Release.{
  Pointer, TriggerFileEntry, Source, Owner, Release, rfree, header_free, rpmds_free, argv_free,
  rpmfiles_free, pool_free, free, unless_null,
}
use isoft_package_installer.Base.{
  ◌==◌, if◌then◌else◌, ℕ, ◌+◌, ◌≡◌, refl, Option, none, some, List, [], ◌∷◌, ◌++◌, arith, ◌∙◌,
}

-- The pointer that a call releases.
abbrev pub pointer : Release → Pointer
pointer (rfree p) = p
pointer (header_free p) = p
pointer (rpmds_free p) = p
pointer (argv_free p) = p
pointer (rpmfiles_free p) = p
pointer (pool_free p) = p
pointer (free p) = p

-- How often a pointer is released.
abbrev pub times : Pointer → List Release → ℕ
times p [] = 0
times p (r ∷ l) = (if pointer r == p then 1 else 0) + times p l

-- How often a pointer stands in a field.
abbrev pub held : Pointer → Option Pointer → ℕ
held p none = 0
held p (some q) = if q == p then 1 else 0

abbrev pub held_by_sources : Pointer → List Source → ℕ
held_by_sources p [] = 0
held_by_sources p (r ∷ t) = held p (some r.source_at) + held p r.full_source + held_by_sources p t

abbrev pub held_by_triggers : Pointer → List TriggerFileEntry → ℕ
held_by_triggers p [] = 0
held_by_triggers p (o ∷ q) =
    held p (some o.trigger_at)
    + held p o.file_name
    + held p o.script
    + held p o.prog
    + held_by_triggers p q

abbrev pub held_by_dependencies : Pointer → List (Option Pointer) → ℕ
held_by_dependencies p [] = 0
held_by_dependencies p (ds ∷ rest) = held p ds + held_by_dependencies p rest

-- How often a pointer stands in the package, in the order of the fields of the struct, but for
-- the two scriptlets of the transaction.
abbrev pub held_by_package : Pointer → Owner → ℕ
held_by_package p pkg =
    held p (some pkg.package_at)
    + held p pkg.pool
    + held p pkg.package_header
    + held p pkg.own_ds
    + held_by_dependencies p pkg.dependency_sets
    + held p pkg.cpio_list
    + held p pkg.dpaths
    + held_by_sources p pkg.icon
    + held p pkg.pre_in_file
    + held p pkg.post_in_file
    + held p pkg.pre_un_file
    + held p pkg.post_un_file
    + held p pkg.verify_file
    + held_by_triggers p pkg.trigger_files
    + held_by_triggers p pkg.file_trigger_files
    + held_by_triggers p pkg.trans_file_trigger_files
    + held p pkg.file_file
    + held p pkg.own_file_list
    + held p pkg.remove_postfixes
    + held p pkg.policy_list

times-append : (p : Pointer) (xs ys : List Release) → times p (xs ++ ys) ≡ times p xs + times p ys
times-append p [] ys = omega arith
times-append p (x ∷ xs) ys = omega (arith, times-append p xs ys)

times-unless_null :
    (p : Pointer) (how : Pointer → Release) (e : (q : Pointer) → pointer (how q) ≡ q)
    (x : Option Pointer)
    → times p (unless_null how x) ≡ held p x
times-unless_null p how e none = refl
times-unless_null p how e (some q) = rw (e q) (omega arith)

times-free_sources :
    (p : Pointer) (l : List Source) → times p (free_sources l) ≡ held_by_sources p l
unfolding free_sources
times-free_sources p [] = refl
times-free_sources p (r ∷ t) =
    simp (times-append, times-unless_null) (omega (arith, times-free_sources p t))

times-free_trigger_files :
    (p : Pointer) (l : List TriggerFileEntry)
    → times p (free_trigger_files l) ≡ held_by_triggers p l
unfolding free_trigger_files
times-free_trigger_files p [] = refl
times-free_trigger_files p (o ∷ q) =
    simp (times-append, times-unless_null) (omega (arith, times-free_trigger_files p q))

times-free_dependencies :
    (p : Pointer) (l : List (Option Pointer))
    → times p (free_dependencies l) ≡ held_by_dependencies p l
unfolding free_dependencies
times-free_dependencies p [] = refl
times-free_dependencies p (ds ∷ rest) = omega (
  arith,
  times-append p (unless_null rpmds_free ds) (free_dependencies rest),
  times-unless_null p rpmds_free (λ q. refl) ds,
  times-free_dependencies p rest,
)

ruleset times_laws = (
  times-append, times-unless_null, times-free_dependencies, times-free_sources,
  times-free_trigger_files,
)

times-free_package :
    (p : Pointer) (pkg : Owner) → times p (free_package (some pkg)) ≡ held_by_package p pkg
unfolding free_package free_scripts free_lists
times-free_package p pkg = simp times_laws (omega arith)

-- When an AppPkg is freed, every pointer is released exactly as often as it stands in a field of its
-- package, in an entry of a chain, or for the package or the AppPkg itself, where the fields do not
-- count that hold the two scriptlets of the transaction. So nothing is released twice if no pointer
-- stands twice, and a text that only one of these two fields holds is never released.
pub times-app_pkg_free :
    (p apkg : Pointer) (pkg : Owner)
    → times p (app_pkg_free apkg (some pkg)) ≡ held p (some apkg) + held_by_package p pkg
unfolding app_pkg_free
times-app_pkg_free p apkg pkg =
    times-append p (free_package (some pkg)) (free apkg ∷ [])
    ∙ (rw (times-free_package p pkg) (omega arith))
