-- ===== src/Package/Release.antt =====
-- The release of a package in daemon/package.c, `freePackage`, `freeTriggerFiles` and `freeSources`,
-- and `app_pkg_free` of daemon/app-pkg.c. A pointer is its address; `none` is NULL.
use isoft_package_installer.Base.{ℕ, Option, none, some, List, [], ◌∷◌, ◌++◌}

abbrev pub Pointer : Type 0
Pointer = ℕ

-- An entry of a chain with its own address and what it owns. `next` is the rest of the list.
pub record TriggerFileEntry : Type 0 where
  pub trigger_at : Pointer
  pub file_name : Option Pointer
  pub script : Option Pointer
  pub prog : Option Pointer

-- `source` points into `fullSource`.
pub record Source : Type 0 where
  pub source_at : Pointer
  pub full_source : Option Pointer

-- The pointers of `struct _Package` and its own address.
pub record Owner : Type 0 where
  pub package_at : Pointer
  pub pool : Option Pointer
  pub package_header : Option Pointer
  pub own_ds : Option Pointer
  pub dependency_sets : List (Option Pointer)
  pub cpio_list : Option Pointer
  pub dpaths : Option Pointer
  pub icon : List Source
  pub pre_in_file : Option Pointer
  pub post_in_file : Option Pointer
  pub pre_un_file : Option Pointer
  pub post_un_file : Option Pointer
  pub pre_trans_file : Option Pointer
  pub post_trans_file : Option Pointer
  pub verify_file : Option Pointer
  pub trigger_files : List TriggerFileEntry
  pub file_trigger_files : List TriggerFileEntry
  pub trans_file_trigger_files : List TriggerFileEntry
  pub file_file : Option Pointer
  pub own_file_list : Option Pointer
  pub remove_postfixes : Option Pointer
  pub policy_list : Option Pointer

-- The functions that release a pointer.
pub data Release : Type 0 where
  rfree header_free rpmds_free argv_free rpmfiles_free pool_free free : Pointer → Release

-- A call with NULL does nothing.
abbrev pub unless_null : (Pointer → Release) → Option Pointer → List Release
unless_null how none = []
unless_null how (some p) = how p ∷ []

unfoldable pub free_trigger_files : List TriggerFileEntry → List Release
free_trigger_files [] = []
free_trigger_files (o ∷ q) =
    unless_null rfree o.file_name
    ++ (unless_null rfree o.script
        ++ (unless_null rfree o.prog ++ (free o.trigger_at ∷ free_trigger_files q)))

unfoldable pub free_sources : List Source → List Release
free_sources [] = []
free_sources (r ∷ t) = unless_null rfree r.full_source ++ (free r.source_at ∷ free_sources t)

-- The loop over `dependencies`.
unfoldable pub free_dependencies : List (Option Pointer) → List Release
free_dependencies [] = []
free_dependencies (ds ∷ rest) = unless_null rpmds_free ds ++ free_dependencies rest

unfoldable pub free_scripts : Owner → List Release
free_scripts pkg =
    unless_null rfree pkg.pre_in_file
    ++ (unless_null rfree pkg.post_in_file
        ++ (unless_null rfree pkg.pre_un_file
            ++ (unless_null rfree pkg.post_un_file ++ unless_null rfree pkg.verify_file)))

unfoldable pub free_lists : Owner → List Release
free_lists pkg =
    unless_null argv_free pkg.own_file_list
    ++ (unless_null argv_free pkg.file_file
        ++ (unless_null argv_free pkg.policy_list
            ++ (unless_null argv_free pkg.remove_postfixes
                ++ (unless_null rpmfiles_free pkg.cpio_list ++ unless_null argv_free pkg.dpaths))))

-- `freePackage`: the calls in their order.
unfoldable pub free_package : Option Owner → List Release
unfolding free_scripts free_dependencies free_lists free_sources free_trigger_files
free_package none = []
free_package (some pkg) =
    free_scripts pkg
    ++ (unless_null header_free pkg.package_header
        ++ (unless_null rpmds_free pkg.own_ds
            ++ (free_dependencies pkg.dependency_sets
                ++ (free_lists pkg
                    ++ (free_sources pkg.icon
                        ++ (free_trigger_files pkg.trigger_files
                            ++ (free_trigger_files pkg.file_trigger_files
                                ++ (free_trigger_files pkg.trans_file_trigger_files
                                    ++ (unless_null pool_free pkg.pool
                                        ++ (free pkg.package_at ∷ []))))))))))

-- `app_pkg_free` of daemon/app-pkg.c, by the address of the AppPkg and its package.
unfoldable pub app_pkg_free : Pointer → Option Owner → List Release
unfolding free_package
app_pkg_free apkg pkg = free_package pkg ++ (free apkg ∷ [])
