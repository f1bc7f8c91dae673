-- ===== src/Package.antt =====
-- daemon/package.c, daemon/package.h and daemon/reqprov.c: a package under construction and its
-- table of dependency sets.
pub mod Dependencies
pub mod Release
pub mod Leaks
-- The fields of `struct _Package` that the modelled code reads or writes. The string pool is left
-- out: an id stands for its string, and the id 0 for none. `file_list` is NULL before `argvNew`.
use isoft_package_installer.Base.{
  ◌==◌, if◌then◌else◌, Bytes, codes, bytes_eq, starts_with, get_elem?, set, ℕ, zero, suc, Bool,
  true, false, not, ◌&&◌, ◌||◌, Option, none, some, List, [], ◌∷◌, ◌++◌,
}
use isoft_package_installer.Rpm.{Tag, number, same_tag, Dependency, Rpm}

module _ (R : Rpm) where
  pub record Package : Type 0 where
    pub name : Option Bytes
    pub header : R.Header
    pub ds : Option R.Ds
    pub dependencies : List (Option R.Ds)
    pub file_list : Option (List Bytes)
    pub auto_req : Bool
    pub auto_prov : Bool

-- `PACKAGE_NUM_DEPS`
abbrev pub package_num_deps : ℕ
package_num_deps = 12

abbrev replicate {ℓ} : {A : Type ℓ} → ℕ → A → List A
replicate zero a = []
replicate (suc n) a = a ∷ replicate n a

abbrev pub rpmlib_prefix : Bytes
rpmlib_prefix = codes "rpmlib("

module _ (R : Rpm) where
  open R use {header_new, header_get_string, header_evr, ds_tag_n, ds_single, ds_merge}

  unfoldable pub new_package : Option Bytes → Package R
  new_package name = record {
    name = name;
    header = header_new;
    ds = none;
    dependencies = replicate package_num_deps none;
    file_list = none;
    auto_req = true;
    auto_prov = true;
  }

  -- `packageDependencies`: the place of the slot for the tag, or `none` for NULL.
  unfoldable pub package_dependencies : List (Option R.Ds) → ℕ → Option ℕ
  package_dependencies [] tag = none
  package_dependencies (none ∷ slots) tag = some 0
  package_dependencies (some ds ∷ slots) tag =
      let rest : Option ℕ = elim (package_dependencies slots tag) [
        | none ↦ none
        | some i ↦ some (suc i)
      ] in
      if (ds_tag_n ds == tag) || (ds_tag_n ds == 0) then some 0 else rest

  -- `rpmdsMerge (dsp, newds)` through the slot's address; a NULL address changes nothing.
  unfoldable pub merge_at : Option ℕ → R.Ds → List (Option R.Ds) → List (Option R.Ds)
  merge_at none new slots = slots
  merge_at (some i) new slots = elim (get_elem? slots i) [
    | none ↦ slots
    | some old ↦ set slots i (some (ds_merge old new))
  ]

  -- `addReqProv`, with the code that it returns. `rpmSanitizeDSFlags` is the part of `ds_single`.
  unfoldable pub add_req_prov : Package R → Tag → Dependency → Package R × ℕ
  unfolding package_dependencies merge_at
  add_req_prov pkg tag dep =
      let slot = package_dependencies pkg.dependencies (number tag) in
      let added = λ (x : Dependency). record pkg {
        dependencies = merge_at slot (ds_single tag x) pkg.dependencies;
      } in
      if starts_with rpmlib_prefix dep.name
      then if not (same_tag tag Tag.requirename) then (pkg, 1) else (
        added (record dep {
          sense = record { equal = dep.sense.equal; less = dep.sense.less; rpmlib = true };
        }),
        0,
      )
      else (added dep, 0)

  abbrev provide : R.Header → Bytes → Dependency
  provide h n = record {
    name = n;
    evr = header_evr h;
    sense = record { equal = true; less = false; rpmlib = false };
  }

  -- `addPackageProvides`. What `rpmExpand` makes of the name and `%{?_isa}` is the first argument.
  -- `none` is a read through the NULL that `headerGetString` gives for a tag that is not there.
  unfoldable pub add_package_provides : (Bytes → Bytes) → Package R → Option (Package R)
  unfolding add_req_prov
  add_package_provides with_isa pkg = elim (header_get_string pkg.header Tag.name) [
    | none ↦ none
    | some name ↦ elim (header_get_string pkg.header Tag.arch) [
      | none ↦ none
      | some arch ↦
          let own = (add_req_prov pkg Tag.providename (provide pkg.header name)).0 in
          some (
            if not (bytes_eq arch (codes "noarch")) && not (bytes_eq name (with_isa name))
            then (add_req_prov own Tag.providename (provide own.header (with_isa name))).0
            else own)
    ]
  ]

  -- `rpmlibNeedsFeature`
  unfoldable pub rpmlib_needs_feature : Package R → Bytes → Bytes → Package R × ℕ
  unfolding add_req_prov
  rpmlib_needs_feature pkg feature evr = add_req_prov pkg Tag.requirename (record {
    name = rpmlib_prefix ++ (feature ++ codes ")");
    evr = evr;
    sense = record { equal = true; less = true; rpmlib = true };
  })
