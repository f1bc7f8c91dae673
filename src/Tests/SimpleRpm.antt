-- ===== src/Tests/SimpleRpm.antt =====
-- A header as the list of its strings and a dependency set as a list: the interface of librpm can
-- be met.
use isoft_package_installer.Base.{
  if◌then◌else◌, Bytes, codes, bytes_eq, ℕ, ◌≡◌, refl, Bool, false, ◌&&◌, ◌||◌, Option, none, some,
  List, [], ◌∷◌, ◌++◌, arith,
}
use isoft_package_installer.Rpm.{Tag, number, same_tag, Dependency, Rpm, IsLawful}

abbrev find_tag : List (Tag × Bytes) → Tag → Option Bytes
find_tag [] u = none
find_tag ((t, v) ∷ h) u = if same_tag t u then some v else find_tag h u

abbrev same_dependency : Dependency → Dependency → Bool
same_dependency x y = bytes_eq x.name y.name && bytes_eq x.evr y.evr

abbrev any_dependency : List Dependency → Dependency → Bool
any_dependency [] y = false
any_dependency (x ∷ xs) y = same_dependency x y || any_dependency xs y

any_dependency-append :
    (xs ys : List Dependency) (y : Dependency)
    → any_dependency (xs ++ ys) y ≡ (any_dependency xs y || any_dependency ys y)
any_dependency-append [] ys y = refl
any_dependency-append (x ∷ xs) ys y = ground (arith, any_dependency-append xs ys y)

abbrev SetOfTag : Type 0
SetOfTag = ℕ × List Dependency

abbrev merge : Option SetOfTag → SetOfTag → SetOfTag
merge none n = n
merge (some (t, xs)) (u, ys) = (t, xs ++ ys)

abbrev field_or_empty : Option Bytes → Bytes
field_or_empty none = []
field_or_empty (some v) = v

abbrev pub simple_rpm : Rpm
simple_rpm = record {
  Header = List (Tag × Bytes);
  header_new = [];
  header_put_string = λ h t v. (t, v) ∷ h;
  header_put_uint32 = λ h t v. h;
  header_add_i18n_string = λ h t v lang. h;
  header_get_string = find_tag;
  header_nvr = λ h.
      field_or_empty (find_tag h Tag.name)
      ++ (codes "-" ++ field_or_empty (find_tag h Tag.version));
  header_evr = λ h. field_or_empty (find_tag h Tag.version);
  Ds = SetOfTag;
  ds_this = λ h. (number Tag.requirename, []);
  ds_tag_n = λ d. d.0;
  ds_single = λ t x. (number t, x ∷ []);
  ds_merge = merge;
  ds_holds = λ d y. any_dependency d.1 y;
}

pub simple_rpm-IsLawful : IsLawful simple_rpm
simple_rpm-IsLawful = record {
  get-new = λ t. refl;
  get-put = λ h t u v e. refl;
  get-put_uint32 = λ h t u v e. refl;
  tag_n-single = λ t x. refl;
  tag_n-merge_none = λ n. refl;
  tag_n-merge_some = λ d n. refl;
  holds-merge_none = λ n x. refl;
  holds-merge_some = λ d n x e. any_dependency-append d.1 n.1 x;
}
