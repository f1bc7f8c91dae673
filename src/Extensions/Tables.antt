-- ===== src/Extensions/Tables.antt =====
-- Tables of interfaces and the first acceptable interface of a name.
use isoft_package_installer.Base.{
  if◌then◌else◌, Bytes, bytes_eq, ◌≡◌, refl, ◌≢◌, Bool, true, false, ◌&&◌, ◌||◌, Option, none, some,
  List, [], ◌∷◌, arith, bytes_eq_iff, ◌++◌, starts_with, length, drop,
}
use isoft_package_installer.Extensions.{
  Interface, Table, find_iface, contains, insert, vendor_extension, add_if_annotated,
  daemon_maybe_add_extension_interface, add_interfaces, link_prefix, is_extension_link,
}

-- One of the annotations is the vendor's.
pub annotated : List Bytes → Bool
annotated [] = false
annotated (key ∷ keys) = bytes_eq key vendor_extension || annotated keys

-- An interface with only properties that has the vendor's annotation.
pub acceptable : Interface → Bool
acceptable i = elim i.methods [
  | [] ↦ elim i.signals [ [] ↦ annotated i.annotations | s ∷ ss ↦ false ]
  | m ∷ ms ↦ false
]

-- The first acceptable interface of the name.
unfoldable pub first_acceptable : Bytes → List Interface → Option Interface
first_acceptable name [] = none
first_acceptable name (i ∷ is) =
    if acceptable i && bytes_eq i.name name then some i else first_acceptable name is

abbrev pub or_else : Option Interface → Option Interface → Option Interface
or_else none b = b
or_else (some a) b = some a

pub or_else-none : (o : Option Interface) → or_else o none ≡ o
or_else-none none = refl
or_else-none (some i) = refl

pub or_else_assoc : (a b c : Option Interface) → or_else (or_else a b) c ≡ or_else a (or_else b c)
or_else_assoc none b c = refl
or_else_assoc (some i) b c = refl

pub first_acceptable-append :
    (name : Bytes) (is js : List Interface)
    → first_acceptable name (is ++ js)
      ≡ or_else (first_acceptable name is) (first_acceptable name js)
unfolding first_acceptable
first_acceptable-append name [] js = refl
first_acceptable-append name (i ∷ is) js = ground (arith, first_acceptable-append name is js)

find_iface-insert :
    (key name : Bytes) (v : Interface) (t : Table)
    → contains t key ≡ false
    → find_iface name (insert key v t)
      ≡ or_else (find_iface name t) (if bytes_eq key name then some v else none)
unfolding find_iface contains insert
find_iface-insert key name v [] h = refl
find_iface-insert key name v ((k, i) ∷ t) h =
    ground (arith, find_iface-insert key name v t, bytes_eq_iff k key, bytes_eq_iff key name)

contains-find_iface : (t : Table) (key : Bytes) → contains t key ≡ true → find_iface key t ≢ none
unfolding find_iface contains
contains-find_iface [] key h = cc
contains-find_iface ((k, i) ∷ t) key h = ground (arith, contains-find_iface t key)

find_iface-add_if_annotated :
    (keys : List Bytes) (i : Interface) (name : Bytes) (t : Table)
    → contains t i.name ≡ false
    → find_iface name (add_if_annotated keys i t)
      ≡ or_else
          (find_iface name t)
          (if annotated keys && bytes_eq i.name name then some i else none)
unfolding add_if_annotated annotated
find_iface-add_if_annotated [] i name t h = rw or_else-none
find_iface-add_if_annotated (key ∷ keys) i name t h =
    ground (arith, find_iface-insert i.name name i t h, find_iface-add_if_annotated keys i name t h)

find_iface-maybe_add :
    (i : Interface) (name : Bytes) (t : Table)
    → find_iface name (daemon_maybe_add_extension_interface i t)
      ≡ or_else (find_iface name t) (if acceptable i && bytes_eq i.name name then some i else none)
unfolding daemon_maybe_add_extension_interface acceptable
find_iface-maybe_add i name t = ground (
  arith,
  find_iface-add_if_annotated i.annotations i name t,
  contains-find_iface t name,
  bytes_eq_iff i.name name,
)

pub find_iface-add_interfaces :
    (is : List Interface) (name : Bytes) (t : Table)
    → find_iface name (add_interfaces is t) ≡ or_else (find_iface name t) (first_acceptable name is)
unfolding add_interfaces first_acceptable
find_iface-add_interfaces [] name t = rw or_else-none
find_iface-add_interfaces (i ∷ is) name t = ground (
  arith,
  find_iface-add_interfaces is name (daemon_maybe_add_extension_interface i t),
  find_iface-maybe_add i name t,
)

prefix_test :
    (p s n : Bytes) → (starts_with p s && bytes_eq (drop (length p) s) n) ≡ bytes_eq s (p ++ n)
unfolding starts_with bytes_eq
prefix_test [] s n = refl
prefix_test (x ∷ p) [] n = refl
prefix_test (x ∷ p) (y ∷ s) n = ground (arith, prefix_test p s n)

pub is_extension_link-eq-bytes_eq :
    (symlink name : Bytes) → is_extension_link symlink name ≡ bytes_eq symlink (link_prefix ++ name)
unfolding is_extension_link
is_extension_link-eq-bytes_eq symlink name = prefix_test link_prefix symlink name
