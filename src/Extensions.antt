-- ===== src/Extensions.antt =====
-- daemon/extensions.c: the interfaces that vendor extensions add to the daemon. The file system,
-- the XML parser and the list of data directories are parameters; a hash table is the list of its
-- entries, each key once.
pub mod Tables
pub mod Precedence
use isoft_package_installer.Base.{
  if◌then◌else◌, Bytes, codes, bytes_eq, starts_with, length, drop, Bool, true, false, not, ◌&&◌,
  ◌||◌, Option, none, some, List, [], ◌∷◌,
}

-- The part of a `GDBusInterfaceInfo` that the program reads; a NULL array is empty here.
pub record Interface : Type 0 where
  pub name : Bytes
  pub methods : List Bytes
  pub signals : List Bytes
  pub annotations : List Bytes

abbrev pub Table : Type 0
Table = List (Bytes × Interface)

-- `g_hash_table_lookup`
unfoldable pub find_iface : Bytes → Table → Option Interface
find_iface key [] = none
find_iface key ((k, i) ∷ t) = if bytes_eq k key then some i else find_iface key t

-- `g_hash_table_contains`
unfoldable pub contains : Table → Bytes → Bool
contains [] key = false
contains ((k, i) ∷ t) key = bytes_eq k key || contains t key

-- `g_hash_table_insert`, which replaces the value of a key that is there.
unfoldable pub insert : Bytes → Interface → Table → Table
insert key v [] = (key, v) ∷ []
insert key v ((k, i) ∷ t) = if bytes_eq k key then (k, v) ∷ t else (k, i) ∷ insert key v t

abbrev pub vendor_extension : Bytes
vendor_extension = codes "org.isoftlinux.Install.VendorExtension"

abbrev is_null : List Bytes → Bool
is_null [] = true
is_null (x ∷ l) = false

-- The loop over the annotations: the first that is the vendor's inserts the interface and returns.
unfoldable pub add_if_annotated : List Bytes → Interface → Table → Table
unfolding insert
add_if_annotated [] iface ifaces = ifaces
add_if_annotated (key ∷ keys) iface ifaces =
    if bytes_eq key vendor_extension
    then insert iface.name iface ifaces
    else add_if_annotated keys iface ifaces

unfoldable pub daemon_maybe_add_extension_interface : Interface → Table → Table
unfolding contains add_if_annotated
daemon_maybe_add_extension_interface iface ifaces =
    if contains ifaces iface.name
    then ifaces
    else if not (is_null iface.methods) || not (is_null iface.signals)
    then ifaces
    else add_if_annotated iface.annotations iface ifaces

unfoldable pub add_interfaces : List Interface → Table → Table
unfolding daemon_maybe_add_extension_interface
add_interfaces [] ifaces = ifaces
add_interfaces (i ∷ is) ifaces = add_interfaces is (daemon_maybe_add_extension_interface i ifaces)

abbrev pub link_prefix : Bytes
link_prefix = codes "../../dbus-1/interfaces/"

-- "Ensure it looks like ../../dbus-1/interfaces/${name}"
unfoldable pub is_extension_link : Bytes → Bytes → Bool
is_extension_link symlink name =
    starts_with link_prefix symlink && bytes_eq (drop (length link_prefix) symlink) name

-- What the functions read through GLib: `g_file_get_contents`, `g_dbus_node_info_new_for_xml`,
-- `g_dir_open` with the names in the order of `g_dir_read_name`, `g_file_read_link`, and
-- `g_build_filename` of two parts. A failure is `none`.
pub record World : Type 0 where
  pub get_contents : Bytes → Option Bytes
  pub node_info : Bytes → Option (List Interface)
  pub open_dir : Bytes → Option (List Bytes)
  pub read_link : Bytes → Option Bytes
  pub build_filename : Bytes → Bytes → Bytes

module _ (w : World) where
  open w use {get_contents, node_info, open_dir, read_link, build_filename}

  unfoldable pub daemon_read_extension_file : Bytes → Table → Table
  unfolding add_interfaces
  daemon_read_extension_file filename ifaces = elim (get_contents filename) [
    | none ↦ ifaces
    | some contents ↦ elim (node_info contents) [
      | none ↦ ifaces
      | some interfaces ↦ add_interfaces interfaces ifaces
    ]
  ]

  -- One round of the loop over the directory's names.
  unfoldable pub read_entry : Bytes → Bytes → Table → Table
  unfolding daemon_read_extension_file is_extension_link
  read_entry path name ifaces = elim (read_link (build_filename path name)) [
    | none ↦ ifaces
    | some symlink ↦
        if is_extension_link symlink name
        then daemon_read_extension_file (build_filename path name) ifaces
        else ifaces
  ]

  unfoldable pub read_entries : Bytes → List Bytes → Table → Table
  unfolding read_entry
  read_entries path [] ifaces = ifaces
  read_entries path (name ∷ names) ifaces = read_entries path names (read_entry path name ifaces)

  unfoldable pub daemon_read_extension_directory : Bytes → Table → Table
  unfolding read_entries
  daemon_read_extension_directory path ifaces = elim (open_dir path) [
    | none ↦ ifaces
    | some names ↦ read_entries path names ifaces
  ]

  unfoldable pub read_data_dirs : List Bytes → Table → Table
  unfolding daemon_read_extension_directory
  read_data_dirs [] ifaces = ifaces
  read_data_dirs (dir ∷ dirs) ifaces = read_data_dirs dirs (
      daemon_read_extension_directory (build_filename dir (codes "isoftinstall/interfaces")) ifaces)

  unfoldable pub daemon_read_extension_ifaces : List Bytes → Table
  unfolding read_data_dirs
  daemon_read_extension_ifaces data_dirs = read_data_dirs data_dirs []
