-- ===== src/Extensions/Precedence.antt =====
-- The table against a description that has no table: the interfaces that the extensions offer, in
-- the order in which they are visited, and the first acceptable one of a name.
use isoft_package_installer.Extensions.Tables.{
  first_acceptable, or_else, or_else-none, or_else_assoc, first_acceptable-append,
  find_iface-add_interfaces, is_extension_link-eq-bytes_eq,
}
use isoft_package_installer.Base.{
  if◌then◌else◌, Bytes, bytes_eq, ◌≡◌, Bool, true, false, Option, none, some, List, [], ◌∷◌, codes,
  sym, ap, ◌∙◌, ◌++◌,
}
use isoft_package_installer.Extensions.{
  Interface, Table, find_iface, add_interfaces, link_prefix, is_extension_link, World,
  daemon_read_extension_file, read_entry, read_entries, daemon_read_extension_directory,
  read_data_dirs, daemon_read_extension_ifaces,
}

module _ (w : World) where
  open w use {get_contents, node_info, open_dir, read_link, build_filename}

  abbrev offered_by_file : Bytes → List Interface
  offered_by_file filename = elim (get_contents filename) [
    | none ↦ []
    | some contents ↦ elim (node_info contents) [ none ↦ [] | some interfaces ↦ interfaces ]
  ]

  abbrev offered_by_entry : Bytes → Bytes → List Interface
  offered_by_entry path name = elim (read_link (build_filename path name)) [
    | none ↦ []
    | some symlink ↦
        if bytes_eq symlink (link_prefix ++ name)
        then offered_by_file (build_filename path name)
        else []
  ]

  abbrev offered_by_entries : Bytes → List Bytes → List Interface
  offered_by_entries path [] = []
  offered_by_entries path (name ∷ names) =
      offered_by_entry path name ++ offered_by_entries path names

  -- All that the data directories offer, in the order in which they are listed.
  abbrev pub offered : List Bytes → List Interface
  offered [] = []
  offered (dir ∷ dirs) =
      let path = build_filename dir (codes "isoftinstall/interfaces") in
      (elim (open_dir path) [ none ↦ [] | some names ↦ offered_by_entries path names ])
      ++ offered dirs

  -- A part of the walk adds what it offers behind what was found before.
  abbrev Adds : (Table → Table) → List Interface → Type 0
  Adds f is =
      (name : Bytes) (t : Table)
      → find_iface name (f t) ≡ or_else (find_iface name t) (first_acceptable name is)

  Adds-none : Adds (λ t. t) []
  unfolding first_acceptable
  Adds-none name t = rw or_else-none

  Adds-both :
      (f g : Table → Table) (is js : List Interface)
      → Adds f is
      → Adds g js
      → Adds (λ t. g (f t)) (is ++ js)
  Adds-both f g is js p q name t =
      q name (f t)
      ∙ (rw (p name t) (
            or_else_assoc (find_iface name t) (first_acceptable name is) (first_acceptable name js))
          ∙ ap (or_else (find_iface name t)) (sym (first_acceptable-append name is js)))

  Adds-option :
      {A : Type 0} (o : Option A) (f : A → Table → Table) (g : A → List Interface)
      → ((a : A) → Adds (f a) (g a))
      → Adds (λ t. elim o [ none ↦ t | some a ↦ f a t ]) (elim o [ none ↦ [] | some a ↦ g a ])
  Adds-option none f g h = Adds-none
  Adds-option (some a) f g h = h a

  Adds-if :
      (b : Bool) (f : Table → Table) (is : List Interface)
      → Adds f is
      → Adds (λ t. if b then f t else t) (if b then is else [])
  Adds-if true f is h = h
  Adds-if false f is h = Adds-none

  file-Adds :
      (filename : Bytes) → Adds (daemon_read_extension_file w filename) (offered_by_file filename)
  unfolding daemon_read_extension_file
  file-Adds filename =
      Adds-option (get_contents filename)
        (λ c t. elim (node_info c) [ none ↦ t | some is ↦ add_interfaces is t ])
        (λ c. elim (node_info c) [ none ↦ [] | some is ↦ is ])
        λ c. Adds-option (node_info c) add_interfaces (λ is. is) find_iface-add_interfaces

  entry-Adds : (path entry : Bytes) → Adds (read_entry w path entry) (offered_by_entry path entry)
  unfolding read_entry
  entry-Adds path entry =
      let file = build_filename path entry in
      Adds-option (read_link file)
        (λ s t. if is_extension_link s entry then daemon_read_extension_file w file t else t)
        (λ s. if bytes_eq s (link_prefix ++ entry) then offered_by_file file else [])
        λ s. rw (← is_extension_link-eq-bytes_eq s entry) (
          Adds-if (is_extension_link s entry) (daemon_read_extension_file w file)
            (offered_by_file file) (file-Adds file))

  entries-Adds :
      (path : Bytes) (names : List Bytes)
      → Adds (read_entries w path names) (offered_by_entries path names)
  unfolding read_entries
  entries-Adds path [] = Adds-none
  entries-Adds path (n ∷ names) = Adds-both _ _ _ _ (entry-Adds path n) (entries-Adds path names)

  directory-Adds :
      (path : Bytes)
      → Adds
          (daemon_read_extension_directory w path)
          (elim (open_dir path) [ none ↦ [] | some names ↦ offered_by_entries path names ])
  unfolding daemon_read_extension_directory
  directory-Adds path =
      Adds-option (open_dir path) (read_entries w path) (offered_by_entries path)
        (entries-Adds path)

  dirs-Adds : (dirs : List Bytes) → Adds (read_data_dirs w dirs) (offered dirs)
  unfolding read_data_dirs
  dirs-Adds [] = Adds-none
  dirs-Adds (dir ∷ dirs) = Adds-both _ _ _ _ (directory-Adds _) (dirs-Adds dirs)

  -- In the table that the daemon keeps, a name has the first interface of that name, in the order
  -- of the data directories, of the names in each and of the interfaces in each file, that has no
  -- method, no signal and the vendor's annotation, among the files that are links to their own
  -- name below ../../dbus-1/interfaces/, can be read and are well-formed; it has none if there is
  -- no such interface.
  pub find_iface-daemon_read_extension_ifaces :
      (data_dirs : List Bytes) (name : Bytes)
      → find_iface name (daemon_read_extension_ifaces w data_dirs)
        ≡ first_acceptable name (offered data_dirs)
  unfolding daemon_read_extension_ifaces find_iface
  find_iface-daemon_read_extension_ifaces data_dirs name = dirs-Adds data_dirs name []
