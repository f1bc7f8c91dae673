-- ===== src/DebHelper/Tree.antt =====
-- `traverse_directory` of daemon/deb-helper.c, and the removal of the control files before it.
-- What `g_file_test` and `g_dir_read_name` show of a directory: each name with a directory, a
-- directory that cannot be opened, a regular file or something else.
use isoft_package_installer.Base.{
  if◌then◌else◌, Bytes, codes, bytes_eq, length, take, drop, ℕ, ◌-◌, List, [], ◌∷◌, ◌++◌, ltb, All,
  ◌≤◌, ◌≡◌, true,
}
use isoft_package_installer.AppPkg.Additions.{app_pkg_add_filelist}
use isoft_package_installer.Rpm.{Rpm}
use isoft_package_installer.AppPkg.{AppPkg}

mutual
  pub data Node : Type 0 where
    directory : Entries → Node
    closed : Node
    regular : Node
    other : Node

  pub data Entries : Type 0 where
    end : Entries
    entry : Bytes → Node → Entries → Entries

-- `g_utf8_substring`, which counts characters and is a parameter. Where the call is undefined, it
-- stands for whatever comes out.
abbrev pub Substring : Type 0
Substring = Bytes → ℕ → ℕ → Bytes

abbrev pub IsAscii : Bytes → Type 0
IsAscii = All (λ c. ltb c 128 ≡ true)

-- What GLib documents, for texts whose characters are single bytes.
abbrev pub IsSubstring : Substring → Type 0
IsSubstring sub =
    (s : Bytes) (from to : ℕ)
    → IsAscii s
    → from ≤ to
    → to ≤ length s
    → sub s from to ≡ take (to - from) (drop from s)

-- `"%s/%s"`
abbrev pub join : Bytes → Bytes → Bytes
join path file = path ++ (b'/' ∷ file)

module _ (R : Rpm) (sub : Substring) (m_buildroot : Bytes) where
  unfoldable mutual
    -- One round of the loop, at an entry with this path.
    pub visit : Bytes → Node → AppPkg R → AppPkg R
    visit newpath (directory es) a = traverse_directory newpath es a
    visit newpath closed a = a
    visit newpath regular a =
        app_pkg_add_filelist R a (sub newpath (length m_buildroot) (length newpath))
    visit newpath other a = a

    pub traverse_directory : Bytes → Entries → AppPkg R → AppPkg R
    traverse_directory path end a = a
    traverse_directory path (entry file n es) a =
        traverse_directory path es (visit (join path file) n a)

-- `m_dirtyfiles`
abbrev pub dirtyfiles : List Bytes
dirtyfiles =
    codes "conffiles"
    ∷ codes "control"
    ∷ codes "md5sums"
    ∷ codes "postinst"
    ∷ codes "postrm"
    ∷ codes "preinst"
    ∷ codes "prerm"
    ∷ []

-- `unlink` of a file of the directory: a directory stays.
unfoldable pub unlink : Bytes → Entries → Entries
unlink name end = end
unlink name (entry file (directory es) rest) = entry file (directory es) (unlink name rest)
unlink name (entry file closed rest) = entry file closed (unlink name rest)
unlink name (entry file n rest) =
    let others = unlink name rest in if bytes_eq file name then others else entry file n others

unfoldable pub unlink_all : List Bytes → Entries → Entries
unfolding unlink
unlink_all [] es = es
unlink_all (name ∷ names) es = unlink_all names (unlink name es)
