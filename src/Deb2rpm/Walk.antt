-- ===== src/Deb2rpm/Walk.antt =====
-- `traverse_directory` and `m_dirtyfiles` of tools/deb2rpm.c, over the directories of DebHelper.Tree.
use isoft_package_installer.DebHelper.Tree.{
  Node, directory, closed, regular, other, Entries, end, entry, Substring, join, visit,
  traverse_directory,
}
use isoft_package_installer.Base.{Bytes, codes, length, ◌≡◌, refl, ap, ◌∙◌, List, [], ◌∷◌}
use isoft_package_installer.AppPkg.Additions.{app_pkg_add_filelist}
use isoft_package_installer.Rpm.{Rpm}
use isoft_package_installer.AppPkg.{AppPkg}

-- `m_dirtyfiles`
abbrev pub tool_dirtyfiles : List Bytes
tool_dirtyfiles =
    codes "conffiles"
    ∷ codes "control"
    ∷ codes "md5sums"
    ∷ codes "postinst"
    ∷ codes "postrm"
    ∷ codes "preinst"
    ∷ codes "prerm"
    ∷ []

module _ (R : Rpm) (sub : Substring) (m_buildroot : Bytes) where
  unfoldable mutual
    pub add_node : Bytes → Node → AppPkg R → AppPkg R
    add_node newpath (directory es) m_apkg = add_files newpath es m_apkg
    add_node newpath closed m_apkg = m_apkg
    add_node newpath regular m_apkg =
        app_pkg_add_filelist R m_apkg (sub newpath (length m_buildroot) (length newpath))
    add_node newpath other m_apkg = m_apkg

    -- `traverse_directory` of the command.
    pub add_files : Bytes → Entries → AppPkg R → AppPkg R
    add_files path end m_apkg = m_apkg
    add_files path (entry file n es) m_apkg = add_files path es (add_node (join path file) n m_apkg)

  mutual
    unfolding add_node visit

    add_node-visit :
        (path : Bytes) (n : Node) (a : AppPkg R)
        → add_node path n a ≡ visit R sub m_buildroot path n a
    add_node-visit path (directory es) a = add_files-traverse_directory path es a
    add_node-visit path closed a = refl
    add_node-visit path regular a = refl
    add_node-visit path other a = refl

    pub add_files-traverse_directory :
        (path : Bytes) (es : Entries) (a : AppPkg R)
        → add_files path es a ≡ traverse_directory R sub m_buildroot path es a
    add_files-traverse_directory path end a = refl
    add_files-traverse_directory path (entry file n es) a =
        add_files-traverse_directory path es (add_node (join path file) n a)
        ∙ ap (traverse_directory R sub m_buildroot path es) (add_node-visit (join path file) n a)
