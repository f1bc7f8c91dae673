-- ===== src/DebHelper.antt =====
-- `install_deb` of daemon/deb-helper.c: a .deb file is unpacked, described, and written as an RPM.
pub mod Tree
pub mod WrittenPath
pub mod Callbacks
pub mod Pipeline
pub mod Description
pub mod Files
use isoft_package_installer.DebHelper.Tree.{
  Entries, Substring, unlink_all, dirtyfiles, traverse_directory,
}
use isoft_package_installer.AppPkg.Write.{crashed, returned}
use isoft_package_installer.Base.{
  ltb, ◌==◌, if◌then◌else◌, Bytes, codes, strstr, length, take, ℕ, ◌-◌, Bool, true, false, not,
  Option, none, some, List, [], ◌∷◌, ◌++◌,
}
use isoft_package_installer.Package.{Package}
use isoft_package_installer.Daemon.{Callback, converted, deb_problem}
use isoft_package_installer.AppPkg.Write.{Build, crashed, app_pkg_write}
use isoft_package_installer.Rpm.{Rpm}
use isoft_package_installer.Debresolve.Info.{Dpkg, deb_info}
use isoft_package_installer.AppPkg.{
  AppPkg, app_pkg_new, app_pkg_set_name, app_pkg_set_version, app_pkg_set_release, app_pkg_set_arch,
  app_pkg_set_url, app_pkg_set_group, app_pkg_set_summary, app_pkg_set_packager,
  app_pkg_set_description,
}

-- The code goes on, jumps to the label `exit`, or is undefined from here.
pub data Stage {ℓ} (A : Type ℓ) : Type ℓ where
  go : A → Stage A
  quit : Stage A
  crash : Stage A

infixl 5 ◌>>=◌
abbrev pub ◌>>=◌ {ℓ κ} : {A : Type ℓ} {B : Type κ} → Stage A → (A → Stage B) → Stage B
go a >>= f = f a
quit >>= f = quit
crash >>= f = crash

-- What the two `tmpnam (NULL)` give, whether `malloc` succeeds, what the directory holds after
-- `deb_extract` and `deb_control`, whose results are not looked at, and GLib's `g_utf8_substring`.
pub record Machine : Type 0 where
  pub tmpnam_first : Option Bytes
  pub tmpnam_second : Option Bytes
  pub malloc_works : Bool
  pub unpacked : Bytes → Entries
  pub g_utf8_substring : Substring
  pub path_max : ℕ

-- Both calls of `tmpnam` return the address of one static buffer, so `m_buildroot` and `meta` read
-- what the second has written.
unfoldable pub directory_name : Machine → Option Bytes
directory_name m = elim m.tmpnam_first [
  | none ↦ none
  | some first ↦ elim m.tmpnam_second [ none ↦ none | some second ↦ some second ]
]

-- The buffers `v1`, `v2` and `v3` have 256 bytes, and `strcpy` does not look.
abbrev into_buffer : Bytes → Stage Bytes
into_buffer text = if ltb (length text) 256 then go text else crash

-- `if (deb_info (...) == -1) goto exit;`
unfoldable pub required_info : Dpkg → Bytes → Bytes → Stage Bytes
required_info k dir name = elim (deb_info k dir name) [ none ↦ quit | some t ↦ into_buffer t ]

-- `deb_info (...);`, where the buffer keeps its text if the call fails.
unfoldable pub optional_info : Dpkg → Bytes → Bytes → Bytes → Stage Bytes
optional_info k dir name old = elim (deb_info k dir name) [ none ↦ go old | some t ↦ into_buffer t ]

-- `g_utf8_substring (v, from, strlen (v) - 1)`, which is undefined where the text is shorter.
unfoldable pub value_of : Substring → ℕ → Bytes → Stage Bytes
value_of sub from v = if ltb from (length v) then go (sub v from (length v - 1)) else crash

-- `*p = '\0'` at the first newline: the text before it and the text behind it.
unfoldable pub cut_line : Bytes → Stage (Bytes × Bytes)
cut_line [] = crash
cut_line (c ∷ s) =
    let rest : Stage (Bytes × Bytes) = (do t ← cut_line s; go (c ∷ t.0, t.1)) in
    if c == b'\n' then go ([], s) else rest

-- `strstr (v3, "amd64")`
unfoldable pub is_amd64 : Bytes → Bool
is_amd64 v3 = elim (strstr (codes "amd64") v3) [ none ↦ false | some i ↦ true ]

pub record Identity : Type 0 where
  pub deb_package : Bytes
  pub version : Bytes
  pub arch : Bytes
  pub v1 : Bytes
  pub v3 : Bytes

unfoldable pub read_identity : Substring → Dpkg → Bytes → Stage Identity
unfolding required_info value_of
read_identity sub k meta = do
  v1 ← required_info k meta (codes "Package")
  name ← value_of sub 9 v1
  v2 ← required_info k meta (codes "Version")
  version ← value_of sub 9 v2
  v3 ← required_info k meta (codes "Architecture")
  arch ← value_of sub 14 v3
  go (record { deb_package = name; version = version; arch = arch; v1 = v1; v3 = v3 })

module _ (R : Rpm) where
  unfoldable pub start_package : Identity → AppPkg R
  start_package i =
      let a =
        app_pkg_set_release R
          (app_pkg_set_version R (app_pkg_set_name R (app_pkg_new R) i.deb_package) i.version)
          (codes "1") in
      if is_amd64 i.v3 then app_pkg_set_arch R a (codes "x86_64") else app_pkg_set_arch R a i.arch

  unfoldable pub describe : Dpkg → Bytes → Identity → Stage (AppPkg R)
  unfolding start_package optional_info cut_line
  describe k meta i = do
    homepage ← optional_info k meta (codes "Homepage") i.v1
    section ← optional_info k meta (codes "Section") homepage
    text ← optional_info k meta (codes "Description") section
    lines ← cut_line text
    go (
        app_pkg_set_packager R
          (app_pkg_set_description R
            (app_pkg_set_summary R
              (app_pkg_set_group R (app_pkg_set_url R (start_package i) homepage) section) lines.0)
            lines.1)
          (codes "isoft-packager"))

  -- `snprintf (out, sizeof (out) - 1, "%s.rpm", deb)`
  abbrev pub out_path : Machine → Bytes → Bytes
  out_path m deb = take (m.path_max - 2) (deb ++ codes ".rpm")

  -- From the removal of the control files to `app_pkg_write`, whose code is not looked at.
  unfoldable pub pack :
      Build R → Machine → Bytes → Bytes → AppPkg R → Stage (List (Package R × Bytes))
  unfolding unlink_all traverse_directory
  pack B m root deb a =
      let files = unlink_all dirtyfiles (m.unpacked root) in
      elim (app_pkg_write R B (traverse_directory R m.g_utf8_substring root root files a) root
        (out_path m deb)) [ crashed ↦ crash | returned rc b written ↦ go written ]

abbrev pub at_tenths : ℕ → Bytes → Callback
at_tenths n out = converted (record { num = n; den = 10 }) out

abbrev pub no_directory_message : Bytes
no_directory_message = codes "ERROR: failed to create temporary directory"

abbrev pub no_memory_message : Bytes
no_memory_message = codes "ERROR: failed to allocate memory"

module _ (R : Rpm) (B : Build R) where
  -- The callbacks in order, and the packages that were written.
  unfoldable pub install_deb :
      Dpkg → Machine → Bytes → List Callback × Stage (List (Package R × Bytes))
  unfolding directory_name read_identity describe pack
  install_deb k m deb = elim (directory_name m) [
    | none ↦ (deb_problem no_directory_message ∷ [], quit)
    | some root ↦
        let early = at_tenths 2 [] ∷ at_tenths 4 [] ∷ [] in
        if not m.malloc_works
        then (early ++ (deb_problem no_memory_message ∷ []), quit)
        else elim (read_identity m.g_utf8_substring k root >>= describe R k root) [
          | quit ↦ (early, quit)
          | crash ↦ (early, crash)
          | go a ↦
              let described = early ++ (at_tenths 6 [] ∷ []) in
              elim (pack R B m root deb a) [
                | quit ↦ (described, quit)
                | crash ↦ (described, crash)
                | go written ↦ (
                  described
                      ++ (at_tenths 8 (out_path R m deb) ∷ at_tenths 10 (out_path R m deb) ∷ []),
                  go written,
                )
              ]
        ]
  ]
