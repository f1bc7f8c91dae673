-- ===== src/Tests/ExtensionRuns.antt =====
-- The walk of daemon/extensions.c over two data directories.
use isoft_package_installer.Extensions.Tables.{first_acceptable}
use isoft_package_installer.Base.{
  if◌then◌else◌, Bytes, codes, bytes_eq, starts_with, String, ◌≡◌, refl, some, List, [], ◌∷◌, ◌++◌,
}
use isoft_package_installer.Extensions.Precedence.{offered, find_iface-daemon_read_extension_ifaces}
use isoft_package_installer.Extensions.{
  Interface, find_iface, vendor_extension, World, daemon_read_extension_ifaces,
}

abbrev offer : String → List Bytes → Interface
offer marker methods = record {
  name = codes "org.vendor.A";
  methods = methods;
  signals = [];
  annotations = codes marker ∷ vendor_extension ∷ [];
}

-- The first directory has a link elsewhere, then one to a file with a method and one without.
abbrev world : World
world = record {
  get_contents = λ f. some f;
  node_info = λ c. some (
      if bytes_eq c (codes "/u/isoftinstall/interfaces/a.xml")
      then offer "first" (codes "M" ∷ []) ∷ offer "second" [] ∷ []
      else offer "third" [] ∷ []);
  open_dir = λ d. some (codes "x.xml" ∷ codes "a.xml" ∷ []);
  read_link = λ f.
      if bytes_eq f (codes "/u/isoftinstall/interfaces/x.xml")
      then some (codes "/tmp/x.xml")
      else some (codes "../../dbus-1/interfaces/a.xml");
  build_filename = λ a b. a ++ (codes "/" ++ b);
}

abbrev dirs : List Bytes
dirs = codes "/u" ∷ codes "/v" ∷ []

second_wins :
    daemon_read_extension_ifaces world dirs ≡ (codes "org.vendor.A", offer "second" []) ∷ []
unfolding daemon_read_extension_ifaces bytes_eq starts_with
second_wins = refl

find_iface-daemon_read_extension_ifaces_example :
    find_iface (codes "org.vendor.A") (daemon_read_extension_ifaces world dirs)
    ≡ first_acceptable (codes "org.vendor.A") (offered world dirs)
find_iface-daemon_read_extension_ifaces_example =
    find_iface-daemon_read_extension_ifaces world dirs (codes "org.vendor.A")
