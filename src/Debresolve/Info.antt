-- ===== src/Debresolve/Info.antt =====
-- `deb_info` of daemon/debresolve.c. libdpkg is a parameter: the control file of a directory, which
-- is unpacked first where it is missing, and what is printed of a field.
use isoft_package_installer.Base.{if◌then◌else◌, Bytes, Bool, Option, none, some, []}

pub record Dpkg : Type 1 where
  pub Control : Type 0
  pub open_control : Bytes → Option Control
  pub is_known_field : Bytes → Bool
  pub print_field : Control → Bytes → Bytes
  pub print_arbitrary_field : Control → Bytes → Option Bytes

-- What the call leaves in the caller's buffer, or `none` where it returns -1 and leaves it alone.
unfoldable pub deb_info : (k : Dpkg) → Bytes → Bytes → Option Bytes
deb_info k dir name = elim (k.open_control dir) [
  | none ↦ none
  | some c ↦ some (
      if k.is_known_field name
      then k.print_field c name
      else elim (k.print_arbitrary_field c name) [ none ↦ [] | some text ↦ text ])
]
