-- ===== src/Daemon/Lifecycle.antt =====
-- daemon/daemon.c around the methods: the object on the bus, its properties and its errors.
use isoft_package_installer.Base.{
  ◌==◌, if◌then◌else◌, Bytes, codes, length, ℕ, ◌+◌, ◌-◌, ◌≡◌, refl, ◌↔◌, Bool, true, false, not,
  Option, none, some, List, [], ◌∷◌, ◌&&◌, ◌++◌,
}

-- `enum Error` of daemon/daemon.h
pub data Error : Type 0 where
  error_failed error_permission_denied error_not_supported error_task_locked : Error

abbrev pub error_code : Error → ℕ
error_code error_failed = 0
error_code error_permission_denied = 1
error_code error_not_supported = 2
error_code error_task_locked = 3

-- `NUM_ERRORS`
abbrev pub num_errors : ℕ
num_errors = 4

abbrev pub install_error_entries : List (ℕ × Bytes)
install_error_entries =
    (error_code error_failed, codes "org.isoftlinux.Install.Error.Failed")
    ∷ (error_code error_permission_denied, codes "org.isoftlinux.Install.Error.PermissionDenied")
    ∷ (error_code error_not_supported, codes "org.isoftlinux.Install.Error.NotSupported")
    ∷ []

-- The name on the bus that `error_quark` registers for a code, by GLib's table.
unfoldable pub dbus_name : List (ℕ × Bytes) → ℕ → Option Bytes
dbus_name [] code = none
dbus_name ((c, n) ∷ l) code = if c == code then some n else dbus_name l code

-- `values` of `error_get_type`, with the entry that ends the table.
abbrev pub error_values : List (ℕ × Bytes)
error_values =
    (error_code error_failed, codes "ERROR_FAILED")
    ∷ (error_code error_permission_denied, codes "ERROR_PERMISSION_DENIED")
    ∷ (error_code error_not_supported, codes "ERROR_NOT_SUPPORTED")
    ∷ (0, [])
    ∷ []

-- `error_get_type`, from the static `etype` and the number that GLib would give to the type; `none`
-- is the end of the process by `g_assert`.
unfoldable pub error_get_type : ℕ → ℕ → Option ℕ
error_get_type etype registered =
    if etype == 0
    then (if num_errors == length error_values - 1 then some registered else none)
    else some etype

-- What the bus lets happen: the connection is given, and the interface can be exported; and the
-- message of the error that GLib sets where one of them fails.
pub record Bus : Type 0 where
  pub connects : Bool
  pub exports : Bool
  pub failure : Option Bytes

-- The process on the bus: the references to the connection that it holds, and whether the object
-- is exported.
pub record Process : Type 0 where
  pub references : ℕ
  pub exported : Bool

-- `priv->bus_connection` of the new object, as whether it is set.
abbrev pub Connected : Type 0
Connected = Bool

-- `daemon_finalize`
unfoldable pub daemon_finalize : Connected → Process → Process
daemon_finalize true p = record p { references = p.references - 1 }
daemon_finalize false p = p

unfoldable pub register_install_daemon : Bus → Process → Bool × (Connected × Process)
register_install_daemon b p =
    let held : Process = record p { references = p.references + 1 } in
    if not b.connects
    then (false, (false, p))
    else if not b.exports
    then (false, (true, held))
    else (true, (true, record held { exported = true }))

-- The lines that `register_install_daemon` gives to `write_log`, with LOG_CRIT.
unfoldable pub register_lines : Bus → List Bytes
register_lines b = if b.connects && b.exports then [] else elim b.failure [
  | none ↦ []
  | some message ↦
      let said =
        if b.connects
        then codes "error exporting interface: "
        else codes "error getting system bus: " in
      (said ++ message) ∷ []
]

-- `daemon_new`: whether it returns the object. The last reference to it is dropped on failure.
unfoldable pub daemon_new : Bus → Process → Bool × Process
unfolding register_install_daemon daemon_finalize
daemon_new b p =
    let r = register_install_daemon b p in
    if not r.0 then (false, daemon_finalize (r.1.0) (r.1.1)) else (true, r.1.1)

-- The property of the object, and any other number.
pub data PropId : Type 0 where
  prop_daemon_version : PropId
  prop_other : ℕ → PropId

-- A value is set, a warning is printed, or the process ends.
pub data Answered : Type 0 where
  is_set : Bytes → Answered
  warned : Answered
  aborted : Answered

-- `project_version` is the macro of the build.
unfoldable pub daemon_get_property : Bytes → PropId → Answered
daemon_get_property project_version prop_daemon_version = is_set project_version
daemon_get_property project_version (prop_other n) = warned

unfoldable pub daemon_set_property : PropId → Answered
daemon_set_property prop_daemon_version = aborted
daemon_set_property (prop_other n) = warned

-- `daemon_get_daemon_version`
unfoldable pub daemon_get_daemon_version : Bytes → Bytes
daemon_get_daemon_version project_version = project_version

error_code-dbus_name :
    (e : Error) → (dbus_name install_error_entries (error_code e) ≡ none) ↔ (e ≡ error_task_locked)
unfolding dbus_name
error_code-dbus_name error_failed = (λ h. cc, λ h. cc)
error_code-dbus_name error_permission_denied = (λ h. cc, λ h. cc)
error_code-dbus_name error_not_supported = (λ h. cc, λ h. cc)
error_code-dbus_name error_task_locked = (λ h. refl, λ h. refl)

-- The type of the errors cannot be made: its first use ends the process, whatever GLib would give,
-- since the table has no entry for the error that says that a task is locked. Nor has that error a
-- name on the bus, while all others have one.
error_get_type-dbus_name :
    ((registered : ℕ) → error_get_type 0 registered ≡ none)
    × ((e : Error)
        → (dbus_name install_error_entries (error_code e) ≡ none) ↔ (e ≡ error_task_locked))
unfolding error_get_type dbus_name
error_get_type-dbus_name = (λ r. refl, error_code-dbus_name)
