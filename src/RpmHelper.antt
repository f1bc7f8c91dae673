-- ===== src/RpmHelper.antt =====
-- `install_rpm` of daemon/rpm-helper.c.
pub mod Progress
pub mod Installing
use isoft_package_installer.RpmHelper.Progress.{Notice, Statics, notified}
use isoft_package_installer.Base.{
  ltb, ◌==◌, if◌then◌else◌, Bytes, codes, length, set, ℕ, Bool, true, not, ◌&&◌, ◌||◌, Option, none,
  some, List, [], ◌∷◌, ◌++◌,
}
use isoft_package_installer.Daemon.{Callback, rpm_problem}

abbrev prepend : ℕ → Option Bytes → Option Bytes
prepend c none = none
prepend c (some s) = some (c ∷ s)

-- What `snprintf (buffer, SIZE_MAX, text)` writes, where the text is the format and there are no
-- arguments: `none` at a conversion, which reads an argument that is not there.
unfoldable pub print_format : Bytes → Option Bytes
print_format [] = some []
print_format (c ∷ []) = if c == b'%' then none else some (c ∷ [])
print_format (c ∷ d ∷ s) =
    let behind = print_format s in
    let here = print_format (d ∷ s) in
    if c == b'%' then (if d == b'%' then prepend b'%' behind else none) else prepend c here

-- `argv[i]`, a buffer of PATH_MAX bytes for which `strlen (argv[i]) - 1` is SIZE_MAX.
unfoldable pub fill : ℕ → Bytes → Option Bytes
unfolding print_format
fill path_max s = elim (print_format s) [
  | none ↦ none
  | some t ↦ if ltb (length t) path_max then some t else none
]

unfoldable pub fill_all : ℕ → List Bytes → Option (List Bytes)
unfolding fill
fill_all path_max [] = some []
fill_all path_max (s ∷ ss) =
    let others = fill_all path_max ss in
    elim (fill path_max s) [
      | none ↦ none
      | some t ↦ elim others [ none ↦ none | some ts ↦ some (t ∷ ts) ]
    ]

-- `struct rpmInstallArguments_s` as far as the code reads and writes it. A relocation is a pair of
-- an old and a new path.
pub record Arguments : Type 0 where
  pub incldocs : Bool
  pub no_deps : Bool
  pub prefix : Option Bytes
  pub relocations : Option (List (Option Bytes × Option Bytes))
  pub flag_nodocs : Bool
  pub flag_nodeps : Bool
  pub flag_percent : Bool

-- librpm and the machine: the arguments and the options after `rpmcliInit` of `argv`, whether the
-- allocations succeed, `%{_excludedocs}`, and of `rpmInstallISoftApp` the calls of the callback and
-- the text of the problem.
pub record Rpmcli : Type 0 where
  pub path_max : ℕ
  pub argv_allocated : Bool
  pub get_args : List Bytes → List Bytes
  pub options : List Bytes → Arguments
  pub ts_created : Bool
  pub memory_allocated : Bool
  pub excludedocs : Bool
  pub fopen : Bytes → Bool
  pub notices : Arguments → List Bytes → List Notice
  pub problem : Arguments → List Bytes → Bytes

-- `ia` before the call of `rpmInstallISoftApp`.
unfoldable pub set_arguments : Bool → Arguments → Arguments
set_arguments excludedocs ia = record ia {
  flag_percent = true;
  flag_nodocs = ia.flag_nodocs || (not ia.incldocs && excludedocs);
  flag_nodeps = ia.no_deps;
  relocations = elim ia.prefix [
    | some p ↦ some ((none, some p) ∷ (none, none) ∷ [])
    | none ↦ elim ia.relocations [ none ↦ none | some l ↦ some (l ++ ((none, none) ∷ [])) ]
  ];
}

-- What `install_rpm` does: it does nothing, it is undefined, or it makes these callbacks, after
-- which the statics are these. The second part is what is handed to `rpmInstallISoftApp`.
pub data Ran : Type 0 where
  idle : Ran
  undefined : Ran
  ran : List Callback → Option (Arguments × List Bytes) → Statics → Ran

abbrev problems : Bytes → List Callback
problems [] = []
problems (c ∷ s) = rpm_problem (c ∷ s) ∷ []

-- The part behind `rpmcliInit`.
unfoldable pub transact : Rpmcli → Arguments → List Bytes → Statics → Ran
unfolding set_arguments notified
transact k ia args s =
    let set = set_arguments k.excludedocs ia in
    let told = notified k.fopen set.flag_percent (k.notices set args) s in
    if not k.ts_created
    then ran (rpm_problem (codes "ERROR: failed to create rpm ts") ∷ []) none s
    else if not k.memory_allocated
    then ran (rpm_problem (codes "ERROR: failed to allocate memory") ∷ []) none s
    else ran (told.1 ++ problems (k.problem set args)) (some (set, args)) (told.0)

-- The part behind the filling of `argv`.
unfoldable pub with_argv : Rpmcli → Statics → Option (List Bytes) → Ran
unfolding transact
with_argv k s none = undefined
with_argv k s (some argv) = transact k (k.options argv) (k.get_args argv) s

-- `install_rpm`, whose three other arguments the daemon always gives. The place in the source that
-- the messages name is left out.
unfoldable pub install_rpm : Rpmcli → List Bytes → Statics → Ran
unfolding fill_all with_argv
install_rpm k [] s = idle
install_rpm k (f ∷ fs) s =
    if not k.argv_allocated
    then ran (rpm_problem (codes "ERROR: failed to allocate memory") ∷ []) none s
    else with_argv k s (fill_all k.path_max (codes "install_rpm" ∷ f ∷ fs))
