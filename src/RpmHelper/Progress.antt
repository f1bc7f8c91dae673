-- ===== src/RpmHelper/Progress.antt =====
-- `rpmShowProgress` of daemon/rpm-helper.c, the callback of librpm, with the statics that it keeps.
-- Ratios of floats are exact here.
use isoft_package_installer.Base.{
  ◌==◌, if◌then◌else◌, Bytes, ℕ, Bool, true, false, ◌&&◌, Option, none, some, List, [], ◌∷◌, ◌++◌,
}
use isoft_package_installer.Daemon.{Percent, Callback, progress}

-- `rpmCallbackType`, with one name for the kinds that the code passes over.
pub data What : Type 0 where
  inst_open_file inst_close_file inst_start uninst_start : What
  trans_progress inst_progress uninst_progress trans_start trans_stop : What
  another : What

-- One call of the callback; the header is only printed.
pub record Notice : Type 0 where
  pub what : What
  pub amount : ℕ
  pub total : ℕ
  pub key : Option Bytes

-- The statics of the file, `fd` as whether it is open. `progress_state` is 0 at first.
pub record Statics : Type 0 where
  pub progress_state : Option What
  pub packages_total : ℕ
  pub hashes_current : ℕ
  pub progress_current : ℕ
  pub progress_total : ℕ
  pub fd_is_open : Bool

abbrev pub statics_init : Statics
statics_init = record {
  progress_state = none;
  packages_total = 0;
  hashes_current = 0;
  progress_current = 0;
  progress_total = 0;
  fd_is_open = false;
}

-- `total ? amount / total : 100.0`
unfoldable pub ratio : ℕ → ℕ → Percent
ratio amount total =
    if total == 0 then record { num = 100; den = 1 } else record { num = amount; den = total }

abbrev pub is_named : Option Bytes → Bool
is_named none = false
is_named (some []) = false
is_named (some (c ∷ s)) = true

abbrev pub can_open : (Bytes → Bool) → Option Bytes → Bool
can_open fopen none = false
can_open fopen (some f) = fopen f

-- Opening an empty name leaves `fd` as it was; `fopen` says whether a file opens without an error.
unfoldable pub open_file : (Bytes → Bool) → Option Bytes → Statics → Statics
open_file fopen key s = if is_named key then record s { fd_is_open = can_open fopen key } else s

-- The statics after a call.
unfoldable pub next_statics : (Bytes → Bool) → Notice → Statics → Statics
unfolding open_file
next_statics fopen n s = elim n.what [
  | inst_open_file ↦ open_file fopen n.key s
  | inst_close_file ↦ record s { fd_is_open = false }
  | inst_start ↦ record s { progress_state = some inst_start; hashes_current = 0 }
  | uninst_start ↦ record s { progress_state = some uninst_start; hashes_current = 0 }
  | trans_start ↦ record s {
    hashes_current = 0;
    progress_total = 1;
    progress_current = 0;
    packages_total = n.total;
    progress_state = some trans_start;
  }
  | trans_stop ↦ record s { progress_total = s.packages_total; progress_current = 0 }
  | trans_progress ↦ s
  | inst_progress ↦ s
  | uninst_progress ↦ s
  | another ↦ s
]

abbrev pub is_progress : What → Bool
is_progress trans_progress = true
is_progress inst_progress = true
is_progress uninst_progress = true
is_progress w = false

abbrev is_open_file : What → Bool
is_open_file inst_open_file = true
is_open_file w = false

-- `rpmShowProgress`: whether it returns a file, the statics, and the calls of `m_progress_handler`.
unfoldable pub rpm_show_progress :
    (Bytes → Bool) → Bool → Notice → Statics → Bool × (Statics × List Callback)
unfolding next_statics ratio
rpm_show_progress fopen install_percent n s =
    let after = next_statics fopen n s in
    let opened : Bool = is_open_file n.what && (is_named n.key && can_open fopen n.key) in
    let told : List Callback =
      if is_progress n.what && install_percent
      then progress (ratio n.amount n.total) n.key ∷ []
      else [] in
    (opened, (after, told))

-- The calls of a transaction in order.
unfoldable pub notified : (Bytes → Bool) → Bool → List Notice → Statics → Statics × List Callback
unfolding rpm_show_progress
notified fopen install_percent [] s = (s, [])
notified fopen install_percent (n ∷ ns) s =
    let one = rpm_show_progress fopen install_percent n s in
    let rest = notified fopen install_percent ns (one.1.0) in (rest.0, one.1.1 ++ rest.1)
