-- ===== src/Daemon/Origin.antt =====
-- Where the files come from that the routines of daemon/daemon.c work on.
pub mod Kept
pub mod Runs
use mathlib.Core.List.{Memᴰ}
use isoft_package_installer.Base.{
  if◌then◌else◌, Bytes, bytes_eq, set, All, ℕ, zero, suc, refl, not, ◌||◌, Option, none, some, List,
  [], ◌∷◌, ◌++◌,
}
use isoft_package_installer.Daemon.{
  is_one, Thread, deb_running, rpm_running, Daemon, is_empty, rpm_type, deb_type, source_rpm_type,
  converted, Event, add_install, calls,
}

-- The package that an event brings: by a call of AddInstall, or by the callback of a conversion that
-- is complete.
abbrev pub rpms_at : (Bytes → Bytes) → Event → List Bytes
rpms_at guess (add_install file) =
    if bytes_eq (guess file) rpm_type || bytes_eq (guess file) source_rpm_type
    then file ∷ []
    else []
rpms_at guess (calls i (converted p file)) =
    if not (is_one p) || is_empty file then [] else file ∷ []
rpms_at guess e = []

abbrev pub debs_at : (Bytes → Bytes) → Event → List Bytes
debs_at guess (add_install file) = if bytes_eq (guess file) deb_type then file ∷ [] else []
debs_at guess e = []

abbrev pub all_rpms : (Bytes → Bytes) → List Event → List Bytes
all_rpms guess [] = []
all_rpms guess (e ∷ es) = rpms_at guess e ++ all_rpms guess es

abbrev pub all_debs : (Bytes → Bytes) → List Event → List Bytes
all_debs guess [] = []
all_debs guess (e ∷ es) = debs_at guess e ++ all_debs guess es

abbrev pub HasDeb : (Bytes → Type 0) → Option Bytes → Type 0
HasDeb Q none = Unit
HasDeb Q (some file) = Q file

-- What a thread has read.
abbrev pub HasRead : (Bytes → Type 0) → (Bytes → Type 0) → Thread → Type 0
HasRead P Q (rpm_running files) = All P files
HasRead P Q (deb_running file) = HasDeb Q file
HasRead P Q t = Unit

-- Every package that waits or is being installed has the one property, and every .deb file that
-- waits or is being converted the other.
pub record IsFrom (P Q : Bytes → Type 0) (d : Daemon) : Type 0 where
  pub listed : All P d.rpm_list
  pub waiting : HasDeb Q d.deb
  pub working : All (HasRead P Q) d.threads

pub All-parts :
    {A : Type 0} (P : A → Type 0) (xs ys : List A) → All P (xs ++ ys) → All P xs × All P ys
All-parts P [] ys h = (tt, h)
All-parts P (x ∷ xs) ys h = let (k, l) = All-parts P xs ys h.1 in ((h.0, k), l)

pub All-set :
    {A : Type 0} (P : A → Type 0) (xs : List A) (i : ℕ) (v : A)
    → All P xs
    → P v
    → All P (set xs i v)
All-set P [] i v h k = tt
All-set P (x ∷ xs) zero v h k = (k, h.1)
All-set P (x ∷ xs) (suc i) v h k = (h.0, All-set P xs i v h.1 k)

pub All_if_each :
    (xs : List Bytes) (P : Bytes → Type 0) → ((x : Bytes) → Memᴰ x xs → P x) → All P xs
All_if_each [] P h = tt
All_if_each (x ∷ xs) P h = (h x (Memᴰ.head refl), All_if_each xs P (λ y m. h y (Memᴰ.tail m)))
