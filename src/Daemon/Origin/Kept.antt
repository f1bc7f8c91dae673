-- ===== src/Daemon/Origin/Kept.antt =====
-- Each event of daemon/daemon.c keeps the origin of the files.
use isoft_package_installer.Base.{
  if◌then◌else◌, Bytes, bytes_eq, get_elem?, set, All, All-append, ℕ, ◌≡◌, refl, Bool, true, false,
  not, ◌||◌, none, some, [], ◌∷◌, ◌++◌,
}
use isoft_package_installer.Daemon.{
  deb2rpm, is_one, percent_changed, error, Thread, deb_started, deb_running, deb_gone, rpm_started,
  rpm_running, rpm_cleared, rpm_announced, rpm_gone, Daemon, is_empty, task_locked_message,
  src_rpm_note, rpm_type, deb_type, source_rpm_type, add_install_as, is_null, daemon_install,
  routine_step, Callback, progress, rpm_problem, converted, deb_problem, call_back, Event,
  add_install, install, advance, calls, step,
}
use isoft_package_installer.Daemon.Weights.{at_thread}
use isoft_package_installer.Daemon.Origin.{rpms_at, debs_at, HasRead, IsFrom, All-set}

module _ (P Q : Bytes → Type 0) where
  -- One more package, or one more thread that has read nothing.
  listed-one :
      (d : Daemon) (file : Bytes) → IsFrom P Q d → P file → All P (d.rpm_list ++ (file ∷ []))
  listed-one d file v h = All-append P d.rpm_list (file ∷ []) v.listed (h, tt)

  threads-one :
      (d : Daemon) (t : Thread)
      → IsFrom P Q d
      → HasRead P Q t
      → All (HasRead P Q) (d.threads ++ (t ∷ []))
  threads-one d t v h = All-append (HasRead P Q) d.threads (t ∷ []) v.working (h, tt)

  IsFrom-if :
      (b : Bool) (x y : Daemon)
      → (b ≡ true → IsFrom P Q x)
      → (b ≡ false → IsFrom P Q y)
      → IsFrom P Q (if b then x else y)
  IsFrom-if true x y h k = h refl
  IsFrom-if false x y h k = k refl

  daemon_install-IsFrom : (d : Daemon) → IsFrom P Q d → IsFrom P Q (daemon_install d)
  unfolding daemon_install
  daemon_install-IsFrom d v =
      IsFrom-if d.task_locked _ _
        (λ e. record { listed = v.listed; waiting = v.waiting; working = v.working })
        (λ e.
          IsFrom-if (is_null d.rpm_list) _ _
            (λ g. record { listed = v.listed; waiting = v.waiting; working = v.working })
            (λ g. record {
              listed = v.listed;
              waiting = v.waiting;
              working = threads-one d rpm_started v tt;
            }))

  moved :
      (d : Daemon) (i : ℕ) (t : Thread)
      → IsFrom P Q d
      → HasRead P Q t
      → All (HasRead P Q) (set d.threads i t)
  moved d i t v h = All-set (HasRead P Q) d.threads i t v.working h

  routine_step-IsFrom :
      (i : ℕ) (t : Thread) (d : Daemon) → IsFrom P Q d → IsFrom P Q (routine_step i t d)
  unfolding routine_step
  routine_step-IsFrom i deb_started d v = record {
    listed = v.listed;
    waiting = v.waiting;
    working = moved d i (deb_running d.deb) v v.waiting;
  }
  routine_step-IsFrom i (deb_running file) d v = record {
    listed = v.listed;
    waiting = v.waiting;
    working = moved d i deb_gone v tt;
  }
  routine_step-IsFrom i deb_gone d v = v
  routine_step-IsFrom i rpm_started d v = record {
    listed = v.listed;
    waiting = v.waiting;
    working = moved d i (rpm_running d.rpm_list) v v.listed;
  }
  routine_step-IsFrom i (rpm_running files) d v = record {
    listed = tt;
    waiting = v.waiting;
    working = moved d i rpm_cleared v tt;
  }
  routine_step-IsFrom i rpm_cleared d v = record {
    listed = v.listed;
    waiting = v.waiting;
    working = moved d i rpm_announced v tt;
  }
  routine_step-IsFrom i rpm_announced d v = record {
    listed = v.listed;
    waiting = v.waiting;
    working = moved d i rpm_gone v tt;
  }
  routine_step-IsFrom i rpm_gone d v = v

  call_back-IsFrom :
      (guess : Bytes → Bytes) (i : ℕ) (t : Thread) (c : Callback) (d : Daemon)
      → All P (rpms_at guess (calls i c))
      → IsFrom P Q d
      → IsFrom P Q (call_back t c d)
  unfolding call_back
  call_back-IsFrom guess i (rpm_running files) (progress p none) d h v = v
  call_back-IsFrom guess i (rpm_running files) (progress p (some f)) d h v = record {
    listed = v.listed;
    waiting = v.waiting;
    working = v.working;
  }
  call_back-IsFrom guess i (rpm_running files) (rpm_problem m) d h v = record {
    listed = v.listed;
    waiting = v.waiting;
    working = v.working;
  }
  call_back-IsFrom guess i (deb_running file) (converted p f) d h v =
      if_whole (not (is_one p) || is_empty f) h
    where
      said : Daemon
      said = record d { emitted = d.emitted ++ (percent_changed deb2rpm d.deb p ∷ []) }

      if_whole :
          (b : Bool)
          → All P (if b then [] else f ∷ [])
          → IsFrom P Q (
              if b then said else record said {
                rpm_list = said.rpm_list ++ (f ∷ []);
                threads = said.threads ++ (rpm_started ∷ []);
              })
      if_whole true k = record { listed = v.listed; waiting = v.waiting; working = v.working }
      if_whole false k = record {
        listed = listed-one d f v k.0;
        waiting = v.waiting;
        working = threads-one d rpm_started v tt;
      }
  call_back-IsFrom guess i (deb_running file) (deb_problem m) d h v = record {
    listed = v.listed;
    waiting = v.waiting;
    working = v.working;
  }
  call_back-IsFrom guess i _ c d h v = v

  add_install_as-IsFrom :
      (guess : Bytes → Bytes) (file : Bytes) (d : Daemon)
      → All P (rpms_at guess (add_install file))
      → All Q (debs_at guess (add_install file))
      → IsFrom P Q d
      → IsFrom P Q (add_install_as (guess file) file d)
  unfolding add_install_as
  add_install_as-IsFrom guess file d h k v =
      by_type (bytes_eq (guess file) rpm_type) (bytes_eq (guess file) deb_type)
        (bytes_eq (guess file) source_rpm_type) d.task_locked h k
    where
      listed : Daemon
      listed = record d { rpm_list = d.rpm_list ++ (file ∷ []) }

      with_file : P file → IsFrom P Q listed
      with_file x = record {
        listed = listed-one d file v x;
        waiting = v.waiting;
        working = v.working;
      }

      by_type :
          (is_rpm is_deb is_source locked : Bool)
          → All P (if is_rpm || is_source then file ∷ [] else [])
          → All Q (if is_deb then file ∷ [] else [])
          → IsFrom P Q (
              if is_rpm
              then listed
              else if is_deb
              then if locked
                then record d { emitted = d.emitted ++ (error task_locked_message ∷ []) }
                else record d { deb = some file; threads = d.threads ++ (deb_started ∷ []) }
              else if is_source
              then record listed { emitted = d.emitted ++ (error src_rpm_note ∷ []) }
              else d)
      by_type true is_deb is_source locked x y = with_file (x.0)
      by_type false true is_source true x y = record {
        listed = v.listed;
        waiting = v.waiting;
        working = v.working;
      }
      by_type false true is_source false x y = record {
        listed = v.listed;
        waiting = y.0;
        working = threads-one d deb_started v tt;
      }
      by_type false false true locked x y = record {
        listed = listed-one d file v x.0;
        waiting = v.waiting;
        working = v.working;
      }
      by_type false false false locked x y = v

  pub step-IsFrom :
      (guess : Bytes → Bytes) (e : Event) (d : Daemon)
      → All P (rpms_at guess e)
      → All Q (debs_at guess e)
      → IsFrom P Q d
      → IsFrom P Q (step guess e d)
  unfolding step
  step-IsFrom guess (add_install file) d h k v = add_install_as-IsFrom guess file d h k v
  step-IsFrom guess install d h k v = daemon_install-IsFrom d v
  step-IsFrom guess (advance i) d h k v =
      at_thread (IsFrom P Q) (get_elem? d.threads i) (λ t. routine_step i t d) d v
        λ t e. routine_step-IsFrom i t d v
  step-IsFrom guess (calls i c) d h k v =
      at_thread (IsFrom P Q) (get_elem? d.threads i) (λ t. call_back t c d) d v
        λ t e. call_back-IsFrom guess i t c d h v
