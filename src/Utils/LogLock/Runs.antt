-- ===== src/Utils/LogLock/Runs.antt =====
-- Each step of a caller of `write_log` keeps the calls one after another.
use isoft_package_installer.Utils.LogLock.{
  Caller, before_test, before_mkdir, before_lock, in_log, before_unlock, call_over, Shared, becomes,
  caller_step, before_init, callers_step, run_callers, all_callers, callers_of,
}
use isoft_package_installer.Utils.LogLock.Callers.{
  in_lock, past_lock, unlocked, as_number, IsInited, IsSerial, and_call, write_all-snoc,
  write_all-one, once_left-idle, writing, once_left-set, once_left-entered, once_left,
  do_write_log-IsInited, once_left-written, as_number-le,
}
use isoft_package_installer.Utils.LogWriter.{Logger}
use isoft_package_installer.Utils.LogRuns.{LogCall, write_all}
use isoft_package_installer.Base.{
  if◌then◌else◌, get_elem?, set, sum_by, sizes, weights, ℕ, ◌≡◌, refl, sym, ap, ◌∙◌, subst, Bool,
  true, false, some, [], ◌∷◌, ◌++◌, length, weight-le-sum_by, ◌≤◌, Option, none, List, arith,
}

module _ (start : Logger) (s : Shared) (v : IsSerial start s) (i : ℕ) where
  becomes-IsSerial :
      (t u : Caller)
      → get_elem? s.callers i ≡ some t
      → writing t ≡ 0
      → writing u ≡ 0
      → in_lock t ≡ in_lock u
      → past_lock t ≡ past_lock u
      → unlocked u ≡ 0
      → IsSerial start (becomes i u s)
  becomes-IsSerial t u at w x y z o = record {
    made = grind (weights, v.made);
    inited = v.inited;
    left = subst IsInited (sym (once_left-set s.callers i t u s.logger at w x)) v.left;
    exclusive = grind (weights, v.exclusive);
    counted = grind (weights, v.counted);
    serial = v.serial ∙ sym (once_left-set s.callers i t u s.logger at w x);
  }

  module _ (g : Logger) (now : s.logger ≡ some g) where
    test-IsSerial :
        (c : LogCall)
        → get_elem? s.callers i ≡ some (before_test c)
        → IsSerial start (caller_step i (before_test c) g s)
    unfolding caller_step
    test-IsSerial c at =
        let flag : g.g_log_lock_inited ≡ true = subst IsInited now v.inited in
        subst (λ b. IsSerial start (becomes i (if b then before_lock c else before_mkdir c) s))
          (sym flag) (becomes-IsSerial (before_test c) (before_lock c) at refl refl refl refl refl)

    lock-IsSerial :
        (c : LogCall)
        → get_elem? s.callers i ≡ some (before_lock c)
        → IsSerial start (caller_step i (before_lock c) g s)
    unfolding caller_step
    lock-IsSerial c at = if_held s.is_held refl
      where
        if_held :
            (b : Bool)
            → s.is_held ≡ b
            → IsSerial start (
                if b then s else record s {
                  callers = set s.callers i (in_log c g);
                  is_held = true;
                  order = s.order ++ (c ∷ []);
                })
        if_held true h = v
        if_held false h =
            let nobody : sum_by in_lock s.callers ≡ 0 = v.exclusive ∙ ap as_number h in
            let flag = subst IsInited now v.inited in
            let entered = once_left-entered s.callers i c g (before_lock c) s.logger at nobody in
            record {
              made = grind (weights, v.made);
              inited = v.inited;
              left = subst IsInited (sym entered) (do_write_log-IsInited c g flag);
              exclusive = grind (weights, nobody);
              counted = grind (weights, sizes, v.counted);
              serial =
                  write_all-snoc s.order c start
                  ∙ (ap (and_call c) (v.serial ∙ (once_left-idle s.callers s.logger nobody ∙ now))
                      ∙ (write_all-one c g flag ∙ sym entered));
            }

    write-IsSerial :
        (c : LogCall) (found_logger : Logger)
        → get_elem? s.callers i ≡ some (in_log c found_logger)
        → IsSerial start (caller_step i (in_log c found_logger) g s)
    unfolding caller_step
    write-IsSerial c found_logger at =
        let one : sum_by in_lock s.callers ≤ 1 =
          omega (arith, v.exclusive, as_number-le s.is_held) in
        let (after, ahead) = once_left-written s.callers i c found_logger s.logger at one in
        record {
          made = grind (weights, v.made);
          inited = subst IsInited ahead v.left;
          left = subst IsInited (ahead ∙ sym after) v.left;
          exclusive = grind (weights, v.exclusive);
          counted = grind (weights, v.counted);
          serial = v.serial ∙ (ahead ∙ sym after);
        }

    unlock-IsSerial :
        get_elem? s.callers i ≡ some before_unlock
        → IsSerial start (caller_step i before_unlock g s)
    unfolding caller_step
    unlock-IsSerial at = record {
      made = grind (weights, v.made);
      inited = v.inited;
      left =
          subst IsInited
            (sym (once_left-set s.callers i before_unlock call_over s.logger at refl refl)) v.left;
      exclusive = grind (
        weights,
        v.exclusive,
        as_number-le s.is_held,
        weight-le-sum_by in_lock s.callers i before_unlock at,
      );
      counted = grind (weights, v.counted);
      serial =
          v.serial ∙ sym (once_left-set s.callers i before_unlock call_over s.logger at refl refl);
    }

    caller_step-IsSerial :
        (t : Caller) → get_elem? s.callers i ≡ some t → IsSerial start (caller_step i t g s)
    unfolding caller_step
    caller_step-IsSerial (before_test c) at = test-IsSerial c at
    caller_step-IsSerial (before_mkdir c) at =
        absurd (omega (arith, v.made, weight-le-sum_by unlocked s.callers i (before_mkdir c) at))
    caller_step-IsSerial (before_init c) at =
        absurd (omega (arith, v.made, weight-le-sum_by unlocked s.callers i (before_init c) at))
    caller_step-IsSerial (before_lock c) at = lock-IsSerial c at
    caller_step-IsSerial (in_log c found_logger) at = write-IsSerial c found_logger at
    caller_step-IsSerial before_unlock at = unlock-IsSerial at
    caller_step-IsSerial call_over at = v

callers_step-IsSerial :
    (start : Logger) (s : Shared) (i : ℕ) → IsSerial start s → IsSerial start (callers_step i s)
unfolding callers_step
callers_step-IsSerial start s i v = at_logger s.logger refl
  where
    at_caller :
        (g : Logger)
        → s.logger ≡ some g
        → (o : Option Caller) → get_elem? s.callers i ≡ o
        → IsSerial start (elim o [ none ↦ s | some t ↦ caller_step i t g s ])
    at_caller g now none at = v
    at_caller g now (some t) at = caller_step-IsSerial start s v i g now t at

    at_logger :
        (o : Option Logger)
        → s.logger ≡ o
        → IsSerial start (elim o [
          | none ↦ s
          | some g ↦ elim (get_elem? s.callers i) [ none ↦ s | some t ↦ caller_step i t g s ]
        ])
    at_logger none now = v
    at_logger (some g) now = at_caller g now (get_elem? s.callers i) refl

run_callers-IsSerial_from :
    (schedule : List ℕ) (start : Logger) (s : Shared)
    → IsSerial start s
    → IsSerial start (run_callers schedule s)
unfolding run_callers
run_callers-IsSerial_from [] start s v = v
run_callers-IsSerial_from (i ∷ schedule) start s v =
    run_callers-IsSerial_from schedule start (callers_step i s) (callers_step-IsSerial start s i v)

sum_by-all_callers :
    (w : Caller → ℕ) (cs : List LogCall)
    → ((c : LogCall) → w (before_test c) ≡ 0)
    → sum_by w (all_callers cs) ≡ 0
unfolding sum_by all_callers
sum_by-all_callers w [] h = refl
sum_by-all_callers w (c ∷ cs) h = omega (arith, h c, sum_by-all_callers w cs h)

callers_of-IsSerial :
    (g : Logger) (cs : List LogCall) → g.g_log_lock_inited ≡ true → IsSerial g (callers_of g cs)
unfolding callers_of write_all
callers_of-IsSerial g cs flag =
    let nobody = sum_by-all_callers in_lock cs (λ c. refl) in
    let idle = once_left-idle (all_callers cs) (some g) nobody in
    record {
      made = sum_by-all_callers unlocked cs (λ c. refl);
      inited = flag;
      left = subst IsInited (sym idle) flag;
      exclusive = nobody;
      counted = sym (sum_by-all_callers past_lock cs (λ c. refl));
      serial = sym idle;
    }

-- Callers of `write_log` in any number of threads, once a first call has made the lock, with any
-- interleaving of their steps. At most one of them is between the lock and the unlock, and one is
-- exactly while the lock is held. As many calls have got the lock as callers are past it, and the
-- files and the statics are, once the caller that is in `do_write_log` has left it, those of these
-- calls made one after another in the order in which they got the lock: no line is lost.
pub run_callers-write_all :
    (schedule : List ℕ) (g : Logger) (cs : List LogCall)
    → g.g_log_lock_inited ≡ true
    → let s = run_callers schedule (callers_of g cs) in
      (sum_by in_lock s.callers ≡ as_number s.is_held)
      × (length s.order ≡ sum_by past_lock s.callers)
      × (write_all s.order g ≡ once_left s.callers s.logger)
run_callers-write_all schedule g cs flag =
    let v =
      run_callers-IsSerial_from schedule g (callers_of g cs) (callers_of-IsSerial g cs flag) in
    (v.exclusive, v.counted, v.serial)
