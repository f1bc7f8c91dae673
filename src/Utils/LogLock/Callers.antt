-- ===== src/Utils/LogLock/Callers.antt =====
-- Calls of `write_log` in several threads have the effect of calls one after another.
use mathlib.Core.Option.{some-injective}
use isoft_package_installer.Utils.LogLock.{
  Caller, before_mkdir, before_init, in_log, before_unlock, call_over, Shared, done_log,
}
use isoft_package_installer.Utils.LogWriter.{
  Logger, do_write_log, logged, write_log, Store, put_file, text_of, current_path, log_line,
  after_line, is_blank, Returned, zero_code,
}
use isoft_package_installer.Utils.LogRuns.{LogCall, write_all}
use isoft_package_installer.Base.{
  length, sum_by, ℕ, ◌≡◌, refl, Bool, true, false, Option, none, some, List, [], ◌∷◌, ◌++◌, ltb,
  if◌then◌else◌, ◌∙◌, not, ◌||◌, get_elem?, set, weight-le-sum_by, zero, suc, ◌≤◌, sym, ap, arith,
  ◌&&◌,
}

-- 1 for a caller that has the lock.
abbrev pub in_lock : Caller → ℕ
in_lock (in_log c g) = 1
in_lock before_unlock = 1
in_lock t = 0

-- 1 for a caller that has got the lock at some time, and 1 for one that found no lock made.
abbrev pub past_lock : Caller → ℕ
past_lock (in_log c g) = 1
past_lock before_unlock = 1
past_lock call_over = 1
past_lock t = 0

abbrev pub unlocked : Caller → ℕ
unlocked (before_mkdir c) = 1
unlocked (before_init c) = 1
unlocked t = 0

abbrev pub as_number : Bool → ℕ
as_number true = 1
as_number false = 0

-- The statics and the disk, once the caller that is in `do_write_log`, if one is, has left it.
abbrev pub once_left : List Caller → Option Logger → Option Logger
once_left [] o = o
once_left (in_log c g ∷ ts) o = done_log c g
once_left (t ∷ ts) o = once_left ts o

abbrev pub IsInited : Option Logger → Type 0
IsInited none = Unit
IsInited (some g) = g.g_log_lock_inited ≡ true

pub record IsSerial (start : Logger) (s : Shared) : Type 0 where
  pub made : sum_by unlocked s.callers ≡ 0
  pub inited : IsInited s.logger
  pub left : IsInited (once_left s.callers s.logger)
  pub exclusive : sum_by in_lock s.callers ≡ as_number s.is_held
  pub counted : length s.order ≡ sum_by past_lock s.callers
  pub serial : write_all s.order start ≡ once_left s.callers s.logger

pub do_write_log-IsInited :
    (c : LogCall) (g : Logger) → g.g_log_lock_inited ≡ true → IsInited (done_log c g)
unfolding do_write_log
do_write_log-IsInited c g e =
    let current = current_path c.moment.datestr in
    let longer = text_of (g.store current) ++ log_line c.log_level c.text c.moment in
    shaped (ltb g.g_log_level c.log_level || (is_blank c.fmt || not c.moment.opens))
      (after_line c.moment (put_file g.store current (some longer)))
  where
    shaped :
        (b : Bool) (o : Option Store)
        → IsInited
            (if b then some g else elim o [ none ↦ none | some f ↦ some (record g { store = f }) ])
    shaped true o = e
    shaped false none = tt
    shaped false (some f) = e

-- One more call of `write_log`.
abbrev pub and_call : LogCall → Option Logger → Option Logger
and_call c none = none
and_call c (some g) = write_all (c ∷ []) g

pub write_all-snoc :
    (cs : List LogCall) (c : LogCall) (g : Logger)
    → write_all (cs ++ (c ∷ [])) g ≡ and_call c (write_all cs g)
unfolding write_all
write_all-snoc [] c g = refl
write_all-snoc (d ∷ cs) c g =
    behind (write_log d.log_level d.fmt d.text d.moment g) (λ g1. write_all-snoc cs c g1)
  where
    behind :
        (o : Option (Returned × Logger))
        → ((g1 : Logger) → write_all (cs ++ (c ∷ [])) g1 ≡ and_call c (write_all cs g1))
        → (elim o [ none ↦ none | some r ↦ write_all (cs ++ (c ∷ [])) r.1 ])
          ≡ and_call c (elim o [ none ↦ none | some r ↦ write_all cs r.1 ])
    behind none h = refl
    behind (some r) h = h r.1

abbrev with_code : Option Logger → Option (Returned × Logger)
with_code none = none
with_code (some g) = some (zero_code, g)

abbrev without_code : Option (Returned × Logger) → Option Logger
without_code none = none
without_code (some r) = some r.1

without_code-with_code : (o : Option Logger) → without_code (with_code o) ≡ o
without_code-with_code none = refl
without_code-with_code (some g) = refl

if_false : {A : Type 0} (b : Bool) (x y : A) → b ≡ false → (if b then x else y) ≡ y
if_false true x y e = cc
if_false false x y e = refl

-- A call on its own, where the lock is made.
logged-with_code :
    (c : LogCall) (g : Logger)
    → g.g_log_lock_inited ≡ true
    → write_log c.log_level c.fmt c.text c.moment g
      ≡ with_code (done_log c (record g { g_log_lock_inited = true }))
unfolding write_log logged
logged-with_code c g e =
    if_false (not g.g_log_lock_inited && not c.moment.makes_directory) _ _ (ground arith)

pub write_all-one :
    (c : LogCall) (g : Logger) → g.g_log_lock_inited ≡ true → write_all (c ∷ []) g ≡ done_log c g
unfolding write_all
write_all-one c g e =
    let inited : record g { g_log_lock_inited = true } ≡ g =
      ap (λ b. record g { g_log_lock_inited = b }) (sym e) in
    ap without_code (logged-with_code c g e)
    ∙ (without_code-with_code (done_log c (record g { g_log_lock_inited = true }))
        ∙ ap (done_log c) inited)

-- Lemmas on the callers.
pub once_left-idle :
    (ts : List Caller) (o : Option Logger) → sum_by in_lock ts ≡ 0 → once_left ts o ≡ o
unfolding sum_by
once_left-idle [] o z = refl
once_left-idle (in_log c g ∷ ts) o z = absurd (omega arith)
once_left-idle (before_unlock ∷ ts) o z = absurd (omega arith)
once_left-idle (_ ∷ ts) o z = once_left-idle ts o (omega arith)

-- 1 for a caller in `do_write_log`.
abbrev pub writing : Caller → ℕ
writing (in_log c g) = 1
writing t = 0

once_left-skip :
    (t : Caller) (ts : List Caller) (o : Option Logger)
    → writing t ≡ 0
    → once_left (t ∷ ts) o ≡ once_left ts o
once_left-skip (in_log c g) ts o z = absurd (omega arith)
once_left-skip _ ts o z = refl

pub once_left-set :
    (ts : List Caller) (i : ℕ) (t u : Caller) (o : Option Logger)
    → get_elem? ts i ≡ some t
    → writing t ≡ 0
    → writing u ≡ 0
    → once_left (set ts i u) o ≡ once_left ts o
once_left-set [] i t u o e z y = cc
once_left-set (x ∷ ts) zero t u o e z y =
    once_left-skip u ts o y ∙ sym (once_left-skip x ts o (ap writing (some-injective x t e) ∙ z))
once_left-set (in_log c g ∷ ts) (suc i) t u o e z y = refl
once_left-set (_ ∷ ts) (suc i) t u o e z y = once_left-set ts i t u o e z y

-- A caller that gets the lock, where nobody has it.
pub once_left-entered :
    (ts : List Caller) (i : ℕ) (c : LogCall) (g : Logger) (t : Caller) (o : Option Logger)
    → get_elem? ts i ≡ some t
    → sum_by in_lock ts ≡ 0
    → once_left (set ts i (in_log c g)) o ≡ done_log c g
unfolding sum_by
once_left-entered [] i c g t o e z = cc
once_left-entered (x ∷ ts) zero c g t o e z = refl
once_left-entered (in_log d f ∷ ts) (suc i) c g t o e z = absurd (omega arith)
once_left-entered (_ ∷ ts) (suc i) c g t o e z = once_left-entered ts i c g t o e (omega arith)

-- The one that has it leaves `do_write_log`.
pub once_left-written :
    (ts : List Caller) (i : ℕ) (c : LogCall) (g : Logger) (o : Option Logger)
    → get_elem? ts i ≡ some (in_log c g)
    → sum_by in_lock ts ≤ 1
    → (once_left (set ts i before_unlock) (done_log c g) ≡ done_log c g)
      × (once_left ts o ≡ done_log c g)
unfolding sum_by
once_left-written [] i c g o e le = cc
once_left-written (x ∷ ts) zero c g o e le =
    let same = some-injective x (in_log c g) e in
    (
      once_left-idle ts (done_log c g) (omega (arith, ap in_lock same)),
      ap (λ t. once_left (t ∷ ts) o) same,
    )
once_left-written (in_log d f ∷ ts) (suc i) c g o e le =
    absurd (omega (arith, weight-le-sum_by in_lock ts i (in_log c g) e))
once_left-written (before_unlock ∷ ts) (suc i) c g o e le =
    absurd (omega (arith, weight-le-sum_by in_lock ts i (in_log c g) e))
once_left-written (_ ∷ ts) (suc i) c g o e le = once_left-written ts i c g o e (omega arith)

pub as_number-le : (b : Bool) → as_number b ≤ 1
as_number-le true = omega arith
as_number-le false = omega arith
