-- ===== src/Utils/LogRuns.antt =====
-- Calls of `write_log` one after another: they end, and the log files stay short.
use isoft_package_installer.Utils.LogSizes.{IsUsual, IsBounded, do_write_log-IsBounded}
use mathlib.Core.Option.{some-injective}
use isoft_package_installer.Utils.LogWriter.{
  Logger, Moment, do_write_log, Returned, zero_code, minus_one_code, logged, write_log,
}
use isoft_package_installer.Utils.LogSteps.{do_write_log-total}
use isoft_package_installer.Base.{
  Bytes, ℕ, ◌≡◌, refl, subst, true, false, Option, none, some, List, if◌then◌else◌, All, Bool, not,
  ◌&&◌, [], ◌∷◌,
}

logged-IsBounded :
    (code c : Returned) (log_level : ℕ) (fmt : Option Bytes) (text : Bytes) (m : Moment)
    (g g' : Logger)
    → IsUsual m
    → logged code log_level fmt text m g ≡ some (c, g')
    → IsBounded g.store
    → IsBounded g'.store
unfolding logged
logged-IsBounded code c log_level fmt text m g g' u e b =
    by_cases (not g.g_log_lock_inited && not m.makes_directory)
      (do_write_log log_level fmt text m (record g { g_log_lock_inited = true })) e
      (λ g1 h.
        do_write_log-IsBounded log_level fmt text m (record g { g_log_lock_inited = true }) g1 u h
          b)
  where
    result : Bool → Option Logger → Option (Returned × Logger)
    result x o =
        if x then some (minus_one_code, g) else elim o [ none ↦ none | some g1 ↦ some (code, g1) ]

    by_cases :
        (x : Bool) (o : Option Logger)
        → result x o ≡ some (c, g')
        → ((g1 : Logger) → o ≡ some g1 → IsBounded g1.store)
        → IsBounded g'.store
    by_cases true o y k =
        subst (λ (z : Returned × Logger). IsBounded z.1.store) (some-injective _ _ y) b
    by_cases false none y k = cc
    by_cases false (some g1) y k =
        subst (λ (z : Returned × Logger). IsBounded z.1.store) (some-injective _ _ y) (k g1 refl)

-- A call of `write_log`, and calls one after another.
pub record LogCall : Type 0 where
  pub log_level : ℕ
  pub fmt : Option Bytes
  pub text : Bytes
  pub moment : Moment

unfoldable pub write_all : List LogCall → Logger → Option Logger
unfolding write_log
write_all [] g = some g
write_all (c ∷ cs) g = elim (write_log c.log_level c.fmt c.text c.moment g) [
  | none ↦ none
  | some (code, g') ↦ write_all cs g'
]

IsBounded-if_written :
    (cs : List LogCall) (g g' : Logger)
    → All (λ c. IsUsual c.moment) cs
    → write_all cs g ≡ some g'
    → IsBounded g.store
    → IsBounded g'.store
unfolding write_all write_log
IsBounded-if_written [] g g' u e b =
    subst (λ (z : Logger). IsBounded z.store) (some-injective g g' e) b
IsBounded-if_written (c ∷ cs) g g' u e b =
    by_cases (write_log c.log_level c.fmt c.text c.moment g) e
      (λ code g1 h.
        logged-IsBounded zero_code code c.log_level c.fmt c.text c.moment g g1 (u.0) h b)
      (λ g1. IsBounded-if_written cs g1 g' (u.1))
  where
    by_cases :
        (o : Option (Returned × Logger))
        → elim o [ none ↦ none | some r ↦ write_all cs r.1 ] ≡ some g'
        → ((code : Returned) (g1 : Logger) → o ≡ some (code, g1) → IsBounded g1.store)
        → ((g1 : Logger) → write_all cs g1 ≡ some g' → IsBounded g1.store → IsBounded g'.store)
        → IsBounded g'.store
    by_cases none y k rest = cc
    by_cases (some (code, g1)) y k rest = rest g1 y (k code g1 refl)

logged-total :
    (code : Returned) (log_level : ℕ) (fmt : Option Bytes) (text : Bytes) (m : Moment) (g : Logger)
    → IsUsual m
    → (r : Returned × Logger) × (logged code log_level fmt text m g ≡ some r)
unfolding logged
logged-total code log_level fmt text m g u =
    let (g1, e) =
      do_write_log-total log_level fmt text m (record g { g_log_lock_inited = true }) u.names
        u.largest u.listed u.found_largest u.fits in
    rw e (by_cases (not g.g_log_lock_inited && not m.makes_directory) g1)
  where
    by_cases :
        (b : Bool) (g1 : Logger)
        → (r : Returned × Logger) × ((if b then some (minus_one_code, g) else some (code, g1))
            ≡ some r)
    by_cases true g1 = ((minus_one_code, g), refl)
    by_cases false g1 = ((code, g1), refl)

write_all-total :
    (cs : List LogCall) (g : Logger)
    → All (λ c. IsUsual c.moment) cs
    → (g' : Logger) × (write_all cs g ≡ some g')
unfolding write_all write_log
write_all-total [] g u = (g, refl)
write_all-total (c ∷ cs) g u =
    let ((code, g1), e) = logged-total zero_code c.log_level c.fmt c.text c.moment g (u.0) in
    rw (e, write_all, write_log) (write_all-total cs g1 (u.1))

-- Calls of `write_log`, each on a date of ten bytes with a log directory that can be read, where the
-- number behind the largest of that date is an int of 32 bits and one of the two attempts to move a
-- file succeeds, from files among which no current file of any date is longer than
-- LOG_MAX_FILE_SIZE: the calls end, and behind them none is either, however long the lines are.
pub write_all-IsBounded :
    (cs : List LogCall) (g : Logger)
    → All (λ c. IsUsual c.moment) cs
    → IsBounded g.store
    → (g' : Logger) × (write_all cs g ≡ some g') × IsBounded g'.store
write_all-IsBounded cs g u b =
    let (g', e) = write_all-total cs g u in (g', e, IsBounded-if_written cs g g' u e b)
