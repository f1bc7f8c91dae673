-- ===== src/Utils/LogSizes.antt =====
-- The sizes of the current log files.
use mathlib.Core.Option.{some-injective}
use isoft_package_installer.Utils.LogPaths.{
  path_of, numbered-path_of, kept_name-current_name, next_int,
}
use isoft_package_installer.Utils.LogFiles.{max_log_id, kept_name}
use isoft_package_installer.Utils.LogWriter.{
  Store, text_of, Logger, Moment, log_max_file_size, current_path, move_file, do_write_log,
  after_line,
}
use isoft_package_installer.Utils.LogSteps.{
  is_dropped, after_line-cases, move_file-other, with_line, do_write_log-some, next-numbered,
}
use isoft_package_installer.Base.{
  Bool-cases, Bytes, bytes_eq, bytes_eq_iff, bytes_eq_refl, length, ℕ, ◌+◌, ◌≤◌, ◌<◌, ◌≡◌, refl,
  sym, ap, ◌∙◌, subst, inl, inr, true, false, ◌||◌, Option, none, some, List, arith, if◌then◌else◌,
  Bool, int_max,
}

-- What a call needs of its moment: a date of ten bytes, a log directory that can be read and whose
-- largest number for this date has a next int of 32 bits, and one of the two attempts to move a file succeeds.
pub record IsUsual (m : Moment) : Type 0 where
  pub ten : length m.datestr ≡ 10
  pub names : List Bytes
  pub largest : ℕ
  pub listed : m.directory.names ≡ some names
  pub found_largest : max_log_id m.directory.is_dir m.datestr names 0 ≡ some largest
  pub fits : largest < int_max
  pub moves : (m.renames || m.renames_again) ≡ true

-- No current file, of whatever date, is longer than the limit.
abbrev pub IsBounded : Store → Type 0
IsBounded f =
    (date : Bytes) → length date ≡ 10 → length (text_of (f (current_path date))) ≤ log_max_file_size

-- A file whose move succeeds is gone from its path.
move_file-from :
    (m : Moment) (f : Store) (from to : Bytes)
    → (m.renames || m.renames_again) ≡ true
    → move_file m f from to from ≡ none
unfolding move_file
move_file-from m f from to h = ground (arith, h, bytes_eq_refl from)

module _ (log_level : ℕ) (text : Bytes) (m : Moment) (g : Logger) where
  before : Store
  before = with_line log_level text m g

  before-other : (q : Bytes) → bytes_eq (current_path m.datestr) q ≡ false → before q ≡ g.store q
  unfolding before
  before-other q h = rw h refl

  -- Where the file stays, it is short.
  stays-IsBounded :
      length (text_of (before (current_path m.datestr))) ≤ log_max_file_size
      → IsBounded g.store
      → IsBounded before
  stays-IsBounded short b date ten =
      elim (Bool-cases (bytes_eq (current_path m.datestr) (current_path date))) [
        | inl e ↦
            subst (λ q. length (text_of (before q)) ≤ log_max_file_size)
              ((bytes_eq_iff (current_path m.datestr) (current_path date)).0 e) short
        | inr e ↦
            subst (λ v. length (text_of v) ≤ log_max_file_size)
              (sym (before-other (current_path date) e)) (b date ten)
      ]

  -- Where it moves, its number is not the name of a current file.
  moves-IsBounded :
      (id : ℕ)
      → length m.datestr ≡ 10
      → (m.renames || m.renames_again) ≡ true
      → IsBounded g.store
      → IsBounded (move_file m before (current_path m.datestr) (path_of (kept_name m.datestr id)))
  moves-IsBounded id ten moves b date t =
      elim (Bool-cases (bytes_eq (current_path m.datestr) (current_path date))) [
        | inl e ↦
            subst (λ q. length (text_of (moved q)) ≤ log_max_file_size)
              ((bytes_eq_iff (current_path m.datestr) (current_path date)).0 e)
              (subst (λ v. length (text_of v) ≤ log_max_file_size)
                (sym (move_file-from m before (current_path m.datestr) _ moves)) (omega arith))
        | inr e ↦
            subst (λ v. length (text_of v) ≤ log_max_file_size)
              (sym (
                move_file-other m before (current_path m.datestr) _ (current_path date) e
                  (kept_name-current_name m.datestr date id ten t)
                ∙ before-other (current_path date) e))
              (b date t)
      ]
    where
      moved : Store
      moved = move_file m before (current_path m.datestr) (path_of (kept_name m.datestr id))

do_write_log-dropped :
    (log_level : ℕ) (fmt : Option Bytes) (text : Bytes) (m : Moment) (g g' : Logger)
    → is_dropped log_level fmt m g ≡ true
    → do_write_log log_level fmt text m g ≡ some g'
    → g.store ≡ g'.store
unfolding do_write_log
do_write_log-dropped log_level fmt text m g g' h e =
    by_cases (is_dropped log_level fmt m g) (after_line m (with_line log_level text m g)) h e
  where
    by_cases :
        (b : Bool) (o : Option Store)
        → b ≡ true
        → (if b then some g else elim o [ none ↦ none | some f ↦ some (record g { store = f }) ])
          ≡ some g'
        → g.store ≡ g'.store
    by_cases true o x y = ap (λ (z : Logger). z.store) (some-injective g g' y)
    by_cases false o x y = cc

pub do_write_log-IsBounded :
    (log_level : ℕ) (fmt : Option Bytes) (text : Bytes) (m : Moment) (g g' : Logger)
    → IsUsual m
    → do_write_log log_level fmt text m g ≡ some g'
    → IsBounded g.store
    → IsBounded g'.store
unfolding before
do_write_log-IsBounded log_level fmt text m g g' u e b =
    elim (Bool-cases (is_dropped log_level fmt m g)) [
      | inl d ↦ subst IsBounded (do_write_log-dropped log_level fmt text m g g' d e) b
      | inr d ↦
          let (f, a, eg) = do_write_log-some log_level fmt text m g g' d e in
          let same : f ≡ g'.store = ap (λ (x : Logger). x.store) (sym eg) in
          elim (after_line-cases m (before log_level text m g) f a) [
            | inl (short, ef) ↦
                subst IsBounded (sym ef ∙ same) (stays-IsBounded log_level text m g short b)
            | inr (target, t, ef) ↦
                let to : target ≡ path_of (kept_name m.datestr (u.largest + 1)) =
                  next-numbered m.directory m.datestr target u.names u.largest u.listed
                    u.found_largest t
                  ∙ numbered-path_of m.datestr (u.largest + 1) u.ten (next_int u.largest u.fits) in
                subst IsBounded
                  (ap (move_file m (before log_level text m g) (current_path m.datestr)) (sym to)
                    ∙ (sym ef ∙ same))
                  (moves-IsBounded log_level text m g (u.largest + 1) u.ten u.moves b)
          ]
    ]
