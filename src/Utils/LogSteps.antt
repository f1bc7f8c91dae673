-- ===== src/Utils/LogSteps.antt =====
-- The parts of a call of `do_write_log`.
use isoft_package_installer.Utils.LogNumbers.{next_name-some}
use isoft_package_installer.Utils.LogFiles.{
  LogDirectory, max_log_id, numbered, next_name, get_next_log_file,
}
use isoft_package_installer.Utils.LogWriter.{
  Store, put_file, text_of, Logger, Moment, log_max_file_size, current_path, log_line, move_file,
  after_line, is_blank, do_write_log,
}
use isoft_package_installer.Base.{
  ltb, if◌then◌else◌, Bytes, bytes_eq, bytes_eq_refl, length, ℕ, ◌+◌, ◌≤◌, ◌≡◌, refl, ◌⊎◌, inl, inr,
  Bool, true, false, not, ◌||◌, Option, none, some, List, ◌++◌, arith, int_max, ◌<◌,
}

-- The line is not written: the level is too high, there is no text, or the file does not open.
abbrev pub is_dropped : ℕ → Option Bytes → Moment → Logger → Bool
is_dropped log_level fmt m g = ltb g.g_log_level log_level || (is_blank fmt || not m.opens)

-- Either nothing moves, or the full file does.
pub after_line-cases :
    (m : Moment) (f f' : Store)
    → after_line m f ≡ some f'
    → (((length (text_of (f (current_path m.datestr))) ≤ log_max_file_size) × (f' ≡ f))
        ⊎ ((target : Bytes) × (get_next_log_file m.directory m.datestr 512 ≡ some target)
            × (f' ≡ move_file m f (current_path m.datestr) target)))
unfolding after_line
after_line-cases m f f' e =
    by_cases (ltb log_max_file_size size) (get_next_log_file m.directory m.datestr 512) e
      (λ h. ground arith)
  where
    size : ℕ
    size = length (text_of (f (current_path m.datestr)))

    by_cases :
        (b : Bool) (o : Option Bytes)
        → (if b
            then elim o [
              | none ↦ none
              | some target ↦ some (move_file m f (current_path m.datestr) target)
            ]
            else some f)
          ≡ some f'
        → (b ≡ false → size ≤ log_max_file_size)
        → (((size ≤ log_max_file_size) × (f' ≡ f))
            ⊎ ((target : Bytes) × (o ≡ some target)
                × (f' ≡ move_file m f (current_path m.datestr) target)))
    by_cases true none h small = cc
    by_cases true (some target) h small = inr (target, refl, cc)
    by_cases false o h small = inl (small refl, cc)

-- A move leaves all paths alone but the two.
pub move_file-other :
    (m : Moment) (f : Store) (from to q : Bytes)
    → bytes_eq from q ≡ false
    → bytes_eq to q ≡ false
    → move_file m f from to q ≡ f q
unfolding move_file
move_file-other m f from to q h g = ground arith

-- The full text is still there, under one path or the other.
pub move_file-moved :
    (m : Moment) (f : Store) (from to : Bytes)
    → bytes_eq to from ≡ false
    → bytes_eq from to ≡ false
    → (p : Bytes) × (move_file m f from to p ≡ f from)
unfolding move_file
move_file-moved m f from to h g = (
  if m.renames || m.renames_again then to else from,
  ground (arith, h, g, bytes_eq_refl to, bytes_eq_refl from),
)

-- The text behind the call's `fprintf`.
abbrev pub appended : ℕ → Bytes → Moment → Logger → Bytes
appended log_level text m g =
    text_of (g.store (current_path m.datestr)) ++ log_line log_level text m

abbrev pub with_line : ℕ → Bytes → Moment → Logger → Store
with_line log_level text m g =
    put_file g.store (current_path m.datestr) (some (appended log_level text m g))

pub do_write_log-some :
    (log_level : ℕ) (fmt : Option Bytes) (text : Bytes) (m : Moment) (g g' : Logger)
    → is_dropped log_level fmt m g ≡ false
    → do_write_log log_level fmt text m g ≡ some g'
    → (f : Store) × (after_line m (with_line log_level text m g) ≡ some f)
      × (g' ≡ record g { store = f })
unfolding do_write_log
do_write_log-some log_level fmt text m g g' h e =
    by_cases (is_dropped log_level fmt m g) (after_line m (with_line log_level text m g)) h e
  where
    by_cases :
        (b : Bool) (o : Option Store)
        → b ≡ false
        → (if b then some g else elim o [ none ↦ none | some f ↦ some (record g { store = f }) ])
          ≡ some g'
        → (f : Store) × (o ≡ some f) × (g' ≡ record g { store = f })
    by_cases true o x y = cc
    by_cases false none x y = cc
    by_cases false (some f) x y = (f, refl, cc)

-- The name of the next file, from the largest number that is there.
pub next-numbered :
    (d : LogDirectory) (date target : Bytes) (names : List Bytes) (n : ℕ)
    → d.names ≡ some names
    → max_log_id d.is_dir date names 0 ≡ some n
    → get_next_log_file d date 512 ≡ some target
    → target ≡ numbered 512 date (n + 1)
unfolding get_next_log_file
next-numbered d date target names n e g h =
    let opened : next_name 512 date (max_log_id d.is_dir date names 0) ≡ some target =
      (rw (e, get_next_log_file) at h) in
    let (k, met, at) = next_name-some 512 date target (max_log_id d.is_dir date names 0) opened in
    cc

get_next_log_file-listed :
    (d : LogDirectory) (date : Bytes) (names : List Bytes) (n : ℕ)
    → d.names ≡ some names
    → max_log_id d.is_dir date names 0 ≡ some n
    → n < int_max
    → get_next_log_file d date 512 ≡ some (numbered 512 date (n + 1))
unfolding get_next_log_file next_name
get_next_log_file-listed d date names n e g small =
    let fits : ltb n int_max ≡ true = ground arith in rw e (rw g (rw fits refl))

-- Where the log directory can be read and the next number is an int, the call does not read what nothing has set.
pub do_write_log-total :
    (log_level : ℕ) (fmt : Option Bytes) (text : Bytes) (m : Moment) (g : Logger)
    (names : List Bytes) (n : ℕ)
    → m.directory.names ≡ some names
    → max_log_id m.directory.is_dir m.datestr names 0 ≡ some n
    → n < int_max
    → (g' : Logger) × (do_write_log log_level fmt text m g ≡ some g')
unfolding do_write_log after_line
do_write_log-total log_level fmt text m g names n listed largest small =
    rw (get_next_log_file-listed m.directory m.datestr names n listed largest small) (
      by_cases (is_dropped log_level fmt m g) (
        ltb log_max_file_size
          (length (text_of (with_line log_level text m g (current_path m.datestr))))))
  where
    by_cases :
        (b c : Bool)
        → (g' : Logger) × ((if b
              then some g
              else elim (if c
                  then some (
                      move_file m
                        (with_line log_level text m g)
                        (current_path m.datestr)
                        (numbered 512 m.datestr (n + 1)))
                  else some (with_line log_level text m g)) [
                    | none ↦ none
                    | some f ↦ some (record g { store = f })
                  ])
            ≡ some g')
    by_cases true c = (g, refl)
    by_cases false true = (_, refl)
    by_cases false false = (_, refl)
