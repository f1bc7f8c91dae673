-- ===== src/Utils/LogNumbers.antt =====
-- The numbers of log files, those that are kept and the next one.
use isoft_package_installer.Utils.LogFiles.{
  LogDirectory, is_dots, max, log_id, max_log_id, numbered, next_name, get_next_log_file, kept_name,
}
use isoft_package_installer.Base.{
  ltb, if◌then◌else◌, decimal, atoi-decimal, Bytes, codes, bytes_eq, starts_with,
  starts_with-append, length, drop, length-append, drop-append_eq, ℕ, ◌+◌, ◌≤◌, ◌<◌, ◌≡◌, refl, sym,
  ap, ◌∙◌, subst, Bool, true, false, not, ◌||◌, Option, none, some, List, [], ◌∷◌, ◌++◌,
  append_assoc, arith, Bool-cases, bytes_eq_iff, ◌≢◌, inl, inr, sizes, int_max, within_int,
}

pub drop_behind : (s : Bytes) (b : ℕ) (t : Bytes) → drop (length s + 1) (s ++ (b ∷ t)) ≡ t
drop_behind s b t =
    ap (drop (length s + 1)) (sym (append_assoc s (b ∷ []) t))
    ∙ drop-append_eq (length s + 1) (s ++ (b ∷ [])) t (omega (arith, length-append s (b ∷ [])))

pub log_id-kept_name : (date : Bytes) (k : ℕ) → log_id date (kept_name date k) ≡ within_int k
unfolding log_id
log_id-kept_name date k =
    let behind = b'_' ∷ (decimal k ++ codes ".log") in
    let longer : ltb (length date) (length (date ++ behind)) ≡ true =
      ground (arith, length-append date behind) in
    let dropped : drop (length date + 1) (date ++ behind) ≡ decimal k ++ codes ".log" =
      drop_behind date b'_' (decimal k ++ codes ".log") in
    rw longer (rw dropped (atoi-decimal k b'.' (codes "log") refl))

-- Either the rest is read with the same number or with a larger one.
at_entry :
    (b : Bool) (o : Option ℕ) (f : ℕ → Option ℕ) (max_id n : ℕ)
    → (if b then f max_id else elim o [ none ↦ none | some id ↦ f (max id max_id) ]) ≡ some n
    → (m : ℕ) × (max_id ≤ m) × (f m ≡ some n)
at_entry true o f max_id n e = (max_id, omega arith, e)
at_entry false none f max_id n e = cc
at_entry false (some id) f max_id n e = (max id max_id, ground arith, e)

at_kept :
    (b : Bool) (o : Option ℕ) (f : ℕ → Option ℕ) (k max_id n : ℕ)
    → b ≡ false
    → o ≡ within_int k
    → (if b then f max_id else elim o [ none ↦ none | some id ↦ f (max id max_id) ]) ≡ some n
    → f (max k max_id) ≡ some n
at_kept b o f k max_id n e g h = by_size (ltb int_max k) (
    subst
      (λ x.
        (if x then f max_id else elim (within_int k) [ none ↦ none | some id ↦ f (max id max_id) ])
        ≡ some n)
      e
      (subst
        (λ x.
          (if b then f max_id else elim x [ none ↦ none | some id ↦ f (max id max_id) ]) ≡ some n)
        g h))
  where
    by_size :
        (too_large : Bool)
        → elim (if too_large then none else some k) [ none ↦ none | some id ↦ f (max id max_id) ]
          ≡ some n
        → f (max k max_id) ≡ some n
    by_size true x = cc
    by_size false x = x

max_log_id-le :
    (is_dir : Bytes → Bool) (date : Bytes) (names : List Bytes) (max_id n : ℕ)
    → max_log_id is_dir date names max_id ≡ some n
    → max_id ≤ n
unfolding max_log_id
max_log_id-le is_dir date [] max_id n e = ground arith
max_log_id-le is_dir date (name ∷ names) max_id n e =
    let (m, le, rest) =
      at_entry (is_dots name || (is_dir name || not (starts_with date name))) (log_id date name)
        (max_log_id is_dir date names) max_id n e in
    omega (arith, le, max_log_id-le is_dir date names m n rest)

pub bytes_eq-length : (s t : Bytes) → length s ≢ length t → bytes_eq s t ≡ false
bytes_eq-length s t h = elim (Bool-cases (bytes_eq s t)) [
  | inl e ↦ absurd (h (ap length ((bytes_eq_iff s t).0 e)))
  | inr e ↦ e
]

pub length-kept_name : (date : Bytes) (k : ℕ) → length date + 5 ≤ length (kept_name date k)
length-kept_name date k = grind sizes

kept_name-not_dots : (date : Bytes) (k : ℕ) → is_dots (kept_name date k) ≡ false
kept_name-not_dots date k =
    let long = length-kept_name date k in
    rw (bytes_eq-length (kept_name date k) (codes ".") (λ e. omega (arith, e, long)))
      (rw (bytes_eq-length (kept_name date k) (codes "..") (λ e. omega (arith, e, long))) refl)

module _ (is_dir : Bytes → Bool) (date : Bytes) (k : ℕ) where
  pub max_log_id-gt :
      (xs ys : List Bytes) (max_id n : ℕ)
      → is_dir (kept_name date k) ≡ false
      → max_log_id is_dir date (xs ++ (kept_name date k ∷ ys)) max_id ≡ some n
      → k ≤ n
  unfolding max_log_id
  max_log_id-gt [] ys max_id n g h =
      let kept = kept_name date k in
      let seen : (is_dots kept || (is_dir kept || not (starts_with date kept))) ≡ false =
        rw (kept_name-not_dots date k) (rw g (rw (starts_with-append date _) refl)) in
      let rest =
        at_kept (is_dots kept || (is_dir kept || not (starts_with date kept))) (log_id date kept)
          (max_log_id is_dir date ys) k max_id n seen (log_id-kept_name date k) h in
      let le = max_log_id-le is_dir date ys (max k max_id) n rest in ground arith
  max_log_id-gt (x ∷ xs) ys max_id n g h =
      let (m, le, rest) =
        at_entry (is_dots x || (is_dir x || not (starts_with date x))) (log_id date x)
          (max_log_id is_dir date (xs ++ (kept_name date k ∷ ys))) max_id n h in
      max_log_id-gt xs ys m n g rest

pub next_name-some :
    (dst_len : ℕ) (date path : Bytes) (o : Option ℕ)
    → next_name dst_len date o ≡ some path
    → (n : ℕ) × (o ≡ some n) × (path ≡ numbered dst_len date (n + 1))
unfolding next_name
next_name-some dst_len date path none e = cc
next_name-some dst_len date path (some n) e = by_size (ltb n int_max) e
  where
    by_size :
        (fits : Bool)
        → (if fits then some (numbered dst_len date (n + 1)) else none) ≡ some path
        → (m : ℕ) × (some n ≡ some m) × (path ≡ numbered dst_len date (m + 1))
    by_size true x = (n, refl, cc)
    by_size false x = cc

-- For a log directory that can be read: the name that is given ends in a number that is one more
-- than the largest that the loop has found, and larger than that of any file which was kept under
-- the same date before and which is not taken for a directory.
get_next_log_file-gt :
    (d : LogDirectory) (date : Bytes) (k dst_len : ℕ) (xs ys : List Bytes) (path : Bytes)
    → d.names ≡ some (xs ++ (kept_name date k ∷ ys))
    → d.is_dir (kept_name date k) ≡ false
    → get_next_log_file d date dst_len ≡ some path
    → (n : ℕ) × (max_log_id d.is_dir date (xs ++ (kept_name date k ∷ ys)) 0 ≡ some n)
      × (path ≡ numbered dst_len date (n + 1))
      × (k < n + 1)
unfolding get_next_log_file
get_next_log_file-gt d date k dst_len xs ys path e g h =
    let names = xs ++ (kept_name date k ∷ ys) in
    let opened : next_name dst_len date (max_log_id d.is_dir date names 0) ≡ some path =
      (rw (e, get_next_log_file) at h) in
    let (n, met, at) = next_name-some dst_len date path (max_log_id d.is_dir date names 0) opened in
    let le = max_log_id-gt d.is_dir date k xs ys 0 n g met in (n, met, at, omega (arith, le))
