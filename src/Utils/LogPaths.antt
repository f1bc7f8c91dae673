-- ===== src/Utils/LogPaths.antt =====
-- The paths of log files, and when two of them differ.
use isoft_package_installer.Utils.LogNumbers.{length-kept_name, drop_behind}
use isoft_package_installer.Utils.LogFiles.{log_file_path, numbered, kept_name}
use isoft_package_installer.Base.{
  Bool-cases, decimal_fuel, decimal, Bytes, codes, bytes_eq, bytes_eq_iff, length, take, drop,
  length-append, ℕ, zero, suc, ◌+◌, ◌*◌, ◌/◌, ◌%◌, ◌≤◌, ◌<◌, ◌≡◌, refl, sym, ap, ◌∙◌, ◌≢◌, inl, inr,
  false, [], ◌∷◌, ◌++◌, arith, sizes, int_max, digits_value, digits_value-decimal,
}

abbrev pub path_of : Bytes → Bytes
path_of name = log_file_path ++ (b'/' ∷ name)

path_of-injective : (a b : Bytes) → path_of a ≡ path_of b → a ≡ b
path_of-injective a b e = ap (drop 23) e

pub kept_name-injective : (date : Bytes) (a b : ℕ) → kept_name date a ≡ kept_name date b → a ≡ b
kept_name-injective date a b e =
    sym (number_of a) ∙ (ap (λ s. digits_value 0 (drop (length date + 1) s)) e ∙ number_of b)
  where
    number_of : (n : ℕ) → digits_value 0 (drop (length date + 1) (kept_name date n)) ≡ n
    number_of n =
        ap (digits_value 0) (drop_behind date b'_' (decimal n ++ codes ".log"))
        ∙ digits_value-decimal n b'.' (codes "log") refl

take_long : (n : ℕ) (s : Bytes) → length s ≤ n → take n s ≡ s
take_long zero [] h = refl
take_long zero (c ∷ s) h = absurd (omega arith)
take_long (suc n) [] h = refl
take_long (suc n) (c ∷ s) h = ap (λ r. c ∷ r) (take_long n s (omega arith))

-- The powers of ten.
abbrev pub pow10 : ℕ → ℕ
pow10 zero = 1
pow10 (suc k) = 10 * pow10 k

length-decimal_fuel : (k f n : ℕ) → n < pow10 (suc k) → length (decimal_fuel f n) ≤ suc k
unfolding decimal_fuel
length-decimal_fuel k zero n h = omega arith
length-decimal_fuel zero (suc f) n h = ground arith
length-decimal_fuel (suc k) (suc f) n h =
    let shorter : n / 10 < pow10 (suc k) = omega arith in
    ground (
      arith,
      length-decimal_fuel k f (n / 10) shorter,
      length-append (decimal_fuel f (n / 10)) ((b'0' + n % 10) ∷ []),
    )

-- The next number behind an int that is not the largest has ten digits at most.
pub next_int : (n : ℕ) → n < int_max → n + 1 < pow10 10
next_int n h = omega arith

pub length-decimal : (n : ℕ) → n < pow10 10 → length (decimal n) ≤ 10
unfolding decimal
length-decimal n h = length-decimal_fuel 9 (suc n) n h

-- Names of a date of ten bytes fit their buffer.
pub numbered-path_of :
    (date : Bytes) (id : ℕ)
    → length date ≡ 10
    → id < pow10 10
    → numbered 512 date id ≡ path_of (kept_name date id)
numbered-path_of date id e h =
    take_long 510 (path_of (kept_name date id)) (grind (sizes, length-decimal id h))

pub path_of-differs : (a b : Bytes) → a ≢ b → bytes_eq (path_of a) (path_of b) ≡ false
path_of-differs a b h = elim (Bool-cases (bytes_eq (path_of a) (path_of b))) [
  | inl e ↦ absurd (h (path_of-injective a b ((bytes_eq_iff (path_of a) (path_of b)).0 e)))
  | inr e ↦ e
]

abbrev pub current_name : Bytes → Bytes
current_name date = date ++ codes ".log"

-- A numbered name is longer than that of a current file.
pub kept_name-current_name :
    (date d : Bytes) (k : ℕ)
    → length date ≡ 10
    → length d ≡ 10
    → bytes_eq (path_of (kept_name date k)) (path_of (current_name d)) ≡ false
kept_name-current_name date d k e g =
    path_of-differs (kept_name date k) (current_name d) (λ h.
      omega (arith, length-kept_name date k, length-append d (codes ".log"), ap (length {0}) h))

pub current_name-kept_name :
    (date d : Bytes) (k : ℕ)
    → length date ≡ 10
    → length d ≡ 10
    → bytes_eq (path_of (current_name d)) (path_of (kept_name date k)) ≡ false
current_name-kept_name date d k e g =
    path_of-differs (current_name d) (kept_name date k) (λ h.
      omega (arith, length-kept_name date k, length-append d (codes ".log"), ap (length {0}) h))

pub kept_name-differs :
    (date : Bytes) (a b : ℕ)
    → a ≢ b
    → bytes_eq (path_of (kept_name date a)) (path_of (kept_name date b)) ≡ false
kept_name-differs date a b h =
    path_of-differs (kept_name date a) (kept_name date b) (λ e. h (kept_name-injective date a b e))
