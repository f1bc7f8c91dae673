-- ===== src/Base/Decimal.antt =====
-- Numbers in decimal: `%d` of a number that is not negative, and atoi.
use Prim.Native.Nat.{ℕ, zero, suc, ◌+◌, ◌-◌, ◌*◌, ◌/◌, ◌%◌, ◌<◌}
use mathlib.Core.Path.{◌≡◌, refl, ◌∙◌, ap}
use mathlib.Core.Logic.{inl, inr}
use mathlib.Core.Bool.{Bool, true, false, ◌&&◌, ◌||◌}
use mathlib.Core.Option.{Option, none, some}
use mathlib.Core.List.{[], ◌∷◌, ◌++◌}
use native.Mathlib.Omega.{arith}
use isoft_package_installer.Base.Tests.{ltb, leb, ◌==◌, if◌then◌else◌, Bool-cases}
use isoft_package_installer.Base.Lists.{All}
use isoft_package_installer.Base.Text.{Bytes}

abbrev pub is_digit : ℕ → Bool
is_digit c = leb b'0' c && leb c b'9'

unfoldable pub decimal_fuel : ℕ → ℕ → Bytes
decimal_fuel zero n = []
decimal_fuel (suc f) n =
    let front = decimal_fuel f (n / 10) in
    (if ltb n 10 then [] else front) ++ ((b'0' + n % 10) ∷ [])

-- `%d`
unfoldable pub decimal : ℕ → Bytes
unfolding decimal_fuel
decimal n = decimal_fuel (suc n) n

-- The digits of atoi, behind blanks and a sign.
unfoldable pub digits_value : ℕ → Bytes → ℕ
digits_value acc [] = acc
digits_value acc (c ∷ s) =
    let rest = digits_value (acc * 10 + (c - b'0')) s in if is_digit c then rest else acc

abbrev is_space : ℕ → Bool
is_space c = c == b' ' || (leb 9 c && leb c 13)

-- The largest int, which has 32 bits.
abbrev pub int_max : ℕ
int_max = 2147483647

abbrev pub within_int : ℕ → Option ℕ
within_int n = if ltb int_max n then none else some n

-- atoi, with 0 for a negative number; `none` where the number is no int, which is undefined.
unfoldable pub atoi : Bytes → Option ℕ
unfolding digits_value
atoi [] = some 0
atoi (c ∷ s) =
    let rest = atoi s in
    if is_space c
    then rest
    else if c == b'-'
    then (if ltb (suc int_max) (digits_value 0 s) then none else some 0)
    else if c == b'+'
    then within_int (digits_value 0 s)
    else within_int (digits_value 0 (c ∷ s))

value : ℕ → Bytes → ℕ
value acc [] = acc
value acc (c ∷ s) = value (acc * 10 + (c - b'0')) s

value-snoc : (acc : ℕ) (s : Bytes) (c : ℕ) → value acc (s ++ c ∷ []) ≡ value acc s * 10 + (c - b'0')
unfolding value
value-snoc acc [] c = refl
value-snoc acc (x ∷ s) c = value-snoc (acc * 10 + (x - b'0')) s c

abbrev pub IsNumeric : Bytes → Type 0
IsNumeric s = All (λ c. is_digit c ≡ true) s

IsNumeric-snoc : (s : Bytes) (c : ℕ) → IsNumeric s → is_digit c ≡ true → IsNumeric (s ++ c ∷ [])
IsNumeric-snoc [] c h d = (d, tt)
IsNumeric-snoc (x ∷ s) c h d = (h.0, IsNumeric-snoc s c h.1 d)

digit_lem : (n : ℕ) → is_digit (b'0' + n % 10) ≡ true
digit_lem n = ground arith

decimal_fuel-IsNumeric : (f n : ℕ) → IsNumeric (decimal_fuel f n)
unfolding decimal_fuel
decimal_fuel-IsNumeric zero n = tt
decimal_fuel-IsNumeric (suc f) n = elim (Bool-cases (ltb n 10)) [
  | inl small ↦ rw small (digit_lem n, tt)
  | inr large ↦ rw large (
      IsNumeric-snoc (decimal_fuel f (n / 10)) (b'0' + n % 10) (decimal_fuel-IsNumeric f (n / 10))
        (digit_lem n))
]

pub decimal-IsNumeric : (n : ℕ) → IsNumeric (decimal n)
unfolding decimal
decimal-IsNumeric n = decimal_fuel-IsNumeric (suc n) n

value-decimal_fuel : (f n : ℕ) → n < f → value 0 (decimal_fuel f n) ≡ n
unfolding decimal_fuel value
value-decimal_fuel zero n h = elim h [ ]
value-decimal_fuel (suc f) n h = elim (Bool-cases (ltb n 10)) [
  | inl small ↦ rw small (ground arith)
  | inr large ↦ rw large (
      value-snoc 0 (decimal_fuel f (n / 10)) (b'0' + n % 10)
      ∙ ground (arith, value-decimal_fuel f (n / 10)))
]

-- The digits up to a byte that is none.
digits_value-append :
    (acc : ℕ) (s : Bytes) (c : ℕ) (t : Bytes)
    → IsNumeric s
    → is_digit c ≡ false
    → digits_value acc (s ++ c ∷ t) ≡ value acc s
unfolding digits_value value
digits_value-append acc [] c t h e = rw e
digits_value-append acc (x ∷ s) c t h e =
    rw h.0 (digits_value-append (acc * 10 + (x - b'0')) s c t h.1 e)

pub digits_value-decimal :
    (n c : ℕ) (t : Bytes) → is_digit c ≡ false → digits_value 0 (decimal n ++ c ∷ t) ≡ n
unfolding decimal
digits_value-decimal n c t e =
    digits_value-append 0 (decimal n) c t (decimal-IsNumeric n) e
    ∙ value-decimal_fuel (suc n) n (omega arith)

atoi-snoc :
    (s : Bytes) (d c : ℕ) (t : Bytes)
    → IsNumeric s
    → is_digit d ≡ true
    → is_digit c ≡ false
    → atoi ((s ++ d ∷ []) ++ c ∷ t) ≡ within_int (value 0 (s ++ d ∷ []))
unfolding atoi
atoi-snoc [] d c t h k e = ground (arith, digits_value-append 0 (d ∷ []) c t (k, tt) e)
atoi-snoc (x ∷ s) d c t h k e =
    ground
      (arith, h.0, digits_value-append 0 (x ∷ (s ++ d ∷ [])) c t (h.0, IsNumeric-snoc s d h.1 k) e)

-- A number that is printed and followed by a byte that is no digit is read back, if it is an int.
pub atoi-decimal :
    (n c : ℕ) (t : Bytes) → is_digit c ≡ false → atoi (decimal n ++ c ∷ t) ≡ within_int n
unfolding decimal
atoi-decimal n c t e = elim (Bool-cases (ltb n 10)) [
  | inl small ↦ rw small (
      atoi-snoc [] (b'0' + n % 10) c t tt (digit_lem n) e
      ∙ ap within_int (rw small at (value-decimal_fuel (suc n) n (omega arith))))
  | inr large ↦ rw large (
      atoi-snoc (decimal_fuel n (n / 10)) (b'0' + n % 10) c t (decimal_fuel-IsNumeric n (n / 10))
        (digit_lem n) e
      ∙ ap within_int (rw large at (value-decimal_fuel (suc n) n (omega arith))))
]
