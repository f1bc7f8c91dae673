-- ===== src/Debresolve/OldVersions.antt =====
-- Which directory of an archive of the old format daemon/debresolve.c moves files up from.
use isoft_package_installer.Base.{
  ◌==◌, if◌then◌else◌, Bytes, codes, ℕ, zero, suc, ◌*◌, ◌/◌, ◌%◌, ◌≤◌, ◌<◌, ◌≡◌, refl, ap, ◌∙◌, ◌↔◌,
  ◌⊎◌, inl, inr, Bool, true, false, not, ◌&&◌, Option, none, some, arith, subst, ◌||◌,
}
use isoft_package_installer.Debresolve.Extract.{strip_zeros, control_directory}

-- The number with zeros behind its decimal digits.
abbrev pub with_zeros : ℕ → ℕ → ℕ
with_zeros n zero = n
with_zeros n (suc j) = 10 * with_zeros n j

abbrev pub IsZeroed : ℕ → ℕ → Type 0
IsZeroed n minor = (j : ℕ) × (minor ≡ with_zeros n j)

with_zeros-gt : (n j : ℕ) → 0 < n → j < with_zeros n j
with_zeros-gt n zero h = h
with_zeros-gt n (suc j) h = omega (arith, with_zeros-gt n j h)

strip_zeros-with_zeros :
    (n j f : ℕ) → 0 < n → (n % 10 == 0) ≡ false → j ≤ f → strip_zeros f (with_zeros n j) ≡ n
unfolding strip_zeros
strip_zeros-with_zeros n zero zero h e le = refl
strip_zeros-with_zeros n zero (suc f) h e le = ground (arith, e)
strip_zeros-with_zeros n (suc j) zero h e le = absurd (omega arith)
strip_zeros-with_zeros n (suc j) (suc f) h e le =
    let x = with_zeros n j in
    let shorter : 10 * x / 10 ≡ x = omega arith in
    let ends : (not (10 * x == 0) && (10 * x % 10 == 0)) ≡ true =
      ground (arith, with_zeros-gt n j h) in
    rw ends (rw shorter (strip_zeros-with_zeros n j f h e (omega arith)))

strip_zeros-IsZeroed : (f minor : ℕ) → IsZeroed (strip_zeros f minor) minor
unfolding strip_zeros
strip_zeros-IsZeroed zero minor = (0, refl)
strip_zeros-IsZeroed (suc f) minor =
    by_digit (not (minor == 0) && (minor % 10 == 0)) refl (strip_zeros-IsZeroed f (minor / 10))
  where
    by_digit :
        (b : Bool)
        → (not (minor == 0) && (minor % 10 == 0)) ≡ b
        → IsZeroed (strip_zeros f (minor / 10)) (minor / 10)
        → IsZeroed (if b then strip_zeros f (minor / 10) else minor) minor
    by_digit true e (j, h) =
        let tenfold : minor ≡ 10 * (minor / 10) = ground arith in
        (suc j, tenfold ∙ ap (λ x. 10 * x) h)
    by_digit false e z = (0, refl)

-- The files are moved up from `.DEBIAN` exactly for 0.931, and from `DEBIAN` exactly for 0.932 and
-- 0.933, each with any zeros behind.
abbrev pub IsOldDirectory : ℕ × ℕ → Option Bytes → Type 0
IsOldDirectory v moved =
    ((moved ≡ some (codes ".DEBIAN")) ↔ ((v.0 ≡ 0) × IsZeroed 931 v.1))
    × ((moved ≡ some (codes "DEBIAN")) ↔ ((v.0 ≡ 0) × (IsZeroed 932 v.1 ⊎ IsZeroed 933 v.1)))

abbrev of_minor : Bool → ℕ → Option Bytes
of_minor is_old m =
    if not (is_old && true)
    then none
    else if m == 931
    then some (codes ".DEBIAN")
    else if (m == 932) || (m == 933)
    then some (codes "DEBIAN")
    else none

module _ (major minor : ℕ) where
  stripped :
      (n : ℕ) → 0 < n → (n % 10 == 0) ≡ false → IsZeroed n minor → strip_zeros minor minor ≡ n
  stripped n h e (j, z) =
      ap (λ x. strip_zeros x x) z
      ∙ strip_zeros-with_zeros n j (with_zeros n j) h e (omega (arith, with_zeros-gt n j h))

  zeroed : (n : ℕ) → strip_zeros minor minor ≡ n → IsZeroed n minor
  zeroed n e = subst (λ m. IsZeroed m minor) e (strip_zeros-IsZeroed minor minor)

  is_931 :
      (is_old : Bool) (m : ℕ)
      → of_minor is_old m ≡ some (codes ".DEBIAN")
      → (is_old ≡ true) × (m ≡ 931)
  is_931 is_old m h = ground arith

  is_later :
      (is_old : Bool) (m : ℕ)
      → of_minor is_old m ≡ some (codes "DEBIAN")
      → (is_old ≡ true) × ((m ≡ 932) ⊎ (m ≡ 933))
  is_later is_old m h = ground arith

  of_minor-old :
      (n : ℕ)
      → major ≡ 0
      → strip_zeros minor minor ≡ n
      → of_minor (major == 0) (strip_zeros minor minor) ≡ of_minor true n
  of_minor-old n e f = rw e (rw f refl)

  pub control_directory-IsOldDirectory :
      IsOldDirectory (major, minor) (control_directory true (major, minor))
  unfolding control_directory
  control_directory-IsOldDirectory = (
    (
      λ h.
          let (old, m) = is_931 (major == 0) (strip_zeros minor minor) h in
          (ground (arith, old), zeroed 931 m),
      λ h. of_minor-old 931 h.0 (stripped 931 (omega arith) refl h.1),
    ),
    (
      λ h.
          let (old, m) = is_later (major == 0) (strip_zeros minor minor) h in
          (ground (arith, old), elim m [ inl e ↦ inl (zeroed 932 e) | inr e ↦ inr (zeroed 933 e) ]),
      λ h. elim h.1 [
        | inl z ↦ of_minor-old 932 h.0 (stripped 932 (omega arith) refl z)
        | inr z ↦ of_minor-old 933 h.0 (stripped 933 (omega arith) refl z)
      ],
    ),
  )
