-- ===== src/Base/Strstr.antt =====
-- What strstr finds.
use isoft_package_installer.Base.{
  ℕ, zero, suc, ◌+◌, ◌≤◌, ◌≡◌, refl, ap, true, false, none, some, [], ◌∷◌, ◌++◌, Bytes, strstr,
  starts_with, append-drop_of_prefix, length, take, drop, arith, Bool-cases, Option-cases, ◌≢◌, inl,
  inr, ◌⊎◌,
}

pub length_of_prefix : (p s : Bytes) → starts_with p s ≡ true → length p ≤ length s
unfolding starts_with
length_of_prefix [] s h = omega arith
length_of_prefix (x ∷ p) [] h = cc
length_of_prefix (x ∷ p) (y ∷ s) h = ground (arith, length_of_prefix p s)

starts_with-take : (p s : Bytes) (k : ℕ) → starts_with p (take k s) ≡ true → starts_with p s ≡ true
unfolding starts_with
starts_with-take [] s k h = refl
starts_with-take (x ∷ p) s zero h = cc
starts_with-take (x ∷ p) [] (suc k) h = cc
starts_with-take (x ∷ p) (y ∷ s) (suc k) h = ground (arith, starts_with-take p s k)

strstr_inv :
    (n : Bytes) (x : ℕ) (s : Bytes) (k : ℕ)
    → strstr n (x ∷ s) ≡ some k
    → ((starts_with n (x ∷ s) ≡ true) × (k ≡ 0))
      ⊎ ((j : ℕ) × (starts_with n (x ∷ s) ≡ false) × (k ≡ suc j) × (strstr n s ≡ some j))
unfolding strstr
strstr_inv n x s k h = elim (Bool-cases (starts_with n (x ∷ s))) [
  | inl here ↦ inl (here, ground arith)
  | inr later ↦ elim (Option-cases (strstr n s)) [
    | inl missing ↦ absurd (ground arith)
    | inr (j, found) ↦ inr (j, later, ground arith, found)
  ]
]

split_here : (n s : Bytes) → starts_with n s ≡ true → n ++ drop (0 + length n) s ≡ s
split_here n s h =
    let e : 0 + length n ≡ length n = omega arith in rw e (append-drop_of_prefix n s h)

-- The text in front of the occurrence, the needle and the text behind it make up the text.
pub strstr-split :
    (n s : Bytes) (k : ℕ) → strstr n s ≡ some k → take k s ++ (n ++ drop (k + length n) s) ≡ s
unfolding strstr
strstr-split [] [] zero h = refl
strstr-split [] [] (suc k) h = ground arith
strstr-split (y ∷ n) [] k h = ground arith
strstr-split n (x ∷ s) k h = elim (strstr_inv n x s k h) [
  | inl (here, e) ↦ rw e (split_here n (x ∷ s) here)
  | inr (j, _, e, found) ↦
      let shift : k + length n ≡ suc (j + length n) = omega arith in
      rw (shift, e) (ap (λ r. x ∷ r) (strstr-split n s j found))
]

-- No occurrence lies in front of the first.
pub strstr-take : (n s : Bytes) (k : ℕ) → n ≢ [] → strstr n s ≡ some k → strstr n (take k s) ≡ none
unfolding strstr
strstr-take [] s k h e = absurd (h refl)
strstr-take (y ∷ n) [] k h e = ground arith
strstr-take (y ∷ n) (x ∷ s) k h e = elim (strstr_inv (y ∷ n) x s k e) [
  | inl (here, e0) ↦ rw e0
  | inr (j, later, e1, found) ↦
      rw e1 (ground (arith, strstr-take (y ∷ n) s j h found, starts_with-take n s j))
]
