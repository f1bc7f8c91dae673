-- ===== src/Base/Lists.antt =====
-- Lists measured and cut by native numbers, under the library's names.
use Prim.Native.Nat.{ℕ, zero, suc, ◌+◌, ◌≤◌}
use mathlib.Core.Path.{◌≡◌, refl, ap}
use mathlib.Core.Option.{Option, none, some}
use mathlib.Core.List.{List, [], ◌∷◌, ◌++◌}
use native.Mathlib.Omega.{arith}

module _ {ℓ} {A : Type ℓ} where
  abbrev pub length : List A → ℕ
  length [] = 0
  length (x ∷ xs) = suc (length xs)

  abbrev pub take : ℕ → List A → List A
  take zero xs = []
  take (suc n) [] = []
  take (suc n) (x ∷ xs) = x ∷ take n xs

  abbrev pub drop : ℕ → List A → List A
  drop zero xs = xs
  drop (suc n) [] = []
  drop (suc n) (x ∷ xs) = drop n xs

  abbrev pub get_elem? : List A → ℕ → Option A
  get_elem? [] i = none
  get_elem? (x ∷ xs) zero = some x
  get_elem? (x ∷ xs) (suc i) = get_elem? xs i

  -- A write out of bounds changes nothing.
  abbrev pub set : List A → ℕ → A → List A
  set [] i v = []
  set (x ∷ xs) zero v = v ∷ xs
  set (x ∷ xs) (suc i) v = x ∷ set xs i v

  -- The sum of a weight over the members.
  unfoldable pub sum_by : (A → ℕ) → List A → ℕ
  sum_by w [] = 0
  sum_by w (x ∷ xs) = w x + sum_by w xs

  -- Every member has the property.
  abbrev pub All {κ} : (A → Type κ) → List A → Type κ
  All P [] = Unit
  All P (x ∷ xs) = P x × All P xs

module _ {ℓ} {A : Type ℓ} where
  pub length-append : (xs ys : List A) → length (xs ++ ys) ≡ length xs + length ys
  length-append [] ys = omega arith
  length-append (x ∷ xs) ys = omega (arith, length-append xs ys)

  pub take-append_length : (xs ys : List A) → take (length xs) (xs ++ ys) ≡ xs
  take-append_length [] ys = refl
  take-append_length (x ∷ xs) ys = ap (λ r. x ∷ r) (take-append_length xs ys)

  pub drop-append_length : (xs ys : List A) → drop (length xs) (xs ++ ys) ≡ ys
  drop-append_length [] ys = refl
  drop-append_length (x ∷ xs) ys = drop-append_length xs ys

  pub drop-append_eq : (n : ℕ) (xs ys : List A) → n ≡ length xs → drop n (xs ++ ys) ≡ ys
  drop-append_eq n xs ys e = rw e (drop-append_length xs ys)

  pub take-append_eq : (n : ℕ) (xs ys : List A) → n ≡ length xs → take n (xs ++ ys) ≡ xs
  take-append_eq n xs ys e = rw e (take-append_length xs ys)

  pub All-append {κ} : (P : A → Type κ) (xs ys : List A) → All P xs → All P ys → All P (xs ++ ys)
  All-append P [] ys _ k = k
  All-append P (x ∷ xs) ys h k = (h.0, All-append P xs ys h.1 k)

  pub sum_by-append : (w : A → ℕ) (xs ys : List A) → sum_by w (xs ++ ys) ≡ sum_by w xs + sum_by w ys
  unfolding sum_by
  sum_by-append w [] ys = omega arith
  sum_by-append w (x ∷ xs) ys = omega (arith, sum_by-append w xs ys)

  pub sum_by-snoc : (w : A → ℕ) (xs : List A) (x : A) → sum_by w (xs ++ x ∷ []) ≡ sum_by w xs + w x
  unfolding sum_by
  sum_by-snoc w [] x = omega arith
  sum_by-snoc w (y ∷ xs) x = omega (arith, sum_by-snoc w xs x)

  -- A write moves the sum by the difference of the two weights.
  pub sum_by-set :
      (w : A → ℕ) (xs : List A) (i : ℕ) (old v : A)
      → get_elem? xs i ≡ some old
      → sum_by w (set xs i v) + w old ≡ sum_by w xs + w v
  unfolding sum_by
  sum_by-set w [] i old v h = cc
  sum_by-set w (x ∷ xs) zero old v h = let e : x ≡ old = cc in rw e (omega arith)
  sum_by-set w (x ∷ xs) (suc i) old v h = omega (arith, sum_by-set w xs i old v h)

  pub weight-le-sum_by :
      (w : A → ℕ) (xs : List A) (i : ℕ) (x : A) → get_elem? xs i ≡ some x → w x ≤ sum_by w xs
  unfolding sum_by
  weight-le-sum_by w [] i x h = cc
  weight-le-sum_by w (y ∷ xs) zero x h = let e : y ≡ x = cc in rw e (omega arith)
  weight-le-sum_by w (y ∷ xs) (suc i) x h = omega (arith, weight-le-sum_by w xs i x h)

  pub get_elem?-append_length :
      (xs : List A) (x : A) (ys : List A) → get_elem? (xs ++ x ∷ ys) (length xs) ≡ some x
  get_elem?-append_length [] x ys = refl
  get_elem?-append_length (y ∷ xs) x ys = get_elem?-append_length xs x ys

  pub set-append_length :
      (xs : List A) (x v : A) (ys : List A) → set (xs ++ x ∷ ys) (length xs) v ≡ xs ++ v ∷ ys
  set-append_length [] x v ys = refl
  set-append_length (y ∷ xs) x v ys = ap (λ r. y ∷ r) (set-append_length xs x v ys)

  pub get_elem?-append_suc-length :
      (xs : List A) (x y : A) → get_elem? (xs ++ x ∷ y ∷ []) (suc (length xs)) ≡ some y
  get_elem?-append_suc-length [] x y = refl
  get_elem?-append_suc-length (z ∷ xs) x y = get_elem?-append_suc-length xs x y

  pub set-append_suc-length :
      (xs : List A) (x y v : A) → set (xs ++ x ∷ y ∷ []) (suc (length xs)) v ≡ xs ++ x ∷ v ∷ []
  set-append_suc-length [] x y v = refl
  set-append_suc-length (z ∷ xs) x y v = ap (λ r. z ∷ r) (set-append_suc-length xs x y v)

  pub get_elem?-append :
      (xs ys : List A) (i : ℕ) (x : A) → get_elem? xs i ≡ some x → get_elem? (xs ++ ys) i ≡ some x
  get_elem?-append [] ys i x h = cc
  get_elem?-append (y ∷ xs) ys zero x h = h
  get_elem?-append (y ∷ xs) ys (suc i) x h = get_elem?-append xs ys i x h
