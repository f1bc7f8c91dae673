-- ===== src/Debresolve/Fuel.antt =====
-- The rounds of the loop of `extracthalf` of daemon/debresolve.c.
use isoft_package_installer.Base.{
  ltb, if◌then◌else◌, Bytes, length, take, drop, ℕ, zero, suc, ◌≤◌, ◌<◌, ◌≡◌, refl, Bool, true,
  false, Option, none, some, [], ◌∷◌, arith,
}
use isoft_package_installer.Debresolve.Members.{
  Libdpkg, header_size, padded, Seen, Member, Round, fail, next, found, round, members,
}
use isoft_package_installer.Debresolve.Reading.{length-drop}

length-drop-le : (n : ℕ) (s : Bytes) → length (drop n s) ≤ length s
length-drop-le zero s = omega arith
length-drop-le (suc n) [] = omega arith
length-drop-le (suc n) (c ∷ s) = omega (arith, length-drop-le n s)

-- Behind a header there are fewer bytes.
drop-header_size :
    (n : ℕ) (left : Bytes)
    → ltb (length left) header_size ≡ false
    → length (drop n (drop header_size left)) < length left
drop-header_size n left long =
    let enough : header_size ≤ length left = ground arith in
    omega (arith, length-drop-le n (drop header_size left), length-drop header_size left, enough)

module _ (k : Libdpkg) (wants_admin : Bool) where
  -- Two runs come to the same end.
  abbrev BothEnd : Option (Option Member) → Option (Option Member) → Type 0
  BothEnd x y = (r : Option Member) × (x ≡ some r) × (y ≡ some r)

  members_two_fuels :
      (f g : ℕ) (s : Seen) (left : Bytes)
      → length left < f
      → length left < g
      → BothEnd (members k wants_admin f s left) (members k wants_admin g s left)
  unfolding members
  members_two_fuels zero g s left lt lg = absurd (omega arith)
  members_two_fuels (suc f) zero s left lt lg = absurd (omega arith)
  members_two_fuels (suc f) (suc g) s left lt lg =
      let body = drop header_size left in
      let size = padded (k.member_size (take header_size left)) in
      if_long (ltb (length left) header_size) (λ long.
        let fewer = drop-header_size size left long in
        at_round
          (λ t.
            members_two_fuels f g t (drop size body) (omega (arith, fewer)) (omega (arith, fewer)))
          (round k wants_admin s (take header_size left) body))
    where
      at_round :
          {x y : Seen → Option (Option Member)}
          → ((t : Seen) → BothEnd (x t) (y t))
          → (r : Round)
          → BothEnd
              (elim r [ fail ↦ some none | found m ↦ some (some m) | next t ↦ x t ])
              (elim r [ fail ↦ some none | found m ↦ some (some m) | next t ↦ y t ])
      at_round e fail = (none, refl, refl)
      at_round e (found m) = (some m, refl, refl)
      at_round e (next t) = e t

      if_long :
          {x y : Option (Option Member)} (b : Bool)
          → (b ≡ false → BothEnd x y)
          → BothEnd (if b then some none else x) (if b then some none else y)
      if_long true e = (none, refl, refl)
      if_long false e = e refl

  -- The loop over the members ends: from any state of its variables and for any bytes, well formed
  -- or not, more rounds than bytes are enough for it to come to a member or to the failure -1, and
  -- the number of rounds that the code is given comes to the same.
  pub members-fuel :
      (f : ℕ) (s : Seen) (left : Bytes)
      → length left < f
      → (r : Option Member) × (members k wants_admin f s left ≡ some r)
        × (members k wants_admin (suc (length left)) s left ≡ some r)
  members-fuel f s left lt = members_two_fuels f (suc (length left)) s left lt (omega arith)
