-- ===== src/Package/Dependencies.antt =====
-- The table of dependency sets as a relation between tags and dependencies.
use isoft_package_installer.Base.{
  ◌==◌, if◌then◌else◌, ℕ, ◌≡◌, refl, ◌≢◌, Bool, false, ◌&&◌, ◌||◌, Option, none, some, List, [],
  ◌∷◌, arith, starts_with, true, not,
}
use isoft_package_installer.Package.{
  package_dependencies, merge_at, Package, rpmlib_prefix, add_req_prov,
}
use isoft_package_installer.Rpm.{Dependency, Rpm, IsLawful, Tag, number, same_tag}

module _ (R : Rpm) where
  open R use {ds_tag_n, ds_single, ds_merge, ds_holds}

  abbrev Slots : Type 0
  Slots = List (Option R.Ds)

  -- The dependency stands in a set of the tag.
  pub holds : Slots → ℕ → Dependency → Bool
  holds [] tag x = false
  holds (none ∷ s) tag x = holds s tag x
  holds (some d ∷ s) tag x = ((ds_tag_n d == tag) && ds_holds d x) || holds s tag x

  abbrev AllFree : Slots → Type 0
  AllFree [] = Unit
  AllFree (none ∷ s) = AllFree s
  AllFree (some d ∷ s) = ⊥

  abbrev Lacks : ℕ → Slots → Type 0
  Lacks tag [] = Unit
  Lacks tag (none ∷ s) = Lacks tag s
  Lacks tag (some d ∷ s) = (ds_tag_n d ≢ tag) × Lacks tag s

  -- The used slots stand in front, each tag has one, and none has the tag 0.
  abbrev pub IsTable : Slots → Type 0
  IsTable [] = Unit
  IsTable (none ∷ s) = AllFree s
  IsTable (some d ∷ s) = (ds_tag_n d ≢ 0) × Lacks (ds_tag_n d) s × IsTable s

  -- What the address arithmetic does, by recursion on the table.
  put : Slots → ℕ → R.Ds → Slots
  put [] tag new = []
  put (none ∷ s) tag new = some (ds_merge none new) ∷ s
  put (some d ∷ s) tag new =
      if (ds_tag_n d == tag) || (ds_tag_n d == 0)
      then some (ds_merge (some d) new) ∷ s
      else some d ∷ put s tag new

  merge_at-put :
      (s : Slots) (tag : ℕ) (new : R.Ds)
      → merge_at R (package_dependencies R s tag) new s ≡ put s tag new
  unfolding merge_at package_dependencies put
  merge_at-put [] tag new = refl
  merge_at-put (none ∷ s) tag new = refl
  merge_at-put (some d ∷ s) tag new = ground (arith, merge_at-put s tag new)

  room_tail :
      (d : R.Ds) (s : Slots) (tag : ℕ)
      → ds_tag_n d ≢ tag
      → ds_tag_n d ≢ 0
      → package_dependencies R (some d ∷ s) tag ≢ none
      → package_dependencies R s tag ≢ none
  unfolding package_dependencies
  room_tail d s tag h z r e = r (ground arith)

  Lacks-free : (s : Slots) (t : ℕ) → AllFree s → Lacks t s
  Lacks-free [] t h = tt
  Lacks-free (none ∷ s) t h = Lacks-free s t h
  Lacks-free (some d ∷ s) t h = absurd h

  IsTable-free : (s : Slots) → AllFree s → IsTable s
  IsTable-free [] h = tt
  IsTable-free (none ∷ s) h = h
  IsTable-free (some d ∷ s) h = absurd h

  module _ (L : IsLawful R) (tag : ℕ) (new : R.Ds) (named : ds_tag_n new ≡ tag)
      (valid : tag ≢ 0) where
    holds_free : (s : Slots) (t : ℕ) (x : Dependency) → AllFree s → holds s t x ≡ false
    unfolding holds
    holds_free [] t x h = refl
    holds_free (none ∷ s) t x h = holds_free s t x h
    holds_free (some d ∷ s) t x h = absurd h

    holds-put :
        (s : Slots) (t : ℕ) (x : Dependency)
        → IsTable s
        → package_dependencies R s tag ≢ none
        → holds (put s tag new) t x ≡ (holds s t x || ((tag == t) && ds_holds new x))
    unfolding holds put package_dependencies
    holds-put [] t x v r = absurd (r refl)
    holds-put (none ∷ s) t x v r =
        ground (arith, L.tag_n-merge_none new, L.holds-merge_none new x, holds_free s t x v)
    holds-put (some d ∷ s) t x v r = ground (
      arith,
      L.tag_n-merge_some d new,
      L.holds-merge_some d new x,
      holds-put s t x v.2,
      room_tail d s tag,
    )

    Lacks-put : (s : Slots) (t : ℕ) → t ≢ tag → Lacks t s → Lacks t (put s tag new)
    unfolding put
    Lacks-put [] t h l = tt
    Lacks-put (none ∷ s) t h l = (ground (arith, L.tag_n-merge_none new), l)
    Lacks-put (some d ∷ s) t h l = ground (arith, L.tag_n-merge_some d new, Lacks-put s t h l.1)

    put-IsTable : (s : Slots) → IsTable s → IsTable (put s tag new)
    unfolding put
    put-IsTable [] v = tt
    put-IsTable (none ∷ s) v = (
      ground (arith, L.tag_n-merge_none new),
      Lacks-free s (ds_tag_n (ds_merge none new)) v,
      IsTable-free s v,
    )
    put-IsTable (some d ∷ s) v =
        ground (arith, L.tag_n-merge_some d new, Lacks-put s (ds_tag_n d), put-IsTable s v.2)

  number_valid : (t : Tag) → number t ≢ 0
  number_valid Tag.name = omega arith
  number_valid _ = omega arith

  -- The dependency that `addReqProv` files: one on a feature of rpmlib gets its flag.
  abbrev filed : Dependency → Dependency
  filed x =
      if starts_with rpmlib_prefix x.name
      then record x { sense = record { equal = x.sense.equal; less = x.sense.less; rpmlib = true } }
      else x

  -- A dependency on rpmlib that is not a requirement.
  abbrev pub refused : Tag → Dependency → Bool
  refused tag x = starts_with rpmlib_prefix x.name && not (same_tag tag Tag.requirename)

  add_req_prov-dependencies :
      (pkg : Package R) (tag : Tag) (x : Dependency)
      → refused tag x ≡ false
      → (add_req_prov R pkg tag x).0.dependencies
        ≡ put pkg.dependencies (number tag) (ds_single tag (filed x))
  unfolding add_req_prov
  add_req_prov-dependencies pkg tag x a =
      ground (arith, merge_at-put pkg.dependencies (number tag) (ds_single tag (filed x)))

  -- `addReqProv` on a well-formed table that has a slot for the tag, of a dependency that is a
  -- requirement or is not on rpmlib: the table stays well-formed, and it holds, under every tag,
  -- what it held and, under the given tag alone, what the new set of the dependency holds.
  pub add_req_prov-holds :
      (L : IsLawful R) (pkg : Package R) (tag : Tag) (x : Dependency)
      → IsTable pkg.dependencies
      → package_dependencies R pkg.dependencies (number tag) ≢ none
      → refused tag x ≡ false
      → let after = (add_req_prov R pkg tag x).0.dependencies in
        IsTable after
        × ((t : ℕ) (y : Dependency)
            → holds after t y ≡ (
                holds pkg.dependencies t y
                || ((number tag == t) && ds_holds (ds_single tag (filed x)) y)))
  add_req_prov-holds L pkg tag x v r a =
      let new = ds_single tag (filed x) in
      let named = L.tag_n-single tag (filed x) in
      rw (add_req_prov-dependencies pkg tag x a) (
        put-IsTable L (number tag) new named (number_valid tag) pkg.dependencies v,
        λ t y. holds-put L (number tag) new named (number_valid tag) pkg.dependencies t y v r,
      )
