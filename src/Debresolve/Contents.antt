-- ===== src/Debresolve/Contents.antt =====
-- What `deb_extract` and `deb_control` unpack of a .deb file.
use isoft_package_installer.Base.{
  Bytes, length, take, All, length-append, ℕ, zero, suc, ◌≤◌, ◌≡◌, refl, ap, List, [], ◌∷◌, ◌++◌,
  arith, ltb, if◌then◌else◌, subst, true, false, none, some, All-append, ◌+◌, ◌-◌, ◌∙◌, Bool, sizes,
}
use isoft_package_installer.Debresolve.Members.{
  Libdpkg, debmagic, adminmember, datamember, padded, read_version, allowed_for_control, is_known,
  Member, members, nothing_seen, version_of,
}
use isoft_package_installer.Debresolve.Archive.{
  Item, encode, IsWritten, IsNoncritical, onward, step_judged, begun, members_noncritical,
  round_first, past_control, round_control_wanted, round_control_skipped, round_data,
}

pub take-append-le : (n : ℕ) (s t : Bytes) → n ≤ length s → take n (s ++ t) ≡ take n s
take-append-le zero s t h = refl
take-append-le (suc n) [] t h = absurd (omega arith)
take-append-le (suc n) (c ∷ s) t h = ap (λ r. c ∷ r) (take-append-le n s t (omega arith))

length-encode :
    (k : Libdpkg) (ms : List Item) (rest : Bytes)
    → All (IsWritten k) ms
    → length ms ≤ length (encode ms rest)
unfolding encode
length-encode k [] rest all = omega arith
length-encode k (m ∷ ms) rest all = grind (sizes, length-encode k ms rest (all.1), all.0.0)

-- A .deb file of version 2: the magic line, the member `debian-binary`, the member of the control
-- files and that of the data, with members between them that may be skipped.
module _ (k : Libdpkg) where
  pub record IsDeb (v : ℕ × ℕ) (first control payload : Item) (xs ys : List Item) : Type 0 where
    pub first_written : IsWritten k first
    pub control_written : IsWritten k control
    pub payload_written : IsWritten k payload
    pub first_name : k.member_name first.header ≡ debmagic
    pub first_version : read_version k (k.member_size first.header) first.body ≡ some v
    pub xs_skipped : All (IsNoncritical k) xs
    pub ys_skipped : All (IsNoncritical k) ys
    pub control_extension : Bytes
    pub control_name : k.member_name control.header ≡ adminmember ++ control_extension
    pub control_allowed : allowed_for_control (k.find_by_extension control_extension) ≡ true
    pub data_extension : Bytes
    pub data_name : k.member_name payload.header ≡ datamember ++ data_extension
    pub data_known : is_known (k.find_by_extension data_extension) ≡ true

  read_version-append :
      (size : ℕ) (s t : Bytes) (v : ℕ × ℕ)
      → length s ≡ padded size
      → read_version k size s ≡ some v
      → read_version k size (s ++ t) ≡ some v
  unfolding read_version
  read_version-append size s t v e g =
      let long : ltb (length (s ++ t)) (padded size) ≡ false = ground (arith, length-append s t) in
      let enough : ltb (length s) (padded size) ≡ false = ground arith in
      rw long (
        rw (take-append-le size s t (omega arith))
          (subst (λ b. (if b then none else version_of k (take size s)) ≡ some v) enough g))

  module _ (v : ℕ × ℕ) (first control payload : Item) (xs ys : List Item) where
    abbrev pub items : List Item
    items = first ∷ (xs ++ (control ∷ (ys ++ (payload ∷ []))))

    IsNoncritical-IsWritten : (ms : List Item) → All (IsNoncritical k) ms → All (IsWritten k) ms
    IsNoncritical-IsWritten [] all = tt
    IsNoncritical-IsWritten (m ∷ ms) all = (all.0.0, IsNoncritical-IsWritten ms (all.1))

    items-IsWritten : IsDeb v first control payload xs ys → All (IsWritten k) items
    items-IsWritten d = (
      d.first_written,
      All-append (IsWritten k) xs (control ∷ (ys ++ (payload ∷ [])))
          (IsNoncritical-IsWritten xs d.xs_skipped)
          (
            d.control_written,
            All-append (IsWritten k) ys (payload ∷ []) (IsNoncritical-IsWritten ys d.ys_skipped)
                (d.payload_written, tt),
          ),
    )

    -- As many rounds as there are bytes are enough for the members.
    pub fuel_enough :
        (rest : Bytes)
        → IsDeb v first control payload xs ys
        → (f : ℕ) × (length (encode items rest) ≡ length xs + suc (length ys + suc f))
    fuel_enough rest d =
        let n = length (encode items rest) in
        (
          n - (length xs + (length ys + 2)),
          grind (sizes, length-encode k items rest (items-IsWritten d)),
        )

    begin :
        (wants_admin : Bool) (f : ℕ) (rest : Bytes)
        → IsDeb v first control payload xs ys
        → members k wants_admin (suc (length xs + f)) nothing_seen (encode items rest)
          ≡ members k wants_admin f (begun k v) (encode (control ∷ (ys ++ (payload ∷ []))) rest)
    begin wants_admin f rest d =
        let tail = xs ++ (control ∷ (ys ++ (payload ∷ []))) in
        step_judged k wants_admin (length xs + f) nothing_seen first tail rest d.first_written
        ∙ (ap (λ r. onward k wants_admin (length xs + f) r (encode tail rest))
              (round_first k wants_admin v first (first.body ++ encode tail rest)
                (d.first_written.1) d.first_name
                (read_version-append (k.member_size first.header) first.body (encode tail rest) v
                  (d.first_written.2) d.first_version))
            ∙ members_noncritical k wants_admin f (begun k v) v xs
                (control ∷ (ys ++ (payload ∷ []))) rest refl d.xs_skipped)

    abbrev pub payload_member : Bytes → IsDeb v first control payload xs ys → Member
    payload_member rest d = record {
      memberlen = k.member_size payload.header;
      decompressor = k.find_by_extension d.data_extension;
      deb_version = v;
      content = payload.body ++ rest;
    }

    abbrev pub control_member : Bytes → IsDeb v first control payload xs ys → Member
    control_member rest d = record {
      memberlen = k.member_size control.header;
      decompressor = k.find_by_extension d.control_extension;
      deb_version = v;
      content = control.body ++ encode (ys ++ (payload ∷ [])) rest;
    }

    pub members-control :
        (f : ℕ) (rest : Bytes) (d : IsDeb v first control payload xs ys)
        → members k true (suc (length xs + suc f)) nothing_seen (encode items rest)
          ≡ some (some (control_member rest d))
    members-control f rest d =
        let tail = ys ++ (payload ∷ []) in
        begin true (suc f) rest d
        ∙ (step_judged k true f (begun k v) control tail rest d.control_written
            ∙ ap (λ r. onward k true f r (encode tail rest))
                (round_control_wanted k v control (control.body ++ encode tail rest)
                  d.control_extension (d.control_written.1) d.control_name d.control_allowed))

    pub members-payload :
        (f : ℕ) (rest : Bytes) (d : IsDeb v first control payload xs ys)
        → members k false
            (suc (length xs + suc (length ys + suc f)))
            nothing_seen
            (encode items rest)
          ≡ some (some (payload_member rest d))
    unfolding encode
    members-payload f rest d =
        let tail = ys ++ (payload ∷ []) in
        let size = k.member_size control.header in
        begin false (suc (length ys + suc f)) rest d
        ∙ (step_judged k false (length ys + suc f) (begun k v) control tail rest d.control_written
            ∙ (ap (λ r. onward k false (length ys + suc f) r (encode tail rest))
                  (round_control_skipped k v control (control.body ++ encode tail rest)
                    d.control_extension (d.control_written.1) d.control_name d.control_allowed)
                ∙ (members_noncritical k false (suc f) (past_control k v size) v ys (payload ∷ [])
                      rest refl d.ys_skipped
                    ∙ (step_judged k false f (past_control k v size) payload [] rest
                          d.payload_written
                        ∙ ap (λ r. onward k false f r (encode [] rest))
                            (round_data k v size payload (payload.body ++ encode [] rest)
                              d.data_extension (d.payload_written.1) d.data_name d.data_known)))))
