-- ===== src/Debresolve/Archive.antt =====
-- The members of a .deb archive that `extracthalf` of daemon/debresolve.c finds.
use isoft_package_installer.Base.{
  ltb, Bytes, length, take, drop, length-append, drop-append_eq, take-append_eq, ℕ, suc, ◌≡◌, refl,
  sym, Bool, true, false, none, some, List, [], ◌∷◌, ◌++◌, arith, ap, ◌∙◌, Option, All, ◌+◌,
  bytes_eq_refl, starts_with-append, drop-append_length,
}
use isoft_package_installer.Debresolve.Members.{
  Libdpkg, header_size, padded, Seen, judge, members, Member, Round, fail, next, found, round,
  is_underscored, nothing_seen, debmagic, adminmember, datamember, read_version,
  allowed_for_control, is_known, classify, at_verdict, at_first,
}

-- The archive as members: what stands before its content, and the content with its padding.
pub record Item : Type 0 where
  pub header : Bytes
  pub body : Bytes

unfoldable pub encode : List Item → Bytes → Bytes
encode [] rest = rest
encode (m ∷ ms) rest = m.header ++ (m.body ++ encode ms rest)

-- A member that is written as its header says.
abbrev pub IsWritten : Libdpkg → Item → Type 0
IsWritten k m =
    (length m.header ≡ header_size)
    × (k.member_is_illegal m.header ≡ false)
    × (length m.body ≡ padded (k.member_size m.header))

-- A member that the code skips.
abbrev pub IsNoncritical : Libdpkg → Item → Type 0
IsNoncritical k m = IsWritten k m × (is_underscored (k.member_name m.header) ≡ true)

module _ (k : Libdpkg) where
  header-encode :
      (m : Item) (ms : List Item) (rest : Bytes)
      → IsWritten k m
      → take header_size (encode (m ∷ ms) rest) ≡ m.header
  unfolding encode
  header-encode m ms rest w = take-append_eq header_size m.header _ (sym (w.0))

  body-encode :
      (m : Item) (ms : List Item) (rest : Bytes)
      → IsWritten k m
      → drop header_size (encode (m ∷ ms) rest) ≡ m.body ++ encode ms rest
  unfolding encode
  body-encode m ms rest w = drop-append_eq header_size m.header _ (sym (w.0))

  content-encode :
      (m : Item) (ms : List Item) (rest : Bytes)
      → IsWritten k m
      → drop (padded (k.member_size m.header)) (m.body ++ encode ms rest) ≡ encode ms rest
  content-encode m ms rest w = drop-append_eq (padded (k.member_size m.header)) m.body _ (sym (w.2))

  long-encode :
      (m : Item) (ms : List Item) (rest : Bytes)
      → IsWritten k m
      → ltb (length (encode (m ∷ ms) rest)) header_size ≡ false
  unfolding encode
  long-encode m ms rest w = ground (arith, length-append m.header (m.body ++ encode ms rest), w.0)

  -- What follows a round.
  abbrev pub onward : Bool → ℕ → Round → Bytes → Option (Option Member)
  onward wants_admin f fail left = some none
  onward wants_admin f (found m) left = some (some m)
  onward wants_admin f (next s) left = members k wants_admin f s left

  follows :
      (wants_admin : Bool) (f : ℕ) (r : Round) (size : ℕ) (body : Bytes)
      → elim r [
        | fail ↦ some none
        | found m ↦ some (some m)
        | next s' ↦ members k wants_admin f s' (drop (padded size) body)
      ]
        ≡ onward wants_admin f r (drop (padded size) body)
  follows wants_admin f fail size body = refl
  follows wants_admin f (found m) size body = refl
  follows wants_admin f (next s) size body = refl

  pub step_judged :
      (wants_admin : Bool) (f : ℕ) (s : Seen) (m : Item) (ms : List Item) (rest : Bytes)
      → IsWritten k m
      → members k wants_admin (suc f) s (encode (m ∷ ms) rest)
        ≡ onward wants_admin f
            (round k wants_admin s m.header (m.body ++ encode ms rest))
            (encode ms rest)
  unfolding members
  step_judged wants_admin f s m ms rest w =
      let left = encode (m ∷ ms) rest in
      let size = λ (h : Bytes). padded (k.member_size h) in
      let go_on =
        λ (h b : Bytes). onward wants_admin f (round k wants_admin s h b) (drop (size h) b) in
      start left (long-encode m ms rest w)
      ∙ (ap (λ h. go_on h (drop header_size left)) (header-encode m ms rest w)
          ∙ (ap (go_on m.header) (body-encode m ms rest w)
              ∙ ap
                  (onward wants_admin f (round k wants_admin s m.header (m.body ++ encode ms rest)))
                  (content-encode m ms rest w)))
    where
      start :
          (left : Bytes)
          → ltb (length left) header_size ≡ false
          → members k wants_admin (suc f) s left
            ≡ onward wants_admin f
                (round k wants_admin s (take header_size left) (drop header_size left))
                (drop (padded (k.member_size (take header_size left))) (drop header_size left))
      start left long = rw long (
          follows wants_admin f
            (round k wants_admin s (take header_size left) (drop header_size left))
            (k.member_size (take header_size left)) (drop header_size left))

  -- The state of the loop behind the first member.
  abbrev pub begun : ℕ × ℕ → Seen
  begun v = record nothing_seen { version = some v }

  round_noncritical :
      (wants_admin : Bool) (s : Seen) (v : ℕ × ℕ) (m : Item) (body : Bytes)
      → s.version ≡ some v
      → IsNoncritical k m
      → round k wants_admin s m.header body ≡ next s
  unfolding round judge at_verdict
  round_noncritical wants_admin s v m body e w = simp (w.0.1, e, w.1)

  pub members_noncritical :
      (wants_admin : Bool) (f : ℕ) (s : Seen) (v : ℕ × ℕ) (xs ms : List Item) (rest : Bytes)
      → s.version ≡ some v
      → All (IsNoncritical k) xs
      → members k wants_admin (length xs + f) s (encode (xs ++ ms) rest)
        ≡ members k wants_admin f s (encode ms rest)
  members_noncritical wants_admin f s v [] ms rest e all =
      let z : 0 + f ≡ f = omega arith in rw z refl
  members_noncritical wants_admin f s v (x ∷ xs) ms rest e all =
      let z : suc (length xs) + f ≡ suc (length xs + f) = omega arith in
      rw z (
        step_judged wants_admin (length xs + f) s x (xs ++ ms) rest (all.0.0)
        ∙ (ap (λ r. onward wants_admin (length xs + f) r (encode (xs ++ ms) rest))
              (round_noncritical wants_admin s v x (x.body ++ encode (xs ++ ms) rest) e (all.0))
            ∙ members_noncritical wants_admin f s v xs ms rest e (all.1)))

  pub round_first :
      (wants_admin : Bool) (v : ℕ × ℕ) (m : Item) (body : Bytes)
      → k.member_is_illegal m.header ≡ false
      → k.member_name m.header ≡ debmagic
      → read_version k (k.member_size m.header) body ≡ some v
      → round k wants_admin nothing_seen m.header body ≡ next (begun v)
  unfolding round at_first
  round_first wants_admin v m body legal e g =
      rw legal (rw e (rw g (rw (bytes_eq_refl debmagic) refl)))

  -- The state behind a control member that is not wanted.
  abbrev pub past_control : ℕ × ℕ → ℕ → Seen
  past_control v size = record { version = some v; last_is_admin = some true; ctrllennum = size }

  classify_control :
      (last : Option Bool) (extension : Bytes)
      → allowed_for_control (k.find_by_extension extension) ≡ true
      → classify k last (adminmember ++ extension) ≡ some (true, k.find_by_extension extension)
  unfolding classify
  classify_control last extension e =
      rw (starts_with-append adminmember extension)
        (rw (drop-append_length adminmember extension) (rw e refl))

  classify_data :
      (extension : Bytes)
      → is_known (k.find_by_extension extension) ≡ true
      → classify k (some true) (datamember ++ extension)
        ≡ some (false, k.find_by_extension extension)
  unfolding classify
  classify_data extension e = simp (classify, drop-append_length datamember extension, e)

  pub round_control_wanted :
      (v : ℕ × ℕ) (m : Item) (body extension : Bytes)
      → k.member_is_illegal m.header ≡ false
      → k.member_name m.header ≡ adminmember ++ extension
      → allowed_for_control (k.find_by_extension extension) ≡ true
      → round k true (begun v) m.header body
        ≡ found (record {
          memberlen = k.member_size m.header;
          decompressor = k.find_by_extension extension;
          deb_version = v;
          content = body;
        })
  unfolding round judge at_verdict
  round_control_wanted v m body extension legal e c =
      rw legal (rw e (rw (classify_control none extension c) refl))

  pub round_control_skipped :
      (v : ℕ × ℕ) (m : Item) (body extension : Bytes)
      → k.member_is_illegal m.header ≡ false
      → k.member_name m.header ≡ adminmember ++ extension
      → allowed_for_control (k.find_by_extension extension) ≡ true
      → round k false (begun v) m.header body ≡ next (past_control v (k.member_size m.header))
  unfolding round judge at_verdict
  round_control_skipped v m body extension legal e c =
      rw legal (rw e (rw (classify_control none extension c) refl))

  pub round_data :
      (v : ℕ × ℕ) (size : ℕ) (m : Item) (body extension : Bytes)
      → k.member_is_illegal m.header ≡ false
      → k.member_name m.header ≡ datamember ++ extension
      → is_known (k.find_by_extension extension) ≡ true
      → round k false (past_control v size) m.header body
        ≡ found (record {
          memberlen = k.member_size m.header;
          decompressor = k.find_by_extension extension;
          deb_version = v;
          content = body;
        })
  unfolding round judge at_verdict
  round_data v size m body extension legal e c =
      rw legal (rw e (rw (classify_data extension c) refl))
