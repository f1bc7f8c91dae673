-- ===== src/Utils/Copying.antt =====
-- What `utils_copy_file` leaves.
use isoft_package_installer.Utils.Files.{
  copied, copy_rounds, utils_copy_file, finish_copy, copy_opened, Copied, ended,
}
use isoft_package_installer.Utils.LogWriter.{Store, put_file, text_of}
use isoft_package_installer.Base.{
  if◌then◌else◌, Bytes, bytes_eq, length, take, drop, ℕ, zero, suc, ◌≤◌, ◌<◌, ◌≡◌, refl, ap, ◌∙◌,
  Bool, true, false, some, [], ◌∷◌, ◌++◌, append-nil, append_assoc, arith, Bool-cases,
  bytes_eq_refl, inl, inr, sym, subst, Option, none,
}

take-drop : (n : ℕ) (s : Bytes) → take n s ++ drop n s ≡ s
take-drop zero s = refl
take-drop (suc n) [] = refl
take-drop (suc n) (c ∷ s) = ap (λ r. c ∷ r) (take-drop n s)

length-drop-le : (n : ℕ) (s : Bytes) → length (drop n s) ≤ length s
length-drop-le zero s = omega arith
length-drop-le (suc n) [] = omega arith
length-drop-le (suc n) (c ∷ s) = omega (arith, length-drop-le n s)

-- Where every `fwrite` succeeds, the loop ends and has written all that was left.
copy_rounds_all :
    (n : ℕ) (writes : ℕ → Bool) (f i : ℕ) (left out : Bytes)
    → ((j : ℕ) → writes j ≡ true)
    → length left < f
    → copy_rounds (suc n) writes f i left out ≡ some (true, out ++ left)
unfolding copy_rounds
copy_rounds_all n writes zero i left out h lt = absurd (omega arith)
copy_rounds_all n writes (suc f) i [] out h lt = rw append-nil refl
copy_rounds_all n writes (suc f) i (c ∷ s) out h lt = rw (h i) (
    copy_rounds_all n writes f (suc i) (drop n s) (out ++ (c ∷ take n s)) h
      (omega (arith, length-drop-le n s))
    ∙ ap (λ r. some (true, r))
        (append_assoc out (c ∷ take n s) (drop n s) ∙ ap (λ r. out ++ (c ∷ r)) (take-drop n s)))

module _ (n : ℕ) (writes : ℕ → Bool) (src dest text : Bytes) (f : Store) where
  opened :
      f src ≡ some text
      → utils_copy_file (suc n) writes true src dest f ≡ copy_opened (suc n) writes src dest f
  unfolding utils_copy_file
  opened e =
      subst
        (λ o.
          elim o as (λ x. Option Copied) [
            | none ↦ some (ended f)
            | some t ↦ copy_opened (suc n) writes src dest f
          ]
          ≡ copy_opened (suc n) writes src dest f)
        (sym e) refl

  copied_all :
      ((j : ℕ) → writes j ≡ true)
      → copy_opened (suc n) writes src dest f
        ≡ some (
            copied (
              put_file
                (put_file f dest (some []))
                dest
                (some (text_of (put_file f dest (some []) src)))))
  unfolding copy_opened
  copied_all h =
      let left = text_of (put_file f dest (some []) src) in
      ap (finish_copy (put_file f dest (some [])) dest)
        (copy_rounds_all n writes (suc (length left)) 0 left [] h (omega arith))

  left_text :
      f src ≡ some text
      → text_of (put_file f dest (some []) src) ≡ (if bytes_eq dest src then [] else text)
  left_text e = elim (Bool-cases (bytes_eq dest src)) [
    | inl b ↦ rw b refl
    | inr b ↦ rw b (ap text_of e)
  ]

  -- For a source that is there, a destination that opens and buffers of at least one byte, where
  -- every `fwrite` succeeds: the call returns 0 within its fuel, the destination holds the text of
  -- the source, or is empty where it is the source itself, and all other files are as they were.
  pub utils_copy_file-text :
      f src ≡ some text
      → ((j : ℕ) → writes j ≡ true)
      → (g : Store) × (utils_copy_file (suc n) writes true src dest f ≡ some (copied g))
        × (g dest ≡ some (if bytes_eq dest src then [] else text))
        × ((q : Bytes) → bytes_eq dest q ≡ false → g q ≡ f q)
  utils_copy_file-text e h =
      let emptied = put_file f dest (some []) in
      let left = text_of (emptied src) in
      (
        put_file emptied dest (some left),
        opened e ∙ copied_all h,
        rw (bytes_eq_refl dest) (ap some (left_text e)),
        λ q other. rw other refl,
      )
