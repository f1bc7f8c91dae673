-- ===== src/Debresolve/Reading.antt =====
-- `read_line` of daemon/debresolve.c. A file is the bytes that are left to read; a read of a
-- regular file gives as many as are asked for or are left.
use isoft_package_installer.Base.{
  ltb, ◌==◌, if◌then◌else◌, Bytes, length, take, drop, ℕ, zero, suc, Option, none, some, [], ◌∷◌,
  ◌++◌, ◌+◌, ◌≤◌, ◌<◌, ◌≡◌, length-append, ◌∙◌, true, false, append-nil, append_assoc, arith, refl,
  ap, ◌-◌, sym,
}

-- The call meets the end of the file and writes no terminator, or it leaves the text up to the
-- terminator, which is written at this place in the buffer, and the bytes left in the file.
pub data Line : Type 0 where
  no_line : Line
  line : Bytes → ℕ → Bytes → Line

-- `memchr (buf, '\n', r)`: the bytes up to the first newline and that newline.
unfoldable pub up_to_newline : Bytes → Option Bytes
up_to_newline [] = none
up_to_newline (c ∷ s) =
    let rest : Option Bytes = elim (up_to_newline s) [ none ↦ none | some t ↦ some (c ∷ t) ] in
    if c == b'\n' then some (c ∷ []) else rest

-- The loop, with the text that was read before, the bytes left, and the size of the next read.
-- Every round reads a byte, so `max_size` rounds are enough.
unfoldable pub read_rounds : ℕ → ℕ → ℕ → Bytes → Bytes → Line
unfolding up_to_newline
read_rounds zero n max_size text left = line text (length text) left
read_rounds (suc f) n max_size text left =
    let chunk = take n left in
    let rest = read_rounds f 1 max_size (text ++ chunk) (drop n left) in
    let scanned : Line = elim chunk [
      | [] ↦ no_line
      | c ∷ cs ↦ elim (up_to_newline (c ∷ cs)) [
        | some t ↦ line (text ++ t) (length (text ++ t)) (drop n left)
        | none ↦ rest
      ]
    ] in
    if ltb (length text) max_size then scanned else line text (length text) left

unfoldable pub read_line : ℕ → ℕ → Bytes → Line
unfolding read_rounds
read_line min_size max_size left = read_rounds (suc max_size) min_size max_size [] left

pub up_to_newline-tail :
    (c : ℕ) (s : Bytes)
    → up_to_newline (c ∷ s) ≡ none
    → ((c == b'\n') ≡ false) × (up_to_newline s ≡ none)
unfolding up_to_newline
up_to_newline-tail c s e = ground arith

-- The rounds of one byte each, where no newline comes before the buffer is full.
read_rounds_full :
    (f m max_size : ℕ) (text left : Bytes)
    → m + length text ≡ max_size
    → m < f
    → m ≤ length left
    → up_to_newline (take m left) ≡ none
    → read_rounds f 1 max_size text left ≡ line (text ++ take m left) max_size (drop m left)
unfolding read_rounds up_to_newline
read_rounds_full zero m max_size text left e lt le none_in = absurd (omega arith)
read_rounds_full (suc f) zero max_size text left e lt le none_in = ground (arith, append-nil text)
read_rounds_full (suc f) (suc m) max_size text [] e lt le none_in = absurd (omega arith)
read_rounds_full (suc f) (suc m) max_size text (c ∷ s) e lt le none_in =
    let below : ltb (length text) max_size ≡ true = ground arith in
    let t = up_to_newline-tail c (take m s) none_in in
    let longer : m + length (text ++ (c ∷ [])) ≡ max_size =
      omega (arith, length-append text (c ∷ [])) in
    rw below (
      rw (t.0) (
        read_rounds_full f m max_size (text ++ (c ∷ [])) s longer (omega arith) (omega arith) (t.1)
        ∙ rw (append_assoc text (c ∷ []) (take m s))))

pub up_to_newline-prefix : (s t : Bytes) → up_to_newline (s ++ t) ≡ none → up_to_newline s ≡ none
unfolding up_to_newline
up_to_newline-prefix [] t e = refl
up_to_newline-prefix (c ∷ s) t e =
    let both = up_to_newline-tail c (s ++ t) e in
    rw (both.0) (rw (up_to_newline-prefix s t (both.1)))

pub up_to_newline-suffix : (s t : Bytes) → up_to_newline (s ++ t) ≡ none → up_to_newline t ≡ none
up_to_newline-suffix [] t e = e
up_to_newline-suffix (c ∷ s) t e = up_to_newline-suffix s t ((up_to_newline-tail c (s ++ t) e).1)

take-add : (n m : ℕ) (s : Bytes) → take (n + m) s ≡ take n s ++ take m (drop n s)
take-add zero m s = (let e : 0 + m ≡ m = omega arith in rw e refl)
take-add (suc n) zero [] = (let e : suc n + 0 ≡ suc n = omega arith in rw e refl)
take-add (suc n) (suc m) [] = let e : suc n + suc m ≡ suc (n + suc m) = omega arith in rw e refl
take-add (suc n) m (c ∷ s) =
    let e : suc n + m ≡ suc (n + m) = omega arith in rw e (ap (λ r. c ∷ r) (take-add n m s))

drop-add : (n m : ℕ) (s : Bytes) → drop m (drop n s) ≡ drop (n + m) s
drop-add zero m s = (let e : 0 + m ≡ m = omega arith in rw e refl)
drop-add (suc n) zero [] = (let e : suc n + 0 ≡ suc n = omega arith in rw e refl)
drop-add (suc n) (suc m) [] = let e : suc n + suc m ≡ suc (n + suc m) = omega arith in rw e refl
drop-add (suc n) m (c ∷ s) = let e : suc n + m ≡ suc (n + m) = omega arith in rw e (drop-add n m s)

pub length-take : (n : ℕ) (s : Bytes) → n ≤ length s → length (take n s) ≡ n
length-take zero s h = refl
length-take (suc n) [] h = absurd (omega arith)
length-take (suc n) (c ∷ s) h = ap suc (length-take n s (omega arith))

pub length-drop : (n : ℕ) (s : Bytes) → length (drop n s) ≡ length s - n
length-drop zero s = omega arith
length-drop (suc n) [] = omega arith
length-drop (suc n) (c ∷ s) = omega (arith, length-drop n s)

-- The call reads `min_size` bytes, at least one, and then single bytes up to `max_size`. For a file
-- of at least `max_size` bytes with no newline among the first `max_size`, the buffer holds these
-- bytes and the terminator is written at the place `max_size`, which is behind a buffer of
-- `max_size` bytes.
pub read_line-fills :
    (min_size max_size : ℕ) (left : Bytes)
    → 0 < min_size
    → min_size ≤ max_size
    → max_size ≤ length left
    → up_to_newline (take max_size left) ≡ none
    → read_line min_size max_size left ≡ line (take max_size left) max_size (drop max_size left)
unfolding read_line read_rounds
read_line-fills zero max_size left h le fits none_in = absurd (omega arith)
read_line-fills (suc n) max_size [] h le fits none_in = absurd (omega arith)
read_line-fills (suc n) max_size (c ∷ s) h le fits none_in =
    let below : ltb 0 max_size ≡ true = ground arith in
    let m = max_size - suc n in
    let whole : suc n + m ≡ max_size = omega arith in
    let first = take (suc n) (c ∷ s) in
    let rest = drop (suc n) (c ∷ s) in
    let parts : take max_size (c ∷ s) ≡ first ++ take m rest =
      ap (λ x. take x (c ∷ s)) (sym whole) ∙ take-add (suc n) m (c ∷ s) in
    let e : up_to_newline (first ++ take m rest) ≡ none = ap up_to_newline (sym parts) ∙ none_in in
    let clear_first = up_to_newline-prefix first (take m rest) e in
    let clear_rest = up_to_newline-suffix first (take m rest) e in
    let first_length = length-take (suc n) (c ∷ s) (omega arith) in
    let rest_length = length-drop (suc n) (c ∷ s) in
    rw below (
      rw clear_first (
        read_rounds_full max_size m max_size first rest (omega (arith, first_length)) (omega arith)
          (omega (arith, rest_length)) clear_rest
        ∙ (ap (λ t. line t max_size (drop m rest)) (sym parts)
            ∙ ap (line (take max_size (c ∷ s)) max_size)
                (drop-add (suc n) m (c ∷ s) ∙ ap (λ x. drop x (c ∷ s)) whole))))
