-- ===== src/Debresolve/Lines.antt =====
-- `read_line` of daemon/debresolve.c at a line that fits its buffer.
use isoft_package_installer.Debresolve.Reading.{
  line, up_to_newline, read_rounds, up_to_newline-tail, read_line, up_to_newline-prefix,
  up_to_newline-suffix, length-take,
}
use isoft_package_installer.Base.{
  ltb, Bytes, length, sizes, ℕ, zero, suc, ◌+◌, ◌<◌, ◌≡◌, ap, ◌∙◌, true, none, [], ◌∷◌, ◌++◌,
  append_assoc, arith, refl, take, drop, length-append, take-append_length, drop-append_length, ◌≤◌,
  sym, subst, some,
}

-- The rounds of one byte each, up to the newline.
read_rounds_line :
    (f max_size : ℕ) (text p rest : Bytes)
    → length p < f
    → length text + length p < max_size
    → up_to_newline p ≡ none
    → read_rounds f 1 max_size text (p ++ (b'\n' ∷ rest))
      ≡ line (text ++ (p ++ (b'\n' ∷ []))) (length text + (length p + 1)) rest
unfolding read_rounds up_to_newline
read_rounds_line zero max_size text p rest lt fits none_in = absurd (omega arith)
read_rounds_line (suc f) max_size text [] rest lt fits none_in =
    let below : ltb (length text) max_size ≡ true = ground arith in
    rw below (ap (λ n. line (text ++ (b'\n' ∷ [])) n rest) (grind sizes))
read_rounds_line (suc f) max_size text (c ∷ p) rest lt fits none_in =
    let below : ltb (length text) max_size ≡ true = ground arith in
    let t = up_to_newline-tail c p none_in in
    let fits' : length (text ++ (c ∷ [])) + length p < max_size = grind sizes in
    rw below (
      rw (t.0) (
        read_rounds_line f max_size (text ++ (c ∷ [])) p rest (omega arith) fits' (t.1)
        ∙ (ap (λ s. line s (length (text ++ (c ∷ [])) + (length p + 1)) rest)
              (append_assoc text (c ∷ []) (p ++ (b'\n' ∷ [])))
            ∙ ap (λ n. line (text ++ (c ∷ (p ++ (b'\n' ∷ [])))) n rest) (grind sizes))))

take-drop : (n : ℕ) (s : Bytes) → take n s ++ drop n s ≡ s
take-drop zero s = refl
take-drop (suc n) [] = refl
take-drop (suc n) (c ∷ s) = ap (λ r. c ∷ r) (take-drop n s)

-- A round whose bytes hold no newline.
read_rounds_onward :
    (f n max_size c : ℕ) (text left p after : Bytes)
    → ltb (length text) max_size ≡ true
    → take n left ≡ c ∷ p
    → drop n left ≡ after
    → up_to_newline (c ∷ p) ≡ none
    → read_rounds (suc f) n max_size text left ≡ read_rounds f 1 max_size (text ++ (c ∷ p)) after
unfolding read_rounds
read_rounds_onward f n max_size c text left p after below e g clear =
    rw below (rw e (rw clear (rw g (ap (λ x. read_rounds f 1 max_size (text ++ x) after) e))))

read_line-parts :
    (max_size c : ℕ) (p q rest : Bytes)
    → length (c ∷ p) + length q < max_size
    → up_to_newline ((c ∷ p) ++ q) ≡ none
    → read_line (length (c ∷ p)) max_size ((c ∷ p) ++ (q ++ (b'\n' ∷ rest)))
      ≡ line (((c ∷ p) ++ q) ++ (b'\n' ∷ [])) (length ((c ∷ p) ++ q) + 1) rest
unfolding read_line
read_line-parts max_size c p q rest fits clear =
    let tail = q ++ (b'\n' ∷ rest) in
    read_rounds_onward max_size (length (c ∷ p)) max_size c [] ((c ∷ p) ++ tail) p tail
      (ground arith) (take-append_length (c ∷ p) tail) (drop-append_length (c ∷ p) tail)
      (up_to_newline-prefix (c ∷ p) q clear)
    ∙ (read_rounds_line max_size max_size (c ∷ p) q rest (omega arith) fits
          (up_to_newline-suffix (c ∷ p) q clear)
        ∙ (ap (λ s. line s (length (c ∷ p) + (length q + 1)) rest)
              (sym (append_assoc (c ∷ p) q (b'\n' ∷ [])))
            ∙ ap (λ n. line (((c ∷ p) ++ q) ++ (b'\n' ∷ [])) n rest) (grind sizes)))

-- A line that fits the buffer, of more bytes than the first read takes, is read as a whole, its
-- newline included, and the file goes on behind it.
pub read_line-ends :
    (min_size max_size : ℕ) (p rest : Bytes)
    → 0 < min_size
    → min_size ≤ length p
    → length p < max_size
    → up_to_newline p ≡ none
    → read_line min_size max_size (p ++ (b'\n' ∷ rest))
      ≡ line (p ++ (b'\n' ∷ [])) (length p + 1) rest
read_line-ends zero max_size p rest h le lt clear = absurd (omega arith)
read_line-ends (suc n) max_size [] rest h le lt clear = absurd (omega arith)
read_line-ends (suc n) max_size (c ∷ p) rest h le lt clear =
    let first = take n p in
    let second = drop n p in
    let whole : (c ∷ first) ++ second ≡ c ∷ p = ap (λ r. c ∷ r) (take-drop n p) in
    let first_length : length (c ∷ first) ≡ suc n = ap suc (length-take n p (omega arith)) in
    let fits : length (c ∷ first) + length second < max_size =
      omega (arith, sym (length-append (c ∷ first) second), ap length whole) in
    subst
      (λ m.
        read_line m max_size ((c ∷ p) ++ (b'\n' ∷ rest))
        ≡ line ((c ∷ p) ++ (b'\n' ∷ [])) (length (c ∷ p) + 1) rest)
      first_length
      (subst
        (λ s.
          read_line (length (c ∷ first)) max_size (s ++ (b'\n' ∷ rest))
          ≡ line (s ++ (b'\n' ∷ [])) (length s + 1) rest)
        whole
        (ap (read_line (length (c ∷ first)) max_size)
            (append_assoc (c ∷ first) second (b'\n' ∷ rest))
          ∙ read_line-parts max_size c first second rest fits (ap up_to_newline whole ∙ clear)))

pub up_to_newline-ends :
    (p rest : Bytes)
    → up_to_newline p ≡ none
    → up_to_newline (p ++ (b'\n' ∷ rest)) ≡ some (p ++ (b'\n' ∷ []))
unfolding up_to_newline
up_to_newline-ends [] rest clear = refl
up_to_newline-ends (c ∷ p) rest clear =
    let both = up_to_newline-tail c p clear in
    rw (both.0) (rw (up_to_newline-ends p rest (both.1)) refl)
