-- ===== src/Utils/Split/Tokens.antt =====
-- What a client that calls `utils_split_string` until it returns NULL gets.
use isoft_package_installer.Base.{
  ℕ, zero, suc, ◌+◌, ◌<◌, ◌≡◌, refl, ◌≢◌, ◌⊎◌, inl, inr, none, some, List, [], ◌∷◌, ◌++◌, Bytes,
  strstr, length, take, drop, All, arith, Option-cases, append_assoc, ap, append-nil, ◌∙◌, sizes,
}
use isoft_package_installer.Base.Strstr.{strstr-split, strstr-take}
use isoft_package_installer.Utils.Split.{split_all}

-- The tokens, each with a needle behind it.
pub glue : Bytes → List Bytes → Bytes
glue needle [] = []
glue needle (t ∷ ts) = t ++ (needle ++ glue needle ts)

-- The tokens make up the text, or the text with one more needle at its end, and none of them
-- holds the needle.
pub record SplitsInto (needle s : Bytes) (tokens : List Bytes) : Type 0 where
  pub joined : (glue needle tokens ≡ s) ⊎ (glue needle tokens ≡ s ++ needle)
  pub clean : All (λ t. strstr needle t ≡ none) tokens

split_head-shrinks :
    (needle s : Bytes) (k : ℕ)
    → needle ≢ []
    → strstr needle s ≡ some k
    → length (drop (k + length needle) s) < length s
split_head-shrinks [] s k h e = absurd (h refl)
split_head-shrinks (y ∷ n) s k h e = grind (sizes, ap (length {0}) (strstr-split (y ∷ n) s k e))

regroup : (a n r : Bytes) → a ++ (n ++ (r ++ n)) ≡ (a ++ (n ++ r)) ++ n
regroup a n r = simp append_assoc

split_all-nil : (fuel : ℕ) (needle : Bytes) → 0 < fuel → split_all fuel needle (some []) ≡ some []
unfolding split_all
split_all-nil zero needle h = elim h [ ]
split_all-nil (suc fuel) needle h = refl

glue-cons :
    (needle s rest : Bytes) (k : ℕ) (tokens : List Bytes)
    → take k s ++ (needle ++ rest) ≡ s
    → SplitsInto needle rest tokens
    → (glue needle (take k s ∷ tokens) ≡ s) ⊎ (glue needle (take k s ∷ tokens) ≡ s ++ needle)
unfolding glue
glue-cons needle s rest k tokens e v = elim v.joined [
  | inl whole ↦ inl (rw whole e)
  | inr more ↦ inr (rw more (regroup (take k s) needle rest ∙ ap (λ t. t ++ needle) e))
]

-- For a needle that is not empty, more calls than the text has bytes are enough.
pub split_all-SplitsInto :
    (fuel : ℕ) (needle s : Bytes)
    → needle ≢ []
    → length s < fuel
    → (tokens : List Bytes) × (split_all fuel needle (some s) ≡ some tokens)
      × SplitsInto needle s tokens
unfolding split_all glue
split_all-SplitsInto zero needle s h f = elim f [ ]
split_all-SplitsInto (suc fuel) needle [] h f = ([], refl, record { joined = inl refl; clean = tt })
split_all-SplitsInto (suc fuel) needle (c ∷ s) h f = elim (Option-cases (strstr needle (c ∷ s))) [
  | inl missing ↦ (
    (c ∷ s) ∷ [],
    rw (missing, split_all) (rw (split_all-nil fuel needle (omega arith))),
    record { joined = inr (simp append-nil); clean = (missing, tt) },
  )
  | inr (k, found) ↦
      let (tokens, e, v) =
        split_all-SplitsInto fuel needle (drop (k + length needle) (c ∷ s)) h
          (omega (arith, split_head-shrinks needle (c ∷ s) k h found)) in
      (
        take k (c ∷ s) ∷ tokens,
        rw (found, split_all) (rw e),
        record {
          joined =
              glue-cons needle (c ∷ s) (drop (k + length needle) (c ∷ s)) k tokens
                (strstr-split needle (c ∷ s) k found) v;
          clean = (strstr-take needle (c ∷ s) k h found, v.clean);
        },
      )
]
