-- ===== src/Tests/SplitRuns.antt =====
-- Splitting texts.
use isoft_package_installer.Utils.Split.Tokens.{SplitsInto, split_all-SplitsInto}
use isoft_package_installer.Utils.Split.{split_all}
use isoft_package_installer.Base.{
  Bytes, codes, starts_with, strstr, ◌≡◌, refl, some, List, [], ◌∷◌, arith,
}

three_parts : split_all 9 (codes ", ") (some (codes "a, b, ")) ≡ some (codes "a" ∷ codes "b" ∷ [])
unfolding split_all strstr starts_with
three_parts = refl

split_all-SplitsInto_example :
    (tokens : List Bytes) × (split_all 5 (codes ",") (some (codes "a,b")) ≡ some tokens)
    × SplitsInto (codes ",") (codes "a,b") tokens
split_all-SplitsInto_example =
    split_all-SplitsInto 5 (codes ",") (codes "a,b") (λ e. cc) (omega arith)
