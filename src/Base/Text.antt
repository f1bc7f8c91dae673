-- ===== src/Base/Text.antt =====
-- C strings as their bytes, the terminating NUL left out, with the library calls that the
-- program makes on them: strcmp, strncmp, strstr, strchr.
use Prim.Native.Char.{code}
use Prim.Native.Nat.{ℕ, suc}
use Prim.Native.String.{String}
use mathlib.Core.Path.{◌≡◌, refl}
use mathlib.Core.Logic.{◌↔◌}
use mathlib.Core.Bool.{Bool, true, false, ◌&&◌}
use mathlib.Core.List.{List, [], ◌∷◌, ◌++◌}
use mathlib.Core.Option.{Option, none, some}
use native.Mathlib.Omega.{arith}
use isoft_package_installer.Base.Tests.{◌==◌, if◌then◌else◌}
use isoft_package_installer.Base.Lists.{length, drop}

abbrev pub Bytes : Type 0
Bytes = List ℕ

-- The code points of a literal: its bytes, as every literal of the program that is modelled so is
-- ASCII. `String` has its own `[]` and `∷`.
abbrev pub codes : String → Bytes
codes String.[] = []
codes (String.◌∷◌ c s) = code c ∷ codes s

-- strcmp (s, t) == 0
unfoldable pub bytes_eq : Bytes → Bytes → Bool
bytes_eq [] [] = true
bytes_eq [] (y ∷ ys) = false
bytes_eq (x ∷ xs) [] = false
bytes_eq (x ∷ xs) (y ∷ ys) = (x == y) && bytes_eq xs ys

-- strncmp (p, s, strlen (p)) == 0
unfoldable pub starts_with : Bytes → Bytes → Bool
starts_with [] s = true
starts_with (x ∷ xs) [] = false
starts_with (x ∷ xs) (y ∷ ys) = (x == y) && starts_with xs ys

-- strstr: the number of bytes that stand in front of the first occurrence of the needle.
unfoldable pub strstr : Bytes → Bytes → Option ℕ
unfolding starts_with
strstr needle [] = if starts_with needle [] then some 0 else none
strstr needle (x ∷ xs) =
    let rest : Option ℕ = elim (strstr needle xs) [ none ↦ none | some k ↦ some (suc k) ] in
    if starts_with needle (x ∷ xs) then some 0 else rest

-- A buffer of bytes as the C string in it: the bytes before the first NUL.
unfoldable pub c_string : Bytes → Bytes
c_string [] = []
c_string (c ∷ s) = let rest = c_string s in if c == 0 then [] else c ∷ rest

pub bytes_eq_iff : (s t : Bytes) → (bytes_eq s t ≡ true) ↔ (s ≡ t)
unfolding bytes_eq
bytes_eq_iff [] [] = (λ _. refl, λ _. refl)
bytes_eq_iff [] (y ∷ ys) = (λ h. cc, λ h. cc)
bytes_eq_iff (x ∷ xs) [] = (λ h. cc, λ h. cc)
bytes_eq_iff (x ∷ xs) (y ∷ ys) =
    (λ h. ground (arith, bytes_eq_iff xs ys), λ h. ground (arith, bytes_eq_iff xs ys))

pub bytes_eq_refl : (s : Bytes) → bytes_eq s s ≡ true
bytes_eq_refl s = (bytes_eq_iff s s).1 refl

pub starts_with-append : (p s : Bytes) → starts_with p (p ++ s) ≡ true
unfolding starts_with
starts_with-append [] s = refl
starts_with-append (x ∷ p) s = ground (arith, starts_with-append p s)

pub append-drop_of_prefix : (p s : Bytes) → starts_with p s ≡ true → p ++ drop (length p) s ≡ s
unfolding starts_with
append-drop_of_prefix [] s h = refl
append-drop_of_prefix (x ∷ p) [] h = cc
append-drop_of_prefix (x ∷ p) (y ∷ s) h = ground (arith, append-drop_of_prefix p s)
