-- ===== src/Base/Int.antt =====
-- Integers over the native numbers, and `%d` of them.
use Prim.Native.Nat.{ℕ, suc}
use mathlib.Core.List.{◌∷◌}
use isoft_package_installer.Base.Text.{Bytes}
use isoft_package_installer.Base.Decimal.{decimal}

pub data ℤ : Type 0 where
  pos negsuc : ℕ → ℤ

-- `%d`
unfoldable pub decimal_int : ℤ → Bytes
decimal_int (pos n) = decimal n
decimal_int (negsuc n) = b'-' ∷ decimal (suc n)
