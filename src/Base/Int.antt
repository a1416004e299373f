-- ===== src/Base/Int.antt =====
-- Python's unbounded `int`, where the program does not keep it from being negative.
use Prim.Native.Nat.{ℕ, suc, ◌*◌, ◌-◌, min}
use mathlib.Core.Bool.{Bool, true, false}
use mathlib.Core.List.{◌∷◌}
use cortex_rag.Base.Equality.{ltb}
use cortex_rag.Base.Str.{Text, decimal}

-- `negsuc n` is -(n + 1).
pub data ℤ : Type 0 where
  pos : ℕ → ℤ
  negsuc : ℕ → ℤ

-- n < z
abbrev pub ltb_ℤ : ℕ → ℤ → Bool
ltb_ℤ n (pos m) = ltb n m
ltb_ℤ n (negsuc _) = false

-- n > z
abbrev pub gtb_ℤ : ℕ → ℤ → Bool
gtb_ℤ n (pos m) = ltb m n
gtb_ℤ n (negsuc _) = true

-- z * k, for a positive k
abbrev pub scale : ℤ → ℕ → ℤ
scale (pos m) k = pos (m * k)
scale (negsuc m) k = negsuc (suc m * k - 1)

-- max(0, min(hi, z))
abbrev pub clamp : ℕ → ℤ → ℕ
clamp hi (pos n) = min hi n
clamp hi (negsuc _) = 0

-- `str(z)`
unfoldable pub signed_decimal : ℤ → Text
unfolding decimal
signed_decimal (pos n) = decimal n
signed_decimal (negsuc n) = b'-' ∷ decimal (suc n)
