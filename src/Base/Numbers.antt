-- ===== src/Base/Numbers.antt =====
-- Decimal text: what Python prints for a number.
use Prim.Native.Nat.{ℕ, zero, suc, ◌+◌, ◌/◌, ◌%◌}
use mathlib.Core.List.{[], ◌∷◌}
use urpm_ng.Base.Tests.{ltb, if◌then◌else◌}
use urpm_ng.Base.Texts.{Text}

unfoldable pub digits : ℕ → ℕ → Text → Text
digits zero n out = out
digits (suc fuel) n out =
    let out' = (b'0' + n % 10) ∷ out in
    let rest = digits fuel (n / 10) out' in if ltb n 10 then out' else rest

-- `str(n)`; a number has at most as many digits as its value, and one more
unfoldable pub decimal : ℕ → Text
decimal n = digits (suc n) n []
