-- ===== src/Common/Text/Decimal.antt =====
-- The format %d of fmt.Sprintf.
use Prim.Native.Nat.{ℕ, zero, suc, ◌+◌, ◌/◌, ◌%◌}
use Prim.Native.String.{String, slice, ◌++◌}
use mathlib.Core.Path.{◌≡◌, refl}
use mathlib.Core.Bool.{true, false}
use meshsync.Common.Tests.{ltb}
use meshsync.Common.Int.{ℤ, pos, negsuc}

digit : ℕ → String
digit n = slice "0123456789" n (n + 1)

-- The number of digits is below the number plus one.
digits : ℕ → ℕ → String
unfolding digit
digits zero n = ""
digits (suc fuel) n = elim (ltb n 10) [
  | true ↦ digit n
  | false ↦ digits fuel (n / 10) ++ digit (n % 10)
]

unfoldable pub decimal : ℕ → String
unfolding digits
decimal n = digits (suc n) n

unfoldable pub decimal_int : ℤ → String
unfolding decimal
decimal_int (pos n) = decimal n
decimal_int (negsuc n) = "-" ++ decimal (suc n)

decimal_runs : decimal 8080 ≡ "8080"
unfolding decimal
decimal_runs = refl
