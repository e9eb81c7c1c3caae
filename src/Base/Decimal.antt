-- ===== src/Base/Decimal.antt =====
-- A number in a template literal: its decimal digits. The fuel is the number itself and one more,
-- which is at least the count of its digits.
use Prim.Native.Nat.{ℕ, zero, suc, ◌+◌, ◌/◌, ◌%◌}
use mathlib.Core.List.{[], ◌∷◌}
use file_harbor.Base.Tests.{ltb, if◌then◌else◌}
use file_harbor.Base.Texts.{Text}

abbrev zero_code : ℕ
zero_code = b'0'

digits : ℕ → ℕ → Text → Text
digits zero n acc = acc
digits (suc fuel) n acc =
    let rest = digits fuel (n / 10) ((zero_code + n % 10) ∷ acc) in
    if ltb n 10 then (zero_code + n) ∷ acc else rest

unfoldable pub decimal : ℕ → Text
unfolding digits
decimal n = digits (suc n) n []
