-- ===== src/Base/Texts.antt =====
-- A JavaScript string is a sequence of UTF-16 code units. Literals of the source are ASCII.
use Prim.Native.Nat.{ℕ}
use Prim.Native.Char.{code}
use Prim.Native.String.{String}
use mathlib.Core.Path.{◌≡◌, refl}
use mathlib.Core.Logic.{◌↔◌}
use mathlib.Core.Bool.{Bool, true, false, ◌&&◌}
use mathlib.Core.List.{List, [], ◌∷◌}
use native.Mathlib.Omega.{arith}
use file_harbor.Base.Tests.{◌==◌}

abbrev pub Text : Type 0
Text = List ℕ

abbrev pub codes : String → Text
codes String.[] = []
codes (String.◌∷◌ c s) = code c ∷ codes s

-- `a === b` on strings.
infix 50 ◌===◌
abbrev pub ◌===◌ : Text → Text → Bool
[] === [] = true
[] === (b ∷ t) = false
(a ∷ s) === [] = false
(a ∷ s) === (b ∷ t) = (a == b) && (s === t)

pub ===_iff : (a b : Text) → ((a === b) ≡ true) ↔ (a ≡ b)
===_iff [] [] = (λ _. refl, λ _. refl)
===_iff [] (b ∷ t) = (λ e. cc, λ e. cc)
===_iff (a ∷ s) [] = (λ e. cc, λ e. cc)
===_iff (a ∷ s) (b ∷ t) = ground (arith, ===_iff s t)

pub ===_refl : (a : Text) → (a === a) ≡ true
===_refl a = (===_iff a a).1 refl

-- `Boolean(s)`: only the empty string is falsy.
abbrev pub truthy : Text → Bool
truthy [] = false
truthy (c ∷ s) = true
