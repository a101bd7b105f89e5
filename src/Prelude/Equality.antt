-- ===== src/Prelude/Equality.antt =====
-- Go strings are lists of bytes. `==` compares numbers, `≟` strings.
use Prim.Native.Nat.{ℕ}
use Prim.Native.Char.{code}
use Prim.Native.String.{String}
use mathlib.Core.Path.{◌≡◌, refl}
use mathlib.Core.Logic.{◌↔◌, ◌≢◌}
use mathlib.Core.Bool.{Bool, true, false, ◌&&◌}
use mathlib.Core.List.{List, [], ◌∷◌}
use native.Mathlib.Omega.{arith}
use valon.Prelude.Tests.{nat_eq}

abbrev pub Bytes : Type 0
Bytes = List ℕ

-- The bytes of an ASCII literal.
abbrev pub codes : String → Bytes
codes String.[] = []
codes (String.◌∷◌ c s) = code c ∷ codes s

infix 50 ◌==◌ ◌≟◌
abbrev pub ◌==◌ : ℕ → ℕ → Bool
a == b = nat_eq a b

unfoldable pub ◌≟◌ : Bytes → Bytes → Bool
[] ≟ [] = true
(x ∷ xs) ≟ (y ∷ ys) = nat_eq x y && xs ≟ ys
_ ≟ _ = false

pub ≟_iff : (a b : Bytes) → (a ≟ b ≡ true) ↔ (a ≡ b)
unfolding ◌≟◌
≟_iff (x ∷ a) (y ∷ b) = ground (arith, ≟_iff a b)
≟_iff _ _ = ground arith

pub ≟_refl : (a : Bytes) → a ≟ a ≡ true
≟_refl a = (≟_iff a a).1 refl

pub ne_of_≟ : (a b : Bytes) → a ≟ b ≡ false → a ≢ b
ne_of_≟ a b h e = ground (arith, ≟_iff a b)

pub ≟_ne : (a b : Bytes) → a ≢ b → a ≟ b ≡ false
≟_ne a b h = ground (arith, ≟_iff a b)
