-- ===== src/Net/Dotted.antt =====
-- IP.String of Go's net package on an address of four bytes.
use valon.Prelude.{ℕ, ◌+◌, ◌/◌, ◌%◌, ◌≡◌, refl, [], ◌∷◌, ◌++◌, Bytes, codes, ltb, if◌then◌else◌}

abbrev digit : ℕ → ℕ
digit n = 48 + n

-- a number below 1000 in decimal
unfoldable pub decimal_byte : ℕ → Bytes
decimal_byte n =
    if ltb n 10
    then digit n ∷ []
    else if ltb n 100
    then digit (n / 10) ∷ digit (n % 10) ∷ []
    else digit (n / 100) ∷ digit (n / 10 % 10) ∷ digit (n % 10) ∷ []

unfoldable pub dotted : Bytes → Bytes
unfolding decimal_byte
dotted [] = []
dotted (b ∷ []) = decimal_byte b
dotted (b ∷ c ∷ bs) = decimal_byte b ++ 46 ∷ dotted (c ∷ bs)

dotted_tests : dotted (10 ∷ 0 ∷ 201 ∷ 99 ∷ []) ≡ codes "10.0.201.99"
unfolding dotted
dotted_tests = refl
