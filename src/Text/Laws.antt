-- ===== src/Text/Laws.antt =====
-- Prefixes, suffixes and the pieces that trimming leaves.
use valon.Prelude.{
  ◌-◌, ◌≡◌, refl, true, false, Option, none, some, [], ◌∷◌, ◌++◌, Bytes, arith, length, drop,
  length-append, take-append_length, drop-append_length, ≟_refl,
}
use valon.Text.{is_some, has_prefix, has_suffix, trim_prefix, trim_suffix}

pub none_of_is_some {ℓ} : {A : Type ℓ} → (o : Option A) → is_some o ≡ false → o ≡ none
none_of_is_some none h = refl
none_of_is_some (some a) h = absurd cc

pub has_prefix-append : (p r : Bytes) → has_prefix (p ++ r) p ≡ true
unfolding has_prefix
has_prefix-append [] [] = refl
has_prefix-append [] (c ∷ r) = refl
has_prefix-append (c ∷ p) r = ground (arith, has_prefix-append p r)

-- The rest behind a prefix that is there.
pub append_of_has_prefix : (s p : Bytes) → has_prefix s p ≡ true → p ++ drop (length p) s ≡ s
unfolding has_prefix
append_of_has_prefix [] [] h = refl
append_of_has_prefix (c ∷ s) [] h = refl
append_of_has_prefix [] (q ∷ p) h = ground arith
append_of_has_prefix (c ∷ s) (q ∷ p) h = ground (arith, append_of_has_prefix s p (ground arith))

pub trim_prefix-append : (p r : Bytes) → trim_prefix (p ++ r) p ≡ r
unfolding trim_prefix
trim_prefix-append p r = rw (has_prefix-append p r) (drop-append_length p r)

length-append-sub : (a s : Bytes) → length (a ++ s) - length s ≡ length a
length-append-sub a s = omega (arith, length-append a s)

pub has_suffix-append : (a s : Bytes) → has_suffix (a ++ s) s ≡ true
unfolding has_suffix
has_suffix-append a s =
    rw (length-append-sub a s, drop-append_length a s, ≟_refl s) (ground (arith, length-append a s))

pub trim_suffix-append : (a s : Bytes) → trim_suffix (a ++ s) s ≡ a
unfolding trim_suffix
trim_suffix-append a s =
    rw (has_suffix-append a s) (rw (length-append-sub a s) (take-append_length a s))
