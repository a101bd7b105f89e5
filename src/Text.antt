-- ===== src/Text.antt =====
-- Package strings of Go's standard library, as far as the program calls it, on lists of bytes.
-- An index that Go gives as -1 is `none`.
pub mod Laws
pub mod Path
use valon.Prelude.{
  ℕ, suc, ◌+◌, ◌-◌, Bool, true, false, ◌&&◌, ◌||◌, Option, none, some, List, [], ◌∷◌, ◌++◌, map,
  Bytes, leb, ltb, if◌then◌else◌, length, take, drop, ◌==◌, ◌≟◌,
}
use mathlib.Core.Option

unfoldable pub has_prefix : Bytes → Bytes → Bool
has_prefix s [] = true
has_prefix [] (p ∷ ps) = false
has_prefix (c ∷ s) (p ∷ ps) = c == p && has_prefix s ps

unfoldable pub has_suffix : Bytes → Bytes → Bool
has_suffix s suffix = leb (length suffix) (length s) && drop (length s - length suffix) s ≟ suffix

unfoldable pub trim_prefix : Bytes → Bytes → Bytes
unfolding has_prefix
trim_prefix s prefix = if has_prefix s prefix then drop (length prefix) s else s

unfoldable pub trim_suffix : Bytes → Bytes → Bytes
unfolding has_suffix
trim_suffix s suffix = if has_suffix s suffix then take (length s - length suffix) s else s

-- strings.Index
unfoldable pub index : Bytes → Bytes → Option ℕ
unfolding has_prefix
index [] sub = if has_prefix [] sub then some 0 else none
index (c ∷ s) sub = if has_prefix (c ∷ s) sub then some 0 else Option.map suc (index s sub)

-- strings.IndexByte
unfoldable pub index_byte : Bytes → ℕ → Option ℕ
index_byte [] b = none
index_byte (c ∷ s) b = if c == b then some 0 else Option.map suc (index_byte s b)

-- strings.LastIndexByte
unfoldable pub last_index_byte : Bytes → ℕ → Option ℕ
last_index_byte [] b = none
last_index_byte (c ∷ s) b = elim (last_index_byte s b) [
  | some i ↦ some (suc i)
  | none ↦ if c == b then some 0 else none
]

abbrev pub is_some {ℓ} : {A : Type ℓ} → Option A → Bool
is_some none = false
is_some (some a) = true

unfoldable pub contains : Bytes → Bytes → Bool
unfolding index
contains s sub = is_some (index s sub)

-- `strings.Contains` of one byte, and `strings.ContainsAny` of ASCII bytes.
unfoldable pub has_byte : Bytes → ℕ → Bool
has_byte [] b = false
has_byte (c ∷ s) b = c == b || has_byte s b

unfoldable pub contains_any : Bytes → Bytes → Bool
unfolding has_byte
contains_any [] chars = false
contains_any (c ∷ s) chars = has_byte chars c || contains_any s chars

-- every byte passes the test
unfoldable pub all_bytes : (ℕ → Bool) → Bytes → Bool
all_bytes p [] = true
all_bytes p (c ∷ s) = p c && all_bytes p s

-- strings.Split with a separator of one byte.
unfoldable pub split : Bytes → ℕ → List Bytes
split [] sep = [] ∷ []
split (c ∷ s) sep = elim (split s sep) [
  | [] ↦ [] ∷ []
  | part ∷ parts ↦ if c == sep then [] ∷ part ∷ parts else (c ∷ part) ∷ parts
]

-- What package strings does with a text that has a byte outside ASCII, by the tables of package
-- unicode. The program depends on nothing of it.
pub record Unicode : Type 0 where
  pub upper : Bytes → Bytes
  pub lower : Bytes → Bytes
  pub trim : Bytes → Bytes

unfoldable pub is_ascii : Bytes → Bool
is_ascii [] = true
is_ascii (c ∷ s) = ltb c 128 && is_ascii s

unfoldable pub upper_byte : ℕ → ℕ
upper_byte c = if leb b'a' c && leb c b'z' then c - 32 else c

unfoldable pub lower_byte : ℕ → ℕ
lower_byte c = if leb b'A' c && leb c b'Z' then c + 32 else c

-- strings.ToUpper and strings.ToLower
unfoldable pub to_upper : Unicode → Bytes → Bytes
unfolding is_ascii upper_byte
to_upper u s = if is_ascii s then map upper_byte s else u.upper s

unfoldable pub to_lower : Unicode → Bytes → Bytes
unfolding is_ascii lower_byte
to_lower u s = if is_ascii s then map lower_byte s else u.lower s

unfoldable pub is_space : ℕ → Bool
is_space c = c == b' ' || leb 9 c && leb c 13

unfoldable pub drop_while : (ℕ → Bool) → Bytes → Bytes
drop_while p [] = []
drop_while p (c ∷ s) = let rest = drop_while p s in if p c then rest else c ∷ s

unfoldable pub trim_right : (ℕ → Bool) → Bytes → Bytes
trim_right p [] = []
trim_right p (c ∷ s) = elim (trim_right p s) [
  | [] ↦ if p c then [] else c ∷ []
  | d ∷ rest ↦ c ∷ d ∷ rest
]

-- strings.Trim with a cutset that is a test on bytes
unfoldable pub trim : (ℕ → Bool) → Bytes → Bytes
unfolding drop_while trim_right
trim p s = trim_right p (drop_while p s)

unfoldable pub trim_space : Unicode → Bytes → Bytes
unfolding is_ascii is_space trim
trim_space u s = if is_ascii s then trim is_space s else u.trim s

abbrev between : ℕ → ℕ → ℕ → Bool
between lo hi c = leb lo c && leb c hi

abbrev is_tail : ℕ → Bool
is_tail = between 0x80 0xbf

-- The number of bytes that `utf8.DecodeRuneInString` takes: of a valid sequence its length, and
-- one of anything else.
unfoldable pub rune_width : Bytes → ℕ
rune_width (a ∷ b ∷ c ∷ d ∷ s) =
    if between 0xc2 0xdf a && is_tail b
    then 2
    else if (a == 0xe0 && between 0xa0 0xbf b
          || between 0xe1 0xec a && is_tail b
          || a == 0xed && between 0x80 0x9f b
          || between 0xee 0xef a && is_tail b)
        && is_tail c
    then 3
    else if (a == 0xf0 && between 0x90 0xbf b
          || between 0xf1 0xf3 a && is_tail b
          || a == 0xf4 && between 0x80 0x8f b)
        && is_tail c
        && is_tail d
    then 4
    else 1
rune_width (a ∷ b ∷ c ∷ []) =
    if between 0xc2 0xdf a && is_tail b
    then 2
    else if (a == 0xe0 && between 0xa0 0xbf b
          || between 0xe1 0xec a && is_tail b
          || a == 0xed && between 0x80 0x9f b
          || between 0xee 0xef a && is_tail b)
        && is_tail c
    then 3
    else 1
rune_width (a ∷ b ∷ []) = if between 0xc2 0xdf a && is_tail b then 2 else 1
rune_width _ = 1
