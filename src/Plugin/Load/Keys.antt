-- ===== src/Plugin/Load/Keys.antt =====
-- How a key of etcd is taken apart: the public key is read back from the keys of its peer.
use valon.Prelude.{
  ℕ, suc, ◌+◌, ◌≡◌, refl, ap, ◌∙◌, true, false, ◌&&◌, Option, none, some, [], ◌∷◌, ◌++◌, Bytes,
  codes, length, drop, take-append_length, arith, ◌==◌,
}
use mathlib.Core.Option
use valon.Text.{index, has_prefix, contains, has_byte, is_some}
use valon.Etcd.Keys.{wg_ip_field, lan_field, nated_field, alias_field}
use valon.Plugin.Load.{split_at, split_key}

-- The text has none of the marks by which the loader finds the end of a public key.
pub record IsUnmarked (s : Bytes) : Type 0 where
  pub no_wg_ip : contains s (codes "/wg_ip") ≡ false
  pub no_alias : contains s (codes "/alias") ≡ false
  pub no_endpoints : contains s (codes "/endpoints") ≡ false

-- a prefix with no slash does not reach over one
within_part :
    (s r t : Bytes)
    → has_byte t b'/' ≡ false
    → has_prefix (s ++ b'/' ∷ r) t ≡ true
    → has_prefix s t ≡ true
unfolding has_prefix has_byte
within_part [] r [] free h = refl
within_part [] r (c ∷ t) free h = ground arith
within_part (d ∷ s) r [] free h = refl
within_part (d ∷ s) r (c ∷ t) free h = ground (arith, within_part s r t)

has_prefix-front : (s t u : Bytes) → has_prefix s (t ++ u) ≡ true → has_prefix s t ≡ true
unfolding has_prefix
has_prefix-front [] [] u h = refl
has_prefix-front (d ∷ s) [] u h = refl
has_prefix-front [] (c ∷ t) u h = ground arith
has_prefix-front (d ∷ s) (c ∷ t) u h = ground (arith, has_prefix-front s t u)

abbrev pub shift : ℕ → Option ℕ → Option ℕ
shift n none = none
shift n (some i) = some (n + i)

shift_zero : (o : Option ℕ) → o ≡ shift 0 o
shift_zero none = refl
shift_zero (some i) = ap some (omega arith)

shift-suc : (n : ℕ) (o : Option ℕ) → Option.map suc (shift n o) ≡ shift (suc n) o
shift-suc n none = refl
shift-suc n (some i) = ap some (omega arith)

-- A mark of which no front occurs in the text is found behind it, if it is there.
pub index-behind :
    (s r t u : Bytes)
    → has_byte t b'/' ≡ false
    → contains s (b'/' ∷ t) ≡ false
    → index (s ++ b'/' ∷ r) (b'/' ∷ (t ++ u))
      ≡ shift (length s) (index (b'/' ∷ r) (b'/' ∷ (t ++ u)))
unfolding contains index has_prefix
index-behind [] r t u free h = shift_zero (index (b'/' ∷ r) (b'/' ∷ (t ++ u)))
index-behind (c ∷ s) r t u free h =
    let front : (c == b'/' && has_prefix s t) ≡ false = ground arith in
    let later : contains s (b'/' ∷ t) ≡ false = ground (arith, is_some-map (index s (b'/' ∷ t))) in
    let ih = index-behind s r t u free later in
    let unmet : (c == b'/' && has_prefix (s ++ b'/' ∷ r) (t ++ u)) ≡ false =
      ground (arith, within_part s r t free, has_prefix-front (s ++ b'/' ∷ r) t u) in
    rw unmet (ap (Option.map suc) ih ∙ shift-suc (length s) _)
  where
    is_some-map : (o : Option ℕ) → is_some (Option.map suc o) ≡ is_some o
    is_some-map none = refl
    is_some-map (some n) = refl

drop-next : (q : Bytes) (c : ℕ) (r : Bytes) → drop (suc (length q)) (q ++ c ∷ r) ≡ r
drop-next [] c r = refl
drop-next (d ∷ q) c r = drop-next q c r

pub split_at-end : (q r : Bytes) → split_at (q ++ b'/' ∷ r) (some (length q + 0)) ≡ some (q, r)
split_at-end q r =
    let e : length q + 0 ≡ length q = omega arith in
    let after : length q + 1 ≡ suc (length q) = omega arith in
    rw (e, after, take-append_length q (b'/' ∷ r), drop-next q b'/' r) refl

module _ (q : Bytes) (h : IsUnmarked q) where
  wg_ip_at :
      (r : Bytes)
      → index (q ++ b'/' ∷ r) (codes "/wg_ip")
        ≡ shift (length q) (index (b'/' ∷ r) (codes "/wg_ip"))
  wg_ip_at r = index-behind q r (codes "wg_ip") [] (unfold has_byte in refl) h.no_wg_ip

  alias_at :
      (r : Bytes)
      → index (q ++ b'/' ∷ r) (codes "/alias")
        ≡ shift (length q) (index (b'/' ∷ r) (codes "/alias"))
  alias_at r = index-behind q r (codes "alias") [] (unfold has_byte in refl) h.no_alias

  endpoints_at :
      (r : Bytes)
      → index (q ++ b'/' ∷ r) (codes "/endpoints/")
        ≡ shift (length q) (index (b'/' ∷ r) (codes "/endpoints/"))
  endpoints_at r =
      index-behind q r (codes "endpoints") (codes "/") (unfold has_byte in refl) h.no_endpoints

  pub split_key-wg_ip : split_key (q ++ codes "/wg_ip") ≡ some (q, wg_ip_field)
  unfolding split_key index has_prefix
  split_key-wg_ip = rw (wg_ip_at wg_ip_field, split_at-end q wg_ip_field) refl

  pub split_key-alias : split_key (q ++ codes "/alias") ≡ some (q, alias_field)
  unfolding split_key index has_prefix
  split_key-alias = rw (wg_ip_at alias_field, alias_at alias_field, split_at-end q alias_field) refl

  pub split_key-lan : split_key (q ++ codes "/endpoints/lan") ≡ some (q, lan_field)
  unfolding split_key index has_prefix
  split_key-lan =
      rw (wg_ip_at lan_field, alias_at lan_field, endpoints_at lan_field, split_at-end q lan_field)
        refl

  pub split_key-nated : split_key (q ++ codes "/endpoints/nated") ≡ some (q, nated_field)
  unfolding split_key index has_prefix
  split_key-nated =
      rw
        (
          wg_ip_at nated_field,
          alias_at nated_field,
          endpoints_at nated_field,
          split_at-end q nated_field,
        )
        refl
