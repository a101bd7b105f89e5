-- ===== src/Etcd/Fields.antt =====
-- The fields of a peer in etcd, and that a key of the form /valon/peers/<pubkey>/<field> belongs to
-- one peer and one field only.
use valon.Prelude.{◌≡◌, refl, ap, sym, ◌∙◌, [], ◌∷◌, ◌++◌, ℕ, Bytes, codes, ◌&&◌, ◌≟◌, ≟_iff, arith}
use mathlib.Core.List.{append_cancel_left, append_cancel_right}
use valon.Etcd.Keys.{peer_key, wg_ip_field, lan_field, nated_field, alias_field}

pub data Field : Type 0 where
  of_wg_ip of_lan of_nated of_alias : Field

abbrev pub field_name : Field → Bytes
field_name of_wg_ip = wg_ip_field
field_name of_lan = lan_field
field_name of_nated = nated_field
field_name of_alias = alias_field

abbrev last_byte : ℕ → Bytes → ℕ
last_byte d [] = d
last_byte d (c ∷ s) = last_byte c s

last_byte-append : (d c : ℕ) (s t : Bytes) → last_byte d (s ++ c ∷ t) ≡ last_byte c t
last_byte-append d c [] t = refl
last_byte-append d c (b ∷ s) t = last_byte-append b c s t

-- the last byte tells the fields apart
last_of :
    (q : Bytes) (f : Field) → last_byte 0 (q ++ b'/' ∷ field_name f) ≡ last_byte b'/' (field_name f)
last_of q f = last_byte-append 0 b'/' q (field_name f)

same_field : (g f : Field) → last_byte b'/' (field_name g) ≡ last_byte b'/' (field_name f) → g ≡ f
same_field of_wg_ip of_wg_ip h = refl
same_field of_lan of_lan h = refl
same_field of_nated of_nated h = refl
same_field of_alias of_alias h = refl
same_field of_wg_ip of_lan h = absurd (omega (arith, h))
same_field of_wg_ip of_nated h = absurd (omega (arith, h))
same_field of_wg_ip of_alias h = absurd (omega (arith, h))
same_field of_lan of_wg_ip h = absurd (omega (arith, h))
same_field of_lan of_nated h = absurd (omega (arith, h))
same_field of_lan of_alias h = absurd (omega (arith, h))
same_field of_nated of_wg_ip h = absurd (omega (arith, h))
same_field of_nated of_lan h = absurd (omega (arith, h))
same_field of_nated of_alias h = absurd (omega (arith, h))
same_field of_alias of_wg_ip h = absurd (omega (arith, h))
same_field of_alias of_lan h = absurd (omega (arith, h))
same_field of_alias of_nated h = absurd (omega (arith, h))

-- The public key and the field can be read back from a key, whatever the public key is.
pub peer_key_inj :
    (q r : Bytes) (g f : Field)
    → peer_key q (field_name g) ≡ peer_key r (field_name f)
    → (q ≡ r) × (g ≡ f)
unfolding peer_key
peer_key_inj q r g f e =
    let rest = append_cancel_left (codes "/valon/peers/") _ _ e in
    let field = same_field g f (sym (last_of q g) ∙ ap (last_byte 0) rest ∙ last_of r f) in
    (
      append_cancel_right q r (codes "/" ++ field_name f)
          (ap (λ h. q ++ (codes "/" ++ field_name h)) (sym field) ∙ rest),
      field,
    )

pub ≟-peer_key :
    (q r : Bytes) (g f : Field)
    → peer_key q (field_name g) ≟ peer_key r (field_name f) ≡ (q ≟ r && field_name g ≟ field_name f)
≟-peer_key q r g f = ground (
  arith,
  ≟_iff q r,
  ≟_iff (field_name g) (field_name f),
  ≟_iff (peer_key q (field_name g)) (peer_key r (field_name f)),
  names,
  same_key,
)
  where
    names :
        peer_key q (field_name g) ≡ peer_key r (field_name f)
        → (q ≡ r) × (field_name g ≡ field_name f)
    names e = let (k, n) = peer_key_inj q r g f e in (k, ap field_name n)

    same_key :
        q ≡ r → field_name g ≡ field_name f → peer_key q (field_name g) ≡ peer_key r (field_name f)
    same_key e n = rw (e, n) refl
