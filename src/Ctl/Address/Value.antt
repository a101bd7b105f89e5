-- ===== src/Ctl/Address/Value.antt =====
-- What an increment does to the number that an address spells.
use valon.Prelude.{
  ℕ, ◌+◌, ◌*◌, ◌%◌, ◌<◌, ◌≡◌, refl, ap, [], ◌∷◌, Bytes, All, arith, Bool-cases, inl, inr, ◌==◌,
  if◌then◌else◌,
}
use valon.Base32.RoundTrip.{IsByte}
use valon.Ctl.Address.{increment_loop, increment_ip}

-- the number of addresses of a length
unfoldable pub addresses : Bytes → ℕ
addresses [] = 1
addresses (b ∷ ip) = 256 * addresses ip

-- big-endian
unfoldable pub value : Bytes → ℕ
unfolding addresses
value [] = 0
value (b ∷ ip) = b * addresses ip + value ip

pub addresses-increment_loop : (ip : Bytes) → addresses (increment_loop ip).1 ≡ addresses ip
unfolding increment_loop addresses
addresses-increment_loop [] = refl
addresses-increment_loop (b ∷ ip) = elim (Bool-cases (increment_loop ip).0) [
  | inl on ↦ rw (on, increment_loop) (ap (λ n. 256 * n) (addresses-increment_loop ip))
  | inr off ↦ rw (off, increment_loop) (ap (λ n. 256 * n) (addresses-increment_loop ip))
]

below_step : (b v p : ℕ) → b < 256 → v < p → b * p + v < 256 * p
below_step b v p hb hv = grind arith

pub value-below : (ip : Bytes) → All IsByte ip → value ip < addresses ip
unfolding value
value-below [] h = omega arith
value-below (b ∷ ip) h = below_step b (value ip) (addresses ip) h.0 (value-below ip h.1)

carry_step :
    (b v w p : ℕ)
    → b < 256
    → v + p ≡ w + 1
    → (b + 1) % 256 * p + v + (if (b + 1) % 256 == 0 then 256 * p else 0) ≡ b * p + w + 1
carry_step b v w p hb hv = elim (Bool-cases (b == 255)) [
  | inl last ↦ let e : b ≡ 255 = ground arith in rw e (omega arith)
  | inr less ↦ let e : (b + 1) % 256 ≡ b + 1 = ground arith in rw e (grind arith)
]

-- The value after, and what the carry out of the first byte is worth, are one more than before.
pub carried :
    (ip : Bytes)
    → All IsByte ip
    → value (increment_loop ip).1 + (if (increment_loop ip).0 then addresses ip else 0)
      ≡ value ip + 1
unfolding value increment_loop addresses
carried [] h = refl
carried (b ∷ ip) h =
    let ih = carried ip h.1 in
    elim (Bool-cases (increment_loop ip).0) [
      | inl on ↦
          rw (on, increment_loop)
            (rw (addresses-increment_loop ip) (
              carry_step b (value (increment_loop ip).1) (value ip) (addresses ip) h.0
                (rw (on, increment_loop) at ih)))
      | inr off ↦
          let same : value (increment_loop ip).1 + 0 ≡ value ip + 1 =
            rw (off, increment_loop) at ih in
          rw (off, increment_loop) (rw (addresses-increment_loop ip) (omega arith))
    ]

pub increment_loop-IsByte : (ip : Bytes) → All IsByte ip → All IsByte (increment_loop ip).1
unfolding increment_loop
increment_loop-IsByte [] h = tt
increment_loop-IsByte (b ∷ ip) h =
    let ih = increment_loop-IsByte ip h.1 in
    elim (Bool-cases (increment_loop ip).0) [
      | inl on ↦ rw (on, increment_loop) (omega arith, ih)
      | inr off ↦ rw (off, increment_loop) (h.0, ih)
    ]

-- The address after an address of any length is the one whose number is one more, as a big-endian
-- number, and after the last address comes the one with the number zero.
increment_ip-value :
    (ip : Bytes)
    → All IsByte ip
    → (value ip + 1 < addresses ip → value (increment_ip ip) ≡ value ip + 1)
      × (value ip + 1 ≡ addresses ip → value (increment_ip ip) ≡ 0)
unfolding increment_ip
increment_ip-value ip h =
    let sum = carried ip h in
    let below = value-below ip h in
    let below_next = value-below (increment_loop ip).1 (increment_loop-IsByte ip h) in
    let same = addresses-increment_loop ip in
    elim (Bool-cases (increment_loop ip).0) [
      | inl on ↦
          let total : value (increment_loop ip).1 + addresses ip ≡ value ip + 1 =
            rw (on, increment_loop) at sum in
          (λ room. omega arith, λ last. omega arith)
      | inr off ↦
          let total : value (increment_loop ip).1 + 0 ≡ value ip + 1 =
            rw (off, increment_loop) at sum in
          (λ room. omega arith, λ last. omega arith)
    ]
