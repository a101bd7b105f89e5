-- ===== src/Ctl/Allocation/Answer.antt =====
-- Which address the loop of the allocation takes.
use valon.Prelude.{
  ℕ, zero, suc, ◌<◌, ◌≡◌, refl, true, false, List, Bytes, arith, Bool-cases, inl, inr,
}
use valon.Net.Cidr
use valon.Net.Cidr.{IpNet, mask_bytes}
use valon.Net.IpText.{ip_string}
use valon.Ctl.Address.{increment_ip}
use valon.Ctl.Allocation.{is_free, Search, found, exhausted, out_of_fuel, search_ip}

-- the address after so many increments
abbrev pub later : ℕ → Bytes → Bytes
later zero ip = ip
later (suc k) ip = later k (increment_ip ip)

-- the first so many addresses are in the network, but not free
abbrev pub Skipped : IpNet → List Bytes → Bytes → ℕ → Type 0
Skipped net used ip m =
    (k : ℕ)
    → k < m
    → (Cidr.contains net (later k ip) ≡ true) × (is_free net used (later k ip) ≡ false)

pub record FirstFree (net : IpNet) (used : List Bytes) (ip text : Bytes) : Type 0 where
  pub steps : ℕ
  pub inside : Cidr.contains net (later steps ip) ≡ true
  pub free : is_free net used (later steps ip) ≡ true
  pub spelled : text ≡ ip_string (later steps ip)
  pub skipped : Skipped net used ip steps

pub record NoneFree (net : IpNet) (used : List Bytes) (ip : Bytes) : Type 0 where
  pub steps : ℕ
  pub outside : Cidr.contains net (later steps ip) ≡ false
  pub skipped : Skipped net used ip steps

abbrev pub Answer : IpNet → List Bytes → Bytes → Search → Type 0
Answer net used ip (found text) = FirstFree net used ip text
Answer net used ip exhausted = NoneFree net used ip
Answer net used ip out_of_fuel = Unit

skip_one :
    (net : IpNet) (used : List Bytes) (ip : Bytes) (m : ℕ)
    → Cidr.contains net ip ≡ true
    → is_free net used ip ≡ false
    → Skipped net used (increment_ip ip) m
    → Skipped net used ip (suc m)
skip_one net used ip m within taken rest zero less = (within, taken)
skip_one net used ip m within taken rest (suc k) less = rest k (omega arith)

Answer-later :
    (net : IpNet) (used : List Bytes) (ip : Bytes) (r : Search)
    → Cidr.contains net ip ≡ true
    → is_free net used ip ≡ false
    → Answer net used (increment_ip ip) r
    → Answer net used ip r
Answer-later net used ip (found text) within taken a = record {
  steps = suc a.steps;
  inside = a.inside;
  free = a.free;
  spelled = a.spelled;
  skipped = skip_one net used ip a.steps within taken a.skipped;
}
Answer-later net used ip exhausted within taken a = record {
  steps = suc a.steps;
  outside = a.outside;
  skipped = skip_one net used ip a.steps within taken a.skipped;
}
Answer-later net used ip out_of_fuel within taken a = tt

-- The search takes the first free address, or there is none before the end of the network.
pub search_ip-Answer :
    (fuel : ℕ) (net : IpNet) (used : List Bytes) (ip : Bytes)
    → Answer net used ip (search_ip fuel net used ip)
unfolding search_ip
search_ip-Answer zero net used ip = tt
search_ip-Answer (suc fuel) net used ip = elim (Bool-cases (Cidr.contains net ip)) [
  | inr outside ↦
      rw (search_ip, outside)
        (record { steps = 0; outside = outside; skipped = λ k less. absurd (omega arith) })
  | inl within ↦ elim (Bool-cases (is_free net used ip)) [
    | inl free ↦
        rw (search_ip, within, free)
          (record {
            steps = 0;
            inside = within;
            free = free;
            spelled = refl;
            skipped = λ k less. absurd (omega arith);
          })
    | inr taken ↦
        rw (search_ip, within, taken)
          (Answer-later net used ip (search_ip fuel net used (increment_ip ip)) within taken
            (search_ip-Answer fuel net used (increment_ip ip)))
  ]
]
