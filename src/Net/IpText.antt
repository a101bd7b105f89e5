-- ===== src/Net/IpText.antt =====
-- `IP.String` of Go's net package: four decimal numbers for an IPv4 address in either form, and for
-- any other the groups in hexadecimal, with `::` for the first longest run of two or more zeros.
use valon.Prelude.{
  ℕ, suc, ◌+◌, ◌*◌, ◌/◌, ◌%◌, ◌≡◌, refl, ◌&&◌, none, some, List, [], ◌∷◌, ◌++◌, Bytes, codes, take,
  drop, leb, ltb, if◌then◌else◌, ◌==◌, ◌≟◌,
}
use valon.Net.Addr.{to4, v4_prefix}
use valon.Net.Dotted.{dotted}

abbrev hex_byte : ℕ → ℕ
hex_byte d = if ltb d 10 then 48 + d else 87 + d

-- without leading zeros
unfoldable pub hex_word : ℕ → Bytes
hex_word w =
    if ltb w 16
    then hex_byte w ∷ []
    else if ltb w 256
    then hex_byte (w / 16) ∷ hex_byte (w % 16) ∷ []
    else if ltb w 4096
    then hex_byte (w / 256) ∷ hex_byte (w / 16 % 16) ∷ hex_byte (w % 16) ∷ []
    else hex_byte (w / 4096)
      ∷ hex_byte (w / 256 % 16)
      ∷ hex_byte (w / 16 % 16)
      ∷ hex_byte (w % 16)
      ∷ []

unfoldable pub words : Bytes → List ℕ
words (a ∷ b ∷ ip) = (a * 256 + b) ∷ words ip
words _ = []

unfoldable pub zero_run : List ℕ → ℕ
zero_run [] = 0
zero_run (w ∷ ws) = let rest = zero_run ws in if w == 0 then suc rest else 0

-- the start and the length of the best run so far
unfoldable pub longest_run : ℕ → ℕ × ℕ → List ℕ → ℕ × ℕ
unfolding zero_run
longest_run at best [] = best
longest_run at best (w ∷ ws) =
    let run = zero_run (w ∷ ws) in
    longest_run (at + 1) (if leb 2 run && ltb best.1 run then (at, run) else best) ws

unfoldable pub joined : List ℕ → Bytes
unfolding hex_word
joined [] = []
joined (w ∷ []) = hex_word w
joined (w ∷ v ∷ ws) = hex_word w ++ b':' ∷ joined (v ∷ ws)

unfoldable pub ip6_text : List ℕ → Bytes
unfolding longest_run joined
ip6_text ws =
    let (at, run) = longest_run 0 (0, 0) ws in
    if run == 0 then joined ws else joined (take at ws) ++ codes "::" ++ joined (drop (at + run) ws)

-- The addresses of the program have 4 or 16 bytes.
unfoldable pub ip_string : Bytes → Bytes
unfolding words ip6_text
ip_string ip = elim (to4 ip) [ none ↦ ip6_text (words ip) | some ip4 ↦ dotted ip4 ]

ip_string_tests :
    (ip_string (v4_prefix ++ 10 ∷ 0 ∷ 0 ∷ 7 ∷ []) ≡ codes "10.0.0.7")
    × (ip_string (0xfd ∷ 0 ∷ 0 ∷ 0 ∷ 0 ∷ 1 ∷ 0 ∷ 0 ∷ 0 ∷ 0 ∷ 0 ∷ 0 ∷ 0 ∷ 0 ∷ 0xab ∷ 0xc0 ∷ [])
        ≡ codes "fd00:0:1::abc0")
unfolding ip_string to4 ◌≟◌ dotted
ip_string_tests = (refl, refl)
