-- ===== src/Net/HostPort.antt =====
-- `net.SplitHostPort`. Which of its errors is reported is not modelled: no caller looks at it.
use valon.Prelude.{
  ℕ, ◌+◌, ◌-◌, ◌≡◌, refl, Bool, false, ◌||◌, Option, none, some, [], ◌∷◌, Bytes, codes, take, drop,
  if◌then◌else◌, ◌==◌,
}
use valon.Text.{index_byte, last_index_byte, has_byte}

-- a host in brackets, which end at `last`, the last `]` before the last colon
unfoldable pub split_bracketed : Bytes → ℕ → ℕ → Option (Bytes × Bytes)
split_bracketed hostport close last =
    if close + 1 == last
    then (if has_byte (drop 1 hostport) b'[' || has_byte (drop (close + 1) hostport) b']'
        then none
        else some (take (close - 1) (drop 1 hostport), drop (last + 1) hostport))
    else none

unfoldable pub split_plain : Bytes → ℕ → Option (Bytes × Bytes)
split_plain hostport last =
    let host = take last hostport in
    if has_byte host b':' || has_byte hostport b'[' || has_byte hostport b']'
    then none
    else some (host, drop (last + 1) hostport)

abbrev starts_bracket : Bytes → Bool
starts_bracket [] = false
starts_bracket (c ∷ s) = c == b'['

unfoldable pub split_host_port : Bytes → Option (Bytes × Bytes)
unfolding split_bracketed split_plain
split_host_port hostport = elim (last_index_byte hostport b':') [
  | none ↦ none
  | some last ↦
      if starts_bracket hostport
      then elim (index_byte hostport b']') [
        | none ↦ none
        | some close ↦ split_bracketed hostport close last
      ]
      else split_plain hostport last
]

split_host_port_tests :
    (split_host_port (codes "192.168.1.100:51820") ≡ some (codes "192.168.1.100", codes "51820"))
    × (split_host_port (codes "[fe80::1]:80") ≡ some (codes "fe80::1", codes "80"))
    × (split_host_port (codes "fe80::1:80") ≡ none)
    × (split_host_port (codes "host") ≡ none)
    × (split_host_port (codes ":") ≡ some ([], []))
unfolding split_host_port last_index_byte index_byte has_byte
split_host_port_tests = (refl, refl, refl, refl, refl)
