-- ===== src/Ctl/PeerTable.antt =====
-- valonctl/cmd/peer_list.go and valonctl/cmd/peer_export.go. The peers come from ListPeers in any
-- order. A time is a number of nanoseconds. Of a text that is formatted, the values are kept; the
-- table writer, the JSON encoder and the file are outside, the last as an argument.
use valon.Prelude.{
  ℕ, zero, suc, ◌+◌, ◌%◌, ◌||◌, ◌&&◌, refl, ◌≡◌, ◌-◌, ◌*◌, ◌/◌, ◌^◌, min, Bool, Option, none, some,
  List, [], ◌∷◌, ◌++◌, map, Bytes, codes, take, length, leb, ltb, if◌then◌else◌, ◌==◌, ◌≟◌,
}
use valon.Etcd.{Etcd}
use valon.Ctl.PeerList.{ListedPeer, PeerEntries, list_peers}

unfoldable pub truncate_pubkey : Bytes → Bytes
truncate_pubkey pubkey = if leb (length pubkey) 8 then pubkey else take 5 pubkey ++ codes "..."

-- "never", "just now" and the numbers in "%dm ago", "%dh ago" and "%dd ago"
pub data LastSeen : Type 0 where
  never just_now : LastSeen
  minutes_ago hours_ago days_ago : ℕ → LastSeen

abbrev pub minute : ℕ
minute = 60 * 10 ^ 9

abbrev pub hour : ℕ
hour = 3600 * 10 ^ 9

-- `time.Since`, which is at most the largest duration; a time to come is "just now"
abbrev pub since : ℕ → ℕ → ℕ
since now t = min (now - t) (2 ^ 63 - 1)

-- A float64 that is not negative, as a numerator over a power of two: (m, k) is m / 2 ^ k.
abbrev Float64 : Type 0
Float64 = ℕ × ℕ

-- n / d to the nearest whole number, to an even one between two
round_half : ℕ → ℕ → ℕ
round_half n d =
    if ltb (2 * (n % d)) d || (2 * (n % d) == d && n / d % 2 == 0) then n / d else n / d + 1

-- The nearest float64 to n / d, which has 53 bits; a number that is not zero is scaled up until it
-- has them.
round_from : ℕ → ℕ → ℕ → ℕ → Float64
unfolding round_half
round_from zero k n d = (round_half n d, k)
round_from (suc fuel) k n d =
    let scaled = round_from fuel (k + 1) (2 * n) d in
    if leb (2 ^ 52) (n / d) then (round_half n d, k) else scaled

-- Of the fractions here none is under 2 ^ -42 but zero, so 96 steps are enough.
nearest : ℕ → ℕ → Float64
unfolding round_from
nearest n d = if n == 0 then (0, 0) else round_from 96 0 n d

-- float64(elapsed / unit) + float64(elapsed % unit) / float64(unit), as `Minutes` and `Hours`
-- compute it; the first two are exact
in_units : ℕ → ℕ → Float64
unfolding nearest
in_units unit elapsed =
    let (m, k) = nearest (elapsed % unit) unit in nearest (elapsed / unit * 2 ^ k + m) (2 ^ k)

divided_by : Float64 → ℕ → Float64
unfolding nearest
divided_by (m, k) n = nearest m (n * 2 ^ k)

-- int(...)
whole : Float64 → ℕ
whole (m, k) = m / 2 ^ k

unfoldable pub elapsed_text : ℕ → LastSeen
unfolding in_units divided_by whole
elapsed_text elapsed =
    if ltb elapsed minute
    then just_now
    else if ltb elapsed hour
    then minutes_ago (whole (in_units minute elapsed))
    else if ltb elapsed (24 * hour)
    then hours_ago (whole (in_units hour elapsed))
    else days_ago (whole (divided_by (in_units hour elapsed) 24))

unfoldable pub format_last_seen : ℕ → ℕ → LastSeen
unfolding elapsed_text
format_last_seen now t = if t == 0 then never else elapsed_text (since now t)

pub record Row : Type 0 where
  pub alias : Bytes
  pub pubkey : Bytes
  pub ip : Bytes
  pub lan_endpoint : Bytes
  pub nat_endpoint : Bytes
  pub last_seen : LastSeen

abbrev pub or_dash : Bytes → Bytes
or_dash endpoint = if endpoint ≟ [] then codes "-" else endpoint

abbrev pub row : ℕ → Bytes × ListedPeer → Row
row now (k, p) = record {
  alias = p.alias;
  pubkey = truncate_pubkey p.pubkey;
  ip = p.ip;
  lan_endpoint = or_dash p.lan_endpoint;
  nat_endpoint = or_dash p.nat_endpoint;
  last_seen = format_last_seen now p.last_seen;
}

pub data ListResult : Type 0 where
  etcd_client_failed list_failed no_peers write_failed : ListResult
  table : List Row → ListResult
  exported : List (Bytes × (Bytes × Bytes)) → ListResult

-- the static fields: key, address and alias
abbrev pub exported_peer : Bytes × ListedPeer → Bytes × (Bytes × Bytes)
exported_peer (k, p) = (p.pubkey, (p.ip, p.alias))

abbrev pub output_path : List Bytes → Bytes
output_path [] = codes "peers.json"
output_path (path ∷ rest) = path

abbrev listed_rows : ℕ → PeerEntries → ListResult
listed_rows now [] = no_peers
listed_rows now (p ∷ peers) = table (map (row now) (p ∷ peers))

-- `write` says whether the JSON text could be made and the file written
abbrev exported_rows :
    (Bytes → List (Bytes × (Bytes × Bytes)) → Bool) → Bytes → PeerEntries → ListResult
exported_rows write path [] = no_peers
exported_rows write path (p ∷ peers) =
    let rows = map exported_peer (p ∷ peers) in
    if write path rows then exported rows else write_failed

module _ {S : Type 0} (e : Etcd S) (parse_time : Bytes → Option ℕ)
    (in_order : PeerEntries → PeerEntries) where
  unfoldable pub run_peer_list : ℕ → Bool → S → ListResult × S
  run_peer_list now etcd_client s =
      if etcd_client
      then (let (peers, s') = list_peers parse_time e s in
          (elim peers [ none ↦ list_failed | some all ↦ listed_rows now (in_order all) ], s'))
      else (etcd_client_failed, s)

  unfoldable pub run_peer_export :
      (Bytes → List (Bytes × (Bytes × Bytes)) → Bool) → List Bytes → Bool → S → ListResult × S
  run_peer_export write args etcd_client s =
      if etcd_client
      then (let (peers, s') = list_peers parse_time e s in
          (
            elim peers [
              | none ↦ list_failed
              | some all ↦ exported_rows write (output_path args) (in_order all)
            ],
            s',
          ))
      else (etcd_client_failed, s)

-- A day that is not over is cut off, but after many days the float64 of a time just before the end of
-- a day is rounded up to it.
last_seen_tests :
    (elapsed_text (60 * 10 ^ 9 - 1) ≡ just_now)
    × (elapsed_text (3599 * 10 ^ 9) ≡ minutes_ago 59)
    × (elapsed_text (48 * hour - 1) ≡ days_ago 1)
    × (elapsed_text (24 * hour * 100_000 - 1) ≡ days_ago 100_000)
    × (elapsed_text (24 * hour * 100_000 - 10 ^ 9) ≡ days_ago 99_999)
unfolding elapsed_text
last_seen_tests = (refl, refl, refl, refl, refl)
