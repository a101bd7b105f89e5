-- ===== src/Tests/Samples.antt =====
-- The network of the runs: the Discovery Role at 10.0.0.1 and one peer with two endpoints.
use valon.Prelude.{◌≡◌, refl, Bool, true, ◌&&◌, [], ◌∷◌, Bytes, codes, ltb, All, arith}
use valon.Text.{Unicode}
use valon.Base32.RoundTrip.{IsByte}
use valon.Base64
use valon.Etcd.Keys.{alias_key}
use valon.Plugin.Cache.{PeerInfo, PeerCache}
use valon.Plugin.World.{World, Config}
use valon.Tests.Memory.{Memory}

-- the texts of the runs are ASCII, so the functions on other texts are never asked
abbrev pub no_runes : Unicode
no_runes = record { upper = λ s. s; lower = λ s. s; trim = λ s. s }

abbrev pub network : Config
network = record { zone = codes "valon.internal."; self_wg_ip = codes "10.0.0.1" }

abbrev pub key : Bytes
key =
    200 ∷ 14 ∷ 77 ∷ 0 ∷ 255 ∷ 31 ∷ 9 ∷ 10 ∷ 121 ∷ 64 ∷ 3 ∷ 18 ∷ 250 ∷ 99 ∷ 1 ∷ 6 ∷ 40 ∷ 41 ∷ 42 ∷ 43
    ∷ 44 ∷ 45 ∷ 46 ∷ 47 ∷ 180 ∷ 181 ∷ 182 ∷ 183 ∷ 184 ∷ 185 ∷ 186 ∷ 187 ∷ []

unfoldable pub all_bytes_fit : Bytes → Bool
all_bytes_fit [] = true
all_bytes_fit (b ∷ bs) = ltb b 256 && all_bytes_fit bs

pub All-fit : (bs : Bytes) → all_bytes_fit bs ≡ true → All IsByte bs
unfolding all_bytes_fit
All-fit [] h = tt
All-fit (b ∷ bs) h = (ground arith, All-fit bs (ground arith))

pub key-bytes : All IsByte key
unfolding all_bytes_fit
key-bytes = All-fit key refl

abbrev pub pub_key : Bytes
pub_key = Base64.encode key

abbrev pub peer : PeerInfo
peer = record {
  pub_key = pub_key;
  wg_ip = codes "10.0.0.7";
  lan_endpoint = codes "192.168.1.5:51820";
  nat_endpoint = codes "203.0.113.9:41000";
  last_handshake = 0;
  updated_at = 5;
  dirty = true;
}

abbrev pub cached : PeerCache
cached = (pub_key, peer) ∷ []

abbrev pub store : Memory
store = (alias_key (codes "my-laptop"), pub_key) ∷ []

abbrev pub world : World Memory
world = record { cache = cached; etcd = store }
