-- ===== src/Tests/Registry.antt =====
-- Peers registered and removed by valonctl.
use valon.Prelude.{All, arith, ◌≡◌, ◌≢◌, refl, [], ◌∷◌, Bytes, codes, ok, ne_of_≟, ◌≟◌}
use valon.Text.{has_suffix, split, contains}
use valon.Text.Path.{IsPlain, path_join}
use valon.Base64
use valon.Ctl.EtcdClient.{PeerInfo, add_peer, identify}
use valon.Base32.RoundTrip.{IsByte}
use valon.Tests.Memory.{Memory, memory}
use valon.Tests.Samples.{pub_key}

abbrev pub new_peer : PeerInfo
new_peer = record { pubkey = pub_key; ip = codes "10.0.0.7"; alias = codes "my-laptop" }

pub pub_key-IsPlain : IsPlain pub_key
unfolding split ◌≟◌ Base64.encode
pub_key-IsPlain = ((refl, refl, refl), tt)

pub alias-IsPlain : IsPlain (codes "my-laptop")
unfolding split ◌≟◌
alias-IsPlain = ((refl, refl, refl), tt)

pub pub_key-ne_nil : pub_key ≢ []
unfolding ◌≟◌ Base64.encode
pub_key-ne_nil = ne_of_≟ pub_key [] refl

abbrev pub registry : Memory
registry = (add_peer memory new_peer []).1

pub known : (identify memory (codes "my-laptop") registry).0 ≡ ok (pub_key, codes "my-laptop")
unfolding identify contains has_suffix ◌≟◌ memory add_peer Base64.encode path_join split
known = refl

abbrev last_of_block : Bytes
last_of_block = 10 ∷ 0 ∷ 0 ∷ 255 ∷ []

last_of_block-bytes : All IsByte last_of_block
last_of_block-bytes = (omega arith, (omega arith, (omega arith, (omega arith, tt))))
