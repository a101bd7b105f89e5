-- ===== src/Tests/Allocate.antt =====
-- Allocations in small networks.
use valon.Prelude.{◌+◌, ◌^◌, ◌≡◌, ◌≢◌, refl, none, some, [], ◌∷◌, Bytes, codes, arith, ◌++◌}
use valon.Net.Cidr.{IpNet, parse_cidr}
use valon.Net.Addr.{v4_prefix}
use valon.Etcd.{find}
use valon.Etcd.Keys.{peer_key, wg_ip_field}
use valon.Ctl.Allocation.{none_available, no_fuel, allocate_ip}
use valon.Ctl.Allocation.Ends.{allocate_ip-ends}
use valon.Ctl.Allocation.Found.{IsAvailable, allocate_ip-IsAvailable}
use valon.Tests.Memory.{Memory, memory, memory-IsEtcd}

abbrev two_used : Memory
two_used =
    (peer_key (codes "a=") wg_ip_field, codes "10.9.8.1")
    ∷ (peer_key (codes "b=") wg_ip_field, codes "10.9.8.2")
    ∷ []

abbrev small : Bytes
small = codes "10.9.8.5/29"

abbrev tiny : Bytes
tiny = codes "10.9.8.0/30"

abbrev small_net : IpNet
small_net = record { ip = 10 ∷ 9 ∷ 8 ∷ 0 ∷ []; ones = 29 }

abbrev tiny_net : IpNet
tiny_net = record { ip = 10 ∷ 9 ∷ 8 ∷ 0 ∷ []; ones = 30 }

small_parsed : parse_cidr small ≡ some (v4_prefix ++ 10 ∷ 9 ∷ 8 ∷ 5 ∷ [], small_net)
unfolding parse_cidr valon.Text.index_byte valon.Net.Addr.ipv4_fields valon.Prelude.◌≟◌
small_parsed = refl

tiny_parsed : parse_cidr tiny ≡ some (v4_prefix ++ 10 ∷ 9 ∷ 8 ∷ 0 ∷ [], tiny_net)
unfolding parse_cidr valon.Text.index_byte valon.Net.Addr.ipv4_fields valon.Prelude.◌≟◌
tiny_parsed = refl

third : (allocate_ip memory 9 small two_used).0 ≡ (none, codes "10.9.8.3")
unfolding allocate_ip parse_cidr valon.Text.index_byte valon.Net.Addr.ipv4_fields valon.Prelude.◌≟◌
    memory valon.Net.Cidr.contains valon.Net.Addr.to4 valon.Ctl.Address.increment_ip
    valon.Ctl.Allocation.is_used valon.Text.has_prefix valon.Text.Path.path_join valon.Text.split
    peer_key valon.Text.has_suffix valon.Net.IpText.ip_string valon.Net.Dotted.dotted
third = refl

full : (allocate_ip memory 9 tiny two_used).0.0 ≡ some none_available
unfolding allocate_ip parse_cidr valon.Text.index_byte valon.Net.Addr.ipv4_fields valon.Prelude.◌≟◌
    memory valon.Net.Cidr.contains valon.Net.Addr.to4 valon.Ctl.Address.increment_ip
    valon.Ctl.Allocation.is_used valon.Text.has_prefix valon.Text.Path.path_join valon.Text.split
    peer_key valon.Text.has_suffix valon.Net.IpText.ip_string valon.Net.Dotted.dotted
full = refl

allocate_ip-ends_example : (allocate_ip memory (2 ^ 32 + 1) small two_used).0.0 ≢ some no_fuel
allocate_ip-ends_example =
    allocate_ip-ends memory (2 ^ 32 + 1) small _ small_net two_used small_parsed refl
      (omega arith, (omega arith, (omega arith, (omega arith, tt)))) (omega arith) (omega arith)

allocate_ip-IsAvailable_example : IsAvailable small_net (find two_used) (codes "10.9.8.3")
unfolding memory-IsEtcd
allocate_ip-IsAvailable_example =
    allocate_ip-IsAvailable memory memory-IsEtcd 9 small _ small_net two_used (codes "10.9.8.3")
      small_parsed third
