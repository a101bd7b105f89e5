-- ===== src/Tests/Listing.antt =====
-- The peers of valonctl: listed, shown and removed.
use valon.Prelude.{ℕ, true, Option, none, List, [], ◌∷◌, Bytes, codes}
use valon.Etcd.Keys.{peer_key, alias_key, wg_ip_field, alias_field}
use valon.Ctl.PeerAdd.{Outside}
use valon.Ctl.PeerList.{PeerEntries}
use valon.Ctl.PeerRemove.{run_peer_remove}
use valon.Ctl.PeerRemove.Removes.{Left, run_peer_remove-Left}
use valon.Tests.Memory.{Memory, memory, memory-IsEtcd}
use valon.Tests.Device.{wg0, one_device, one_device-IsWgctrl}
use valon.Tests.Samples.{key, pub_key}

abbrev no_time : Bytes → Option ℕ
no_time text = none

abbrev as_listed : PeerEntries → PeerEntries
as_listed peers = peers

abbrev known : Memory
known =
    (peer_key pub_key wg_ip_field, codes "10.0.0.7")
    ∷ (peer_key pub_key alias_field, codes "desk-top")
    ∷ (alias_key (codes "desk-top"), pub_key)
    ∷ []

abbrev before : Outside Memory (List Bytes)
before = record { etcd = known; wireguard = key ∷ [] }

run_peer_remove-Left_example :
    Left memory one_device memory-IsEtcd one_device-IsWgctrl no_time as_listed none wg0
      (codes "desk-top")
      before
      (run_peer_remove memory one_device no_time as_listed none wg0 (codes "desk-top") true before)
run_peer_remove-Left_example =
    run_peer_remove-Left memory one_device memory-IsEtcd one_device-IsWgctrl no_time as_listed none
      wg0 (codes "desk-top") true before
