-- ===== src/Lib.antt =====
-- VALON, a discovery service for the peers of a WireGuard network: a CoreDNS plugin that keeps the
-- peers in a memory cache, answers DNS queries from it, takes updates over HTTP and writes the cache
-- to etcd; and valonctl, the command-line tool that manages peers in etcd.
--
-- Plugin (coredns-plugin/valon). World.antt is the state that its handlers and loops share, the
-- cache and the state of etcd, and the part of the configuration that they read.
--   Plugin/Cache.antt      cache.go: get, set, update, get_all, delete and count are the methods of
--                          PeerCache. A cache is a list of entries; a missing key is `none`.
--   Plugin/Encoding.antt   encoding.go: dnsLabelToPubkey and pubkeyToDnsLabel.
--   Plugin/Ddns.antt       ddns.go: handleEndpointUpdate, handleEndpointDelete, isAuthorized,
--                          extractClientIP, handleHealth. A handler returns its response and the
--                          new state; a panic of a log line is a response of its own.
--   Plugin/Ddns/Server.antt  ddns.go: startDDNSServer, from a path to its handler.
--   Plugin/Handler.antt    handler.go: ServeDNS and all handlers behind it. Message.antt holds the
--                          records and messages that they build.
--   Plugin/Sync.antt       etcd_sync.go: syncToEtcd and writePeerToEtcd.
--   Plugin/Monitor.antt    wg_monitor.go: pollWireGuard, processPeer, loadPeerFromEtcd, extractWgIP.
--   Plugin/Load.antt       valon.go: loadFromEtcd, from the keys of etcd to the cache.
--   Plugin/Setup.antt      setup.go: the reading of the Corefile.
--   Plugin/Start.antt      valon.go: Init with restoreWireGuardPeers, registerSelf, getOwnPublicKey
--                          and getOwnWireGuardIP.
--   Plugin/Node.antt       valon.go: the handlers and loops that Init starts, as steps in any order.
--   Plugin/Init.antt       setup.go and valon.go: setup as a whole, with Init.
--   Plugin/Loops.antt      startWgMonitor and startEtcdSync with their tickers, as loops over what their
--                          select receives, and the default intervals of Init.
-- A range over a Go map comes in any order: what it yields is an argument of the functions that run
-- it, and the theorems hold for every such list. A time is a number that the caller gives.
--
-- Tool (valonctl/pkg and valonctl/cmd).
--   Ctl/Encoding.antt      encoding/encoding.go: LabelToPubkey, PubkeyToLabel, DetectFormat and
--                          NormalizePubkey, with an error per error of the code.
--   Ctl/Validation.antt    validation/dns.go: ValidateAlias, ValidateFQDN and SanitizeAlias. The
--                          regular expressions are executable tests and rewritings.
--   Ctl/EtcdClient.antt    client/etcd.go: AddPeer and RemovePeer.
--   Ctl/Address.antt       client/etcd.go: incrementIP.
--   Ctl/Allocation.antt    client/etcd.go: AllocateIP with getAllUsedIPs.
--   Ctl/WireguardClient.antt  client/wireguard.go: all of its operations.
--   Ctl/Config.antt        config/config.go: Load and Validate.
--   Ctl/PeerAdd.antt       cmd/peer_add.go: runPeerAdd with its rollback.
--   Ctl/PeerList.antt      client/etcd.go: ListPeers.
--   Ctl/PeerRemove.antt    cmd/peer_remove.go: runPeerRemove.
--   Ctl/PeerTable.antt     cmd/peer_list.go and cmd/peer_export.go.
--   Ctl/Status.antt        cmd/status.go and the Ping of both clients.
--   Ctl/DdnsDelete.antt    client/etcd.go: callDDNSDelete.
--   Ctl/Connect.antt       client/etcd.go: NewEtcdClient and loadTLSConfig.
--   Ctl/Root.antt          cmd/root.go: what runs before every command.
-- The two programs share etcd, and valonctl calls the HTTP API of the plugin: Registered.antt and its
-- children put them together, from a registration or a removal to the answers of the DNS server.
--
-- Below both. Go strings are lists of bytes. Text.antt has the functions of Go's strings package
-- that the programs use; on ASCII they are written out, and what they do on other texts is a
-- parameter, the record Unicode. Text/Path.antt has path.Join. Base32.antt, Base64.antt and Net.antt
-- model the parts of encoding/base32, encoding/base64, net and strconv that are called. etcd is not
-- part of the repository: Etcd.antt takes its operations as a record, any of which may fail, and IsEtcd states
-- what etcd documents of a call that succeeds. Etcd/Keys.antt spells the keys. wgctrl is a parameter
-- in the same way: Wireguard.antt has its operations and IsWgctrl its laws, on the peers that an
-- interface has. Plugin/Setup.antt takes Caddy's controller with its laws. The interfaces of the
-- host, the configuration file and its parser are functions that the caller gives.
--
-- Fuel: ipv6_groups of Net/Addr.antt, the loop of Go's parser over the groups of an IPv6 address, has
-- eight rounds, since each fills two of 16 bytes. The loop of AllocateIP runs on fuel that the
-- caller gives, and says so when it runs out; there is a theorem on how much is enough for an IPv4
-- network. So do the loops over the tokens of the Corefile. The rounding of a float64 in
-- Ctl/PeerTable.antt scales a fraction up at most 96 times, and none needs more than 94.
--
-- Not modelled: the goroutines and locks around the operations (each operation is one step), the
-- sockets and time limits of the HTTP server, the registration of the plugin with CoreDNS, the set-up
-- of cobra, and the text that commands print. JSON, TLS files, HTTP requests and the constructors of
-- the clients of etcd and wgctrl are parameters.
mod Prelude
pub mod Text
pub mod Net
pub mod Etcd
pub mod Wireguard
pub mod Base32
pub mod Base64
pub mod Plugin
pub mod Ctl
pub mod Registered
mod Tests
