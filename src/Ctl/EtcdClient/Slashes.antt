-- ===== src/Ctl/EtcdClient/Slashes.antt =====
-- Keys in base64 that start with a slash, which path.Join does not keep.
use valon.Prelude.{Bytes, codes}

abbrev peers : Bytes
peers = codes "/valon/peers"
