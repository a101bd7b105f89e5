-- ===== src/Etcd/Keys.antt =====
-- The keys under /valon, as the format strings of both programs spell them.
use valon.Prelude.{Bytes, ◌++◌, codes}

-- /valon/peers/<pubkey>/<field>
unfoldable pub peer_key : Bytes → Bytes → Bytes
peer_key pubkey field = codes "/valon/peers/" ++ (pubkey ++ (codes "/" ++ field))

-- /valon/aliases/<alias>
unfoldable pub alias_key : Bytes → Bytes
alias_key alias = codes "/valon/aliases/" ++ alias

abbrev pub wg_ip_field : Bytes
wg_ip_field = codes "wg_ip"

abbrev pub lan_field : Bytes
lan_field = codes "endpoints/lan"

abbrev pub nated_field : Bytes
nated_field = codes "endpoints/nated"

abbrev pub alias_field : Bytes
alias_field = codes "alias"
